-- ===== src/Order/Service/Permissions.antt =====
-- `ORDER_PERMISSIONS` of src/domain/contracts/order.ts, and the look-up in it by the name of a
-- status in src/application/services/order-service.ts.
use Prim.Native.String.{String}
use text.Mathlib.Text.{◌==◌ as str_eq}
use new_erp_final.Common.{Option, none, some, List, [], ◌∷◌, if◌then◌else◌}
use new_erp_final.Database.{OrderStatus, draft, confirmed, cancelled, closed}

abbrev pub order_permissions : List (String × String)
order_permissions =
    ("read", "sales.order.read")
    ∷ ("create", "sales.order.create")
    ∷ ("update", "sales.order.update")
    ∷ ("delete", "sales.order.delete")
    ∷ ("confirm", "sales.order.confirm")
    ∷ ("reserve", "sales.order.reserve")
    ∷ ("cancel", "sales.order.cancel")
    ∷ ("close", "sales.order.close")
    ∷ []

-- A field of an object by its name, `undefined` if there is none.
abbrev pub field : String → List (String × String) → Option String
field name [] = none
field name ((k, v) ∷ rest) = if str_eq k name then some v else field name rest

-- `status.toLowerCase()`
abbrev pub status_name : OrderStatus → String
status_name draft = "draft"
status_name confirmed = "confirmed"
status_name cancelled = "cancelled"
status_name closed = "closed"

-- `ORDER_PERMISSIONS[status.toLowerCase()]`
unfoldable pub transition_permission : OrderStatus → Option String
transition_permission status = field (status_name status) order_permissions
