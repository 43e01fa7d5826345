-- ===== src/Order/Service.antt =====
-- src/application/services/order-service.ts over the repository, with the inventory behind the
-- port of src/domain/contracts/inventory.ts. What the code runs in `runInTransaction` and the
-- checks before it are one transaction body here: the checks write nothing. An expected version
-- that is no positive integer is 0. The list of orders is left out.
mod Permissions
unfoldable pub use Permissions.*
use Prim.Native.String.{String}
use new_erp_final.Common.{
  ℕ, ◌+◌, Bool, true, false, not, ◌&&◌, ◌||◌, Option, none, some, List, [], ◌∷◌, leb, member,
  if◌then◌else◌,
}
use new_erp_final.Transaction.{
  Tx, validation, conflict, not_found, runtime, ◌>>=◌, ◌>>◌, pure, throw, modify, require, or_throw,
  not_a_uuid, bad_version, bad_transition, not_draft, no_provider, no_warehouse_context,
  no_item_master, reservation_not_released, reservation_not_updated,
}
use new_erp_final.Database.{
  ReservationStatus, reserved, OrderStatus, draft, confirmed, cancelled, closed, OrderItem, Order,
  Reservation, Db, Context, order_created, order_updated, order_deleted, order_reserved,
  order_moved,
}
use new_erp_final.Environment.{Env, Texts}
use new_erp_final.Authorization.{Authorization, authorize}
use new_erp_final.Inventory.Service
use new_erp_final.Inventory.Service.{Input, ticks, record_event}
use new_erp_final.Order.Repository

-- `InventoryDependencyPort`, as far as the order service calls it.
pub record InventoryPort : Type 0 where
  pub list_by_source : Context → ℕ → ℕ → Tx Db (List Reservation)
  pub reserve : Context → Input → Tx Db Reservation
  pub release : Context → ℕ → ℕ → Tx Db Reservation

-- `transitions`
abbrev pub transitions : OrderStatus → List OrderStatus
transitions draft = confirmed ∷ cancelled ∷ []
transitions confirmed = cancelled ∷ closed ∷ []
transitions cancelled = []
transitions closed = []

abbrev pub same_status : OrderStatus → OrderStatus → Bool
same_status draft draft = true
same_status confirmed confirmed = true
same_status cancelled cancelled = true
same_status closed closed = true
same_status _ _ = false

abbrev pub is_open : ReservationStatus → Bool
is_open reserved = true
is_open _ = false

module _ (env : Env) (texts : Texts) (auth : Authorization) (inventory : Option InventoryPort) where
  abbrev permitted : Option String → Context → Tx Db (Unit {0})
  permitted p c = authorize env auth "sales" c p

  abbrev check_id : ℕ → Tx Db (Unit {0})
  check_id id = require (env.is_uuid id) (validation not_a_uuid)

  abbrev check_optional_id : Option ℕ → Tx Db (Unit {0})
  check_optional_id none = pure tt
  check_optional_id (some id) = check_id id

  unfoldable pub create : Context → ℕ → Option ℕ → Tx Db Order
  create c quotation warehouse = do
    permitted (some "sales.order.create") c
    check_id quotation
    check_optional_id warehouse
    o ← Repository.create env c quotation warehouse
    record_event c order_created o.id
    pure o

  unfoldable pub get : Context → ℕ → Tx Db Order
  get c id = do
    permitted (some "sales.order.read") c
    check_id id
    o ← Repository.get_by_id env c id
    or_throw o not_found

  unfoldable pub update : Context → ℕ → ℕ → ℕ → Tx Db Order
  update c id notes expected_version = do
    permitted (some "sales.order.update") c
    check_id id
    row ← Repository.update env c id notes expected_version
    o ← or_throw row conflict
    record_event c order_updated id
    pure o

  unfoldable pub delete : Context → ℕ → Tx Db Order
  delete c id = do
    permitted (some "sales.order.delete") c
    check_id id
    row ← Repository.soft_delete env c id
    o ← or_throw row (validation not_draft)
    record_event c order_deleted id
    pure o

  -- The body of the loop over the reservations of an order that is cancelled, and the loop.
  unfoldable pub release_line : InventoryPort → Context → ℕ → Reservation → Tx Db (Unit {0})
  release_line port c order r =
      if is_open r.status
      then port.release c r.id (env.join (env.join texts.cancel_prefix order) r.id) >> pure tt
      else pure tt

  unfoldable pub release_all : InventoryPort → Context → ℕ → List Reservation → Tx Db (Unit {0})
  release_all port c order [] = pure tt
  release_all port c order (r ∷ rs) =
      release_line port c order r >>= λ u. release_all port c order rs

  -- A cancelled order gives its stock back; the result is the version that the transition expects.
  unfoldable pub give_up_stock : Context → Order → ℕ → Tx Db ℕ
  give_up_stock c o expected_version = do
    port ← or_throw inventory (validation no_provider)
    rows ← port.list_by_source c texts.sales_order o.id
    release_all port c o.id rows
    done ← Repository.update_reservation_status env c o.id false
    or_throw done (validation reservation_not_released)
    pure (expected_version + 1)

  -- The callback of `transition`.
  unfoldable pub move : Context → ℕ → OrderStatus → ℕ → Tx Db Order
  move c id status expected_version = do
    row ← Repository.get_by_id env c id
    o ← or_throw row not_found
    require (member (same_status status) (transitions o.status)) (validation bad_transition)
    version ←
        (if same_status status cancelled && o.is_reserved
          then give_up_stock c o expected_version
          else pure expected_version)
    moved ← Repository.transition env c id status version
    x ← or_throw moved conflict
    record_event c (order_moved status) id
    pure x

  unfoldable pub transition : Context → ℕ → OrderStatus → ℕ → Tx Db Order
  transition c id status expected_version = do
    require (leb 1 expected_version) (validation bad_version)
    permitted (transition_permission status) c
    check_id id
    move c id status expected_version

  -- The request of one line, and the loop over the lines; a line without an item does not get
  -- here.
  unfoldable pub line_input : ℕ → ℕ → ℕ → ℕ → Input
  line_input warehouse order item quantity = record {
    warehouse = warehouse;
    item = item;
    quantity = ticks quantity;
    source_type = texts.sales_order;
    source = order;
    key = env.join (env.join texts.reserve_prefix order) item;
  }

  unfoldable pub reserve_line : InventoryPort → Context → ℕ → ℕ → OrderItem → Tx Db Reservation
  reserve_line port c warehouse order x = or_throw x.item runtime >>= λ item.
      port.reserve c (line_input warehouse order item x.quantity)

  unfoldable pub reserve_lines : InventoryPort → Context → ℕ → ℕ → List OrderItem → Tx Db (Unit {0})
  reserve_lines port c warehouse order [] = pure tt
  reserve_lines port c warehouse order (x ∷ xs) =
      reserve_line port c warehouse order x >>= λ r. reserve_lines port c warehouse order xs

  unfoldable pub reserve : Context → ℕ → Tx Db Order
  reserve c id = do
    permitted (some "sales.order.reserve") c
    check_id id
    port ← or_throw inventory (validation no_provider)
    row ← Repository.get_by_id env c id
    o ← or_throw row not_found
    require (same_status o.status confirmed) (validation bad_transition)
    warehouse ← or_throw o.warehouse (validation no_warehouse_context)
    require (not (Repository.lacks_item o.items)) (validation no_item_master)
    reserve_lines port c warehouse o.id o.items
    updated ← Repository.update_reservation_status env c o.id true
    x ← or_throw updated (validation reservation_not_updated)
    record_event c order_reserved o.id
    pure x

-- The port that the application builds from the inventory service.
abbrev pub inventory_port : Env → Authorization → InventoryPort
inventory_port env auth = record {
  list_by_source = Service.list_by_source env auth;
  reserve = Service.reserve env auth;
  release = Service.release env auth;
}
