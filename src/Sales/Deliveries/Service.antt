-- ===== src/Sales/Deliveries/Service.antt =====
-- src/application/services/delivery-service.ts over the repository. The checks before the
-- transaction write nothing, so each operation is one transaction body. The list is left out.
use Prim.Native.String.{String}
use new_erp_final.Common.{
  ℕ, Bool, true, false, not, Option, none, some, List, [], ◌∷◌, ◌==◌, if◌then◌else◌, find, member,
  is_some,
}
use new_erp_final.Transaction.{
  Tx, validation, ◌>>=◌, ◌>>◌, pure, require, or_throw, bad_transition, no_provider,
  no_reservations, not_updated, no_reservation_reference,
}
use new_erp_final.Database.{ReservationStatus, reserved, Reservation, Context}
use new_erp_final.Environment.{Env}
use new_erp_final.Authorization.{Authorization, authorize}
use new_erp_final.Sales.Books.{
  Delivery, DeliveryStatus, draft, dispatched, delivered, completed, cancelled, DeliveryItem, Books,
  on_db, delivery_table, record_event, delivery_created, delivery_moved,
}
use new_erp_final.Sales.Documents
use new_erp_final.Sales.Documents.{check_id, check_version, trimmed_key}
use new_erp_final.Sales.Ports.{SalesTexts, StockPort}
use new_erp_final.Sales.Deliveries.Repository
use new_erp_final.Sales.Deliveries.Repository.{Reference}

abbrev pub transitions : DeliveryStatus → List DeliveryStatus
transitions draft = dispatched ∷ cancelled ∷ []
transitions dispatched = delivered ∷ cancelled ∷ []
transitions delivered = completed ∷ []
transitions completed = []
transitions cancelled = []

abbrev pub same_status : DeliveryStatus → DeliveryStatus → Bool
same_status draft draft = true
same_status dispatched dispatched = true
same_status delivered delivered = true
same_status completed completed = true
same_status cancelled cancelled = true
same_status _ _ = false

-- `DELIVERY_PERMISSIONS[permissionKey]`
unfoldable pub transition_permission : DeliveryStatus → String
transition_permission dispatched = "sales.delivery.dispatch"
transition_permission delivered = "sales.delivery.deliver"
transition_permission completed = "sales.delivery.complete"
transition_permission _ = "sales.delivery.cancel"

abbrev is_reserved : ReservationStatus → Bool
is_reserved reserved = true
is_reserved _ = false

-- `!reservations.length || reservations.some((r) => r.status !== 'RESERVED')`
abbrev pub lacks_reservation : List Reservation → Bool
lacks_reservation [] = true
lacks_reservation (r ∷ rs) = member (λ x. not (is_reserved x.status)) (r ∷ rs)

-- `!items.length || items.some((item) => !item.reservationId)`
abbrev pub lacks_reference : List DeliveryItem → Bool
lacks_reference [] = true
lacks_reference (x ∷ xs) = member (λ i. not (is_some i.reservation)) (x ∷ xs)

abbrev has_item : Option ℕ → Reservation → Bool
has_item none r = false
has_item (some item) r = r.item == item

-- The references of the lines; a line without a reservation of its item throws.
unfoldable pub match_lines : List Reservation → List DeliveryItem → Tx Books (List Reference)
match_lines rows [] = pure []
match_lines rows (x ∷ xs) = do
  r ← or_throw (find (has_item x.item) rows) (validation no_reservations)
  rest ← match_lines rows xs
  pure (record { order_item = x.order_item; reservation = r.id } ∷ rest)

module _ (env : Env) (texts : SalesTexts) (auth : Authorization)
    (inventory : Option StockPort) where
  abbrev permitted : String → Context → Tx Books (Unit {0})
  permitted p c = authorize env auth "sales" c (some p)

  -- What `create` does with an inventory: every line is tied to a reservation of the order.
  unfoldable pub link : StockPort → Context → ℕ → Delivery → Tx Books Delivery
  link port c order d = do
    rows ← on_db (port.list_by_source c texts.sales_order order)
    require (not (lacks_reservation rows)) (validation no_reservations)
    references ← match_lines rows d.rest.items
    linked ← Repository.attach_reservation_references env c d.id references
    or_throw linked (validation not_updated)

  unfoldable pub create : Context → ℕ → ℕ → Tx Books Delivery
  create c order key = do
    permitted "sales.delivery.create" c
    check_id env order
    key ← trimmed_key env key
    let allow_replay = auth.has_permission c.tenant c.user (some "sales.delivery.read")
    d ← Repository.create env c order key allow_replay
    x ← elim inventory [ none ↦ pure d | some port ↦ link port c order d ]
    record_event c (delivery_created x.id)
    pure x

  unfoldable pub get : Context → ℕ → Tx Books Delivery
  unfolding Documents.get
  get = Documents.get env auth delivery_table "sales.delivery.read"

  unfoldable pub update : Context → ℕ → ℕ → ℕ → Tx Books Delivery
  update c id notes expected_version = do
    permitted "sales.delivery.update" c
    check_id env id
    check_version expected_version
    row ← Repository.update env c id notes expected_version
    or_throw row (validation not_updated)

  -- What a completed delivery does to the inventory: it fulfils the reservations of its order.
  unfoldable pub take_stock : Context → Delivery → Tx Books (Unit {0})
  take_stock c d = do
    port ← or_throw inventory (validation no_provider)
    require (not (lacks_reference d.rest.items)) (validation no_reservation_reference)
    let key = env.join texts.delivery_prefix d.id
    on_db (port.fulfill_by_source c texts.sales_order d.source key)
    pure tt

  -- The callback of `transition`.
  unfoldable pub move : Context → ℕ → DeliveryStatus → ℕ → Tx Books Delivery
  unfolding get take_stock
  move c id status expected_version = do
    d ← get c id
    require (member (same_status status) (transitions d.status)) (validation bad_transition)
    if same_status status completed then take_stock c d else pure tt
    row ← Repository.transition env c id status expected_version
    x ← or_throw row (validation not_updated)
    record_event c (delivery_moved status id)
    pure x

  unfoldable pub transition : Context → ℕ → DeliveryStatus → ℕ → Tx Books Delivery
  transition c id status expected_version = do
    permitted (transition_permission status) c
    check_id env id
    check_version expected_version
    move c id status expected_version
