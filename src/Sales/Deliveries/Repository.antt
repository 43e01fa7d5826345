-- ===== src/Sales/Deliveries/Repository.antt =====
-- src/infrastructure/database/repositories/postgres-delivery-repository.ts, query by query. The
-- list is left out.
use new_erp_final.Common.{
  ℕ, Bool, true, false, ◌&&◌, Option, none, some, List, [], ◌∷◌, ◌==◌, if◌then◌else◌, map, find,
  update_first, is_some,
}
use new_erp_final.Transaction.{
  Tx, validation, bad_statement, ◌>>=◌, ◌>>◌, pure, throw, gets, modify, require, or_throw,
  with_tenant, not_confirmed, no_delivery_warehouse,
}
use new_erp_final.Database.{OrderStatus, confirmed, Context}
use new_erp_final.Environment.{Env}
use new_erp_final.Order.Repository.{is_order}
use new_erp_final.Sales.Books.{Delivery, DeliveryStatus, draft, DeliveryItem, Books, delivery_table}
use new_erp_final.Sales.Documents.{with_notes, with_status, with_rest, get_by_id, mutate, replay_or}

abbrev pub is_draft : DeliveryStatus → Bool
is_draft draft = true
is_draft _ = false

abbrev is_confirmed : OrderStatus → Bool
is_confirmed confirmed = true
is_confirmed _ = false

-- The `INSERT` names ten columns and gives them eleven values, which PostgreSQL refuses; what the
-- transaction has counted up by then is undone.
unfoldable pub create : Env → Context → ℕ → ℕ → Bool → Tx Books Delivery
unfolding replay_or
create env c order key allow_replay = replay_or env delivery_table c key order allow_replay (do
  row ← gets (λ s. find (is_order c order) s.db.orders)
  o ← or_throw row (validation not_confirmed)
  require (is_confirmed o.status) (validation not_confirmed)
  require (is_some o.warehouse) (validation no_delivery_warehouse)
  throw bad_statement)

unfoldable pub update : Env → Context → ℕ → ℕ → ℕ → Tx Books (Option Delivery)
unfolding mutate
update env c id notes expected_version =
    mutate env delivery_table c id (λ d. is_draft d.status && d.version == expected_version)
      (with_notes notes)

unfoldable pub transition : Env → Context → ℕ → DeliveryStatus → ℕ → Tx Books (Option Delivery)
unfolding mutate
transition env c id status expected_version =
    mutate env delivery_table c id (λ d. d.version == expected_version) (with_status status)

-- `{ orderItemId, reservationId }`
pub record Reference : Type 0 where
  pub order_item : ℕ
  pub reservation : ℕ

abbrev set_reservation : Reference → DeliveryItem → DeliveryItem
set_reservation r x =
    if x.order_item == r.order_item then record x { reservation = some r.reservation } else x

abbrev link_items : Reference → Delivery → Delivery
link_items r d = record d { rest = record d.rest { items = map (set_reservation r) d.rest.items } }

-- `UPDATE sales_delivery_items SET reservation_id`, which names the delivery and the tenant.
unfoldable pub link_one : Env → Context → ℕ → Reference → Tx Books (Unit {0})
link_one env c id r = with_tenant env.is_uuid c.tenant (
    modify (λ s. record s {
      deliveries =
          update_first (λ d. d.id == id && d.tenant == c.tenant) (link_items r) s.deliveries;
    }))

unfoldable pub link_all : Env → Context → ℕ → List Reference → Tx Books (Unit {0})
link_all env c id [] = pure tt
link_all env c id (r ∷ rs) = link_one env c id r >> link_all env c id rs

unfoldable pub attach_reservation_references :
    Env → Context → ℕ → List Reference → Tx Books (Option Delivery)
unfolding mutate get_by_id
attach_reservation_references env c id references =
    mutate env delivery_table c id (λ d. is_draft d.status) (with_rest (λ x. x)) >>= λ row.
    elim row [
      | none ↦ pure none
      | some d ↦ link_all env c id references >> get_by_id env delivery_table c id
    ]
