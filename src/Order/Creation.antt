-- ===== src/Order/Creation.antt =====
-- The creation of a sales order in
-- src/infrastructure/database/repositories/postgres-order-repository.ts: what it needs, what the
-- new order holds, and its number.
use new_erp_final.Common.{
  ℕ, ◌+◌, ◌≡◌, ◌≢◌, true, false, Option, none, ◌∷◌, arith, find, member, inl, inr,
}
use new_erp_final.Transaction.{ok, err, run_in_transaction, Error, Result-cases}
use new_erp_final.Database.{draft, Order, Db, Context}
use new_erp_final.Environment.{Env}
use new_erp_final.Order.Repository
use new_erp_final.Order.Repository.{
  has_number, next_number, count_up, is_accepted, is_active_warehouse, order_of, lacks_item,
}

-- What a successful call has read and written.
pub record IsCreated (c : Context) (quotation : ℕ) (warehouse : Option ℕ) (db : Db) (o : Order)
    (db' : Db) : Type 0 where
  pub source : find (is_accepted c quotation) db.quotations ≢ none
  pub in_warehouse : member (is_active_warehouse c warehouse) db.warehouses ≡ true
  pub with_items : lacks_item o.items ≡ false
  pub is_draft : o.status ≡ draft
  pub unreserved : o.is_reserved ≡ false
  pub numbered : o.number ≡ db.order_counter c.tenant c.branch + 1
  pub counted : db'.order_counter c.tenant c.branch ≡ o.number
  pub unused : member (has_number c.tenant o.number) db.orders ≡ false
  pub stored : db'.orders ≡ o ∷ db.orders
  pub reservations : db'.reservations ≡ db.reservations

-- An order is created only from an accepted quotation of the caller's context that has lines, an
-- item on each, and for an active warehouse of the tenant. It is a draft without reservations,
-- its number is the next of its branch and is free in the tenant, and the counter has moved to it.
pub create-IsCreated :
    (env : Env) (c : Context) (quotation : ℕ) (warehouse : Option ℕ) (db : Db) (o : Order)
    (db' : Db)
    → Repository.create env c quotation warehouse db ≡ ok (o, db')
    → IsCreated c quotation warehouse db o db'
unfolding Repository.create order_of
create-IsCreated env c quotation warehouse db o db' e = ground arith

-- The counter of the numbers belongs to a branch, but the numbers are unique in a tenant: if the
-- next number of the branch is in use anywhere in the tenant, no order can be created for that
-- branch, and the failed transaction leaves the counter where it was.
pub create_clash :
    (env : Env) (c : Context) (quotation : ℕ) (warehouse : Option ℕ) (db : Db)
    → member (has_number c.tenant (next_number c db)) db.orders ≡ true
    → (e : Error) × (run_in_transaction (Repository.create env c quotation warehouse) db
        ≡ (err e, db))
unfolding run_in_transaction
create_clash env c quotation warehouse db used =
    elim (Result-cases (Repository.create env c quotation warehouse db)) [
      | inl ((o, db'), done) ↦
          let made = create-IsCreated env c quotation warehouse db o db' done in
          absurd (ground (arith, made.unused, made.numbered))
      | inr (e, failed) ↦ (e, ground (arith, failed))
    ]
