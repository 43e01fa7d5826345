-- ===== src/Inventory/Histories.antt =====
-- Sequences of committed transactions of the inventory repository
-- (src/infrastructure/database/repositories/postgres-inventory-repository.ts), in any order and
-- for any tenants. A transaction that throws leaves no trace, so it is no step.
use new_erp_final.Common.{ℕ, ◌≡◌, List, [], ◌∷◌, arith}
use mathlib.Core.Path.{subst}
use new_erp_final.Transaction.{ok, bind_ok}
use new_erp_final.Database.{Db, Context, Stock, Reservation, Movement}
use new_erp_final.Environment.{Env}
use new_erp_final.Inventory.Queries.{Request, from_source}
use new_erp_final.Inventory.Repository.{
  receive_stock, return_stock, reserve_stock, release_reservation, fulfill_reservation, fulfill_all,
  fulfill_reservations_by_source, select_by_item,
}
use new_erp_final.Inventory.Balance.{IsBalanced}
use new_erp_final.Inventory.Conservation.{
  receive_stock-IsBalanced, return_stock-IsBalanced, reserve_stock-IsBalanced,
  release_reservation-IsBalanced, fulfill_reservation-IsBalanced,
}

module _ (env : Env) (text : ℕ) where
  -- One committed transaction.
  pub data Step (db db' : Db) : Type 0 where
    receive :
        (c : Context) (i : Request) (s : Stock)
        → receive_stock env c i db ≡ ok (s, db')
        → Step db db'
    give_back :
        (c : Context) (i : Request) (m : Movement)
        → return_stock env c i db ≡ ok (m, db')
        → Step db db'
    reserve :
        (c : Context) (i : Request) (r : Reservation)
        → reserve_stock env c i db ≡ ok (r, db')
        → Step db db'
    release :
        (c : Context) (id : ℕ) (r : Reservation)
        → release_reservation env c id db ≡ ok (r, db')
        → Step db db'
    fulfill :
        (c : Context) (id key : ℕ) (r : Reservation)
        → fulfill_reservation env text c id key db ≡ ok (r, db')
        → Step db db'
    fulfill_source :
        (c : Context) (source_type source key : ℕ) (rs : List Reservation)
        → fulfill_reservations_by_source env text c source_type source key db ≡ ok (rs, db')
        → Step db db'

  pub data Reach (db : Db) : Db → Type 0 where
    here : Reach db db
    next : {t u : Db} → Reach db t → Step t u → Reach db u

  fulfill_all-IsBalanced :
      (c : Context) (key : ℕ) (rows : List Reservation) (db : Db) {rs : List Reservation} {db' : Db}
      → IsBalanced db
      → fulfill_all env text c key rows db ≡ ok (rs, db')
      → IsBalanced db'
  unfolding fulfill_all
  fulfill_all-IsBalanced c key [] db h e = subst IsBalanced (ground arith) h
  fulfill_all-IsBalanced c key (r ∷ rows) db h e =
      let (x, t, one, rest) =
        bind_ok (fulfill_reservation env text c r.id (env.join key r.id)) _ db e in
      let (xs, u, many, done) = bind_ok (fulfill_all env text c key rows) _ t rest in
      subst IsBalanced (ground arith) (
        fulfill_all-IsBalanced c key rows t
          (fulfill_reservation-IsBalanced env text c r.id (env.join key r.id) db h one) many)

  pub fulfill_source_effect :
      (c : Context) (source_type source key : ℕ) (db : Db) {rs : List Reservation} {db' : Db}
      → fulfill_reservations_by_source env text c source_type source key db ≡ ok (rs, db')
      → fulfill_all env text c key
          (select_by_item (from_source c source_type source) db.reservations)
          db
        ≡ ok (rs, db')
  unfolding fulfill_reservations_by_source
  fulfill_source_effect c source_type source key db e = ground arith

  -- Fulfilling every reservation of a source keeps the stock rows in agreement with the movements
  -- and the reservations.
  pub fulfill_reservations_by_source-IsBalanced :
      (c : Context) (source_type source key : ℕ) (db : Db) {rs : List Reservation} {db' : Db}
      → IsBalanced db
      → fulfill_reservations_by_source env text c source_type source key db ≡ ok (rs, db')
      → IsBalanced db'
  fulfill_reservations_by_source-IsBalanced c source_type source key db h e =
      fulfill_all-IsBalanced c key
        (select_by_item (from_source c source_type source) db.reservations) db h
        (fulfill_source_effect c source_type source key db e)

  Step-IsBalanced : {db db' : Db} → Step db db' → IsBalanced db → IsBalanced db'
  Step-IsBalanced {db} (receive c i s e) h = receive_stock-IsBalanced env c i db h e
  Step-IsBalanced {db} (give_back c i m e) h = return_stock-IsBalanced env c i db h e
  Step-IsBalanced {db} (reserve c i r e) h = reserve_stock-IsBalanced env c i db h e
  Step-IsBalanced {db} (release c id r e) h = release_reservation-IsBalanced env c id db h e
  Step-IsBalanced {db} (fulfill c id key r e) h =
      fulfill_reservation-IsBalanced env text c id key db h e
  Step-IsBalanced {db} (fulfill_source c source_type source key rs e) h =
      fulfill_reservations_by_source-IsBalanced c source_type source key db h e

  -- After any sequence of committed transactions that starts from tables in agreement, the stock
  -- on hand of every key is what came in less what went out, its reserved quantity is what its
  -- open reservations hold, and no more is reserved than is on hand.
  pub Reach-IsBalanced : {db db' : Db} → IsBalanced db → Reach db db' → IsBalanced db'
  Reach-IsBalanced h here = h
  Reach-IsBalanced h (next r st) = Step-IsBalanced st (Reach-IsBalanced h r)
