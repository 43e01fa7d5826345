-- ===== src/Inventory/Conservation.antt =====
-- Stock is conserved: the stock rows of src/infrastructure/database/repositories/
-- postgres-inventory-repository.ts agree with its movements and reservations after every
-- operation, whichever way it ends.
use new_erp_final.Common.{ℕ, ◌+◌, ◌≡◌, ◌≢◌, true, some, List, arith, find, update_first, inl, inr}
use mathlib.Core.Path.{subst, sym}
use new_erp_final.Transaction.{ok}
use new_erp_final.Database.{
  reserved, released, fulfilled, receipt, issue, return, StockKey, Stock, Reservation, Movement, Db,
  same_self, same_comm, ReservationStatus, MovementType, Context,
}
use new_erp_final.Environment.{Env}
use new_erp_final.Inventory.Queries.{
  Request, has_id, restatus, reservation_key, ensured, stock_key, movement_of, reservation_of,
  set_status, covers,
}
use new_erp_final.Inventory.Repository.{
  receive_stock, return_stock, reserve_stock, release_reservation, fulfill_reservation, issue_of,
  can_drop, can_issue,
}
use new_erp_final.Inventory.Balance.{
  quantity_at, held, inflow, outflow, reserved_sum, IsBalanced, by_key, reserved_sum-update,
  reserved_sum-cons, received-cons, issued-cons,
}
use new_erp_final.Inventory.Effects.{
  posted, reserving, releasing, issuing, receive_stock_effect, return_stock_effect,
  reserve_stock_effect, release_reservation_effect, fulfill_reservation_effect, find-has_id,
}

posted-IsBalanced :
    (kind : MovementType) (c : Context) (i : Request) (db : Db)
    → kind ≢ issue
    → IsBalanced db
    → IsBalanced (posted kind c i db)
unfolding posted movement_of inflow outflow
posted-IsBalanced kind c i db not_issue h =
    by_key _ (stock_key c i)
      (ground (
        arith,
        h (stock_key c i),
        same_self (stock_key c i),
        received-cons (stock_key c i) (movement_of kind c i) db.movements,
        issued-cons (stock_key c i) (movement_of kind c i) db.movements,
      ))
      (λ j other. ground (
        arith,
        h j,
        same_comm (stock_key c i) j,
        received-cons j (movement_of kind c i) db.movements,
        issued-cons j (movement_of kind c i) db.movements,
      ))

reserving-IsBalanced :
    (env : Env) (c : Context) (i : Request) (db : Db)
    → covers i.quantity ((ensured (stock_key c i) db).stock (stock_key c i)) ≡ true
    → IsBalanced db
    → IsBalanced (reserving env c i db)
unfolding reserving reservation_of held
reserving-IsBalanced env c i db room h =
    by_key _ (stock_key c i)
      (ground (
        arith,
        h (stock_key c i),
        same_self (stock_key c i),
        reserved_sum-cons (stock_key c i) (reservation_of (env.gen_uuid db.generated) c i)
            db.reservations,
      ))
      (λ j other. ground (
        arith,
        h j,
        same_comm (stock_key c i) j,
        reserved_sum-cons j (reservation_of (env.gen_uuid db.generated) c i) db.reservations,
      ))

restatus-held :
    (j : StockKey) (c : Context) (status : ReservationStatus) (r : Reservation)
    → r.tenant ≡ c.tenant
    → status ≢ reserved
    → held j (restatus c status r) ≡ 0
unfolding restatus held
restatus-held j c status r tenant closed = ground arith

held_reserved :
    (j : StockKey) (r : Reservation)
    → r.status ≡ reserved
    → held j r ≡ quantity_at j (reservation_key r) r.quantity
unfolding held
held_reserved j r is_open = ground arith

-- Closing an open reservation takes what it held off the sum of its key.
closing_sum :
    (j : StockKey) (c : Context) (status : ReservationStatus) (r : Reservation)
    (rs : List Reservation)
    → find (has_id r.id) rs ≡ some r
    → r.tenant ≡ c.tenant
    → r.status ≡ reserved
    → status ≢ reserved
    → reserved_sum j (update_first (has_id r.id) (restatus c status) rs)
        + quantity_at j (reservation_key r) r.quantity
      ≡ reserved_sum j rs
closing_sum j c status r rs found tenant is_open closed = omega (
  arith,
  reserved_sum-update j (has_id r.id) (restatus c status) rs found,
  restatus-held j c status r tenant closed,
  held_reserved j r is_open,
)

releasing-IsBalanced :
    (c : Context) (r : Reservation) (db : Db)
    → find (has_id r.id) db.reservations ≡ some r
    → r.tenant ≡ c.tenant
    → r.status ≡ reserved
    → can_drop r.quantity (db.stock (reservation_key r)) ≡ true
    → IsBalanced db
    → IsBalanced (releasing c r db)
unfolding releasing set_status
releasing-IsBalanced c r db found tenant is_open room h =
    by_key _ (reservation_key r)
      (ground (
        arith,
        h (reservation_key r),
        same_self (reservation_key r),
        closing_sum (reservation_key r) c released r db.reservations found tenant is_open (λ e. cc),
      ))
      (λ j other. ground (
        arith,
        h j,
        same_comm (reservation_key r) j,
        closing_sum j c released r db.reservations found tenant is_open (λ e. cc),
      ))

issuing-IsBalanced :
    (text : ℕ) (c : Context) (r : Reservation) (key : ℕ) (db : Db)
    → find (has_id r.id) db.reservations ≡ some r
    → r.tenant ≡ c.tenant
    → r.status ≡ reserved
    → can_issue r.quantity (db.stock (reservation_key r)) ≡ true
    → IsBalanced db
    → IsBalanced (issuing text c r key db)
unfolding issuing set_status issue_of inflow outflow
issuing-IsBalanced text c r key db found tenant is_open room h =
    by_key _ (reservation_key r)
      (ground (
        arith,
        h (reservation_key r),
        same_self (reservation_key r),
        closing_sum (reservation_key r) c fulfilled r db.reservations found tenant is_open
            (λ e. cc),
        received-cons (reservation_key r) (issue_of text c r key) db.movements,
        issued-cons (reservation_key r) (issue_of text c r key) db.movements,
      ))
      (λ j other. ground (
        arith,
        h j,
        same_comm (reservation_key r) j,
        closing_sum j c fulfilled r db.reservations found tenant is_open (λ e. cc),
        received-cons j (issue_of text c r key) db.movements,
        issued-cons j (issue_of text c r key) db.movements,
      ))

-- A receipt that returns keeps every stock row in agreement with the movements and reservations.
pub receive_stock-IsBalanced :
    (env : Env) (c : Context) (i : Request) (db : Db) {s : Stock} {db' : Db}
    → IsBalanced db
    → receive_stock env c i db ≡ ok (s, db')
    → IsBalanced db'
receive_stock-IsBalanced env c i db h e = elim (receive_stock_effect env c i db e) [
  | inl same_db ↦ subst IsBalanced (sym same_db) h
  | inr new ↦ subst IsBalanced (sym new.0) (posted-IsBalanced receipt c i db (λ x. cc) h)
]

pub return_stock-IsBalanced :
    (env : Env) (c : Context) (i : Request) (db : Db) {m : Movement} {db' : Db}
    → IsBalanced db
    → return_stock env c i db ≡ ok (m, db')
    → IsBalanced db'
return_stock-IsBalanced env c i db h e = elim (return_stock_effect env c i db e) [
  | inl same_db ↦ subst IsBalanced (sym same_db) h
  | inr new ↦ subst IsBalanced (sym new.0) (posted-IsBalanced return c i db (λ x. cc) h)
]

pub reserve_stock-IsBalanced :
    (env : Env) (c : Context) (i : Request) (db : Db) {r : Reservation} {db' : Db}
    → IsBalanced db
    → reserve_stock env c i db ≡ ok (r, db')
    → IsBalanced db'
reserve_stock-IsBalanced env c i db h e = elim (reserve_stock_effect env c i db e) [
  | inl old ↦ subst IsBalanced (sym old.1.0) h
  | inr new ↦ subst IsBalanced (sym new.0) (reserving-IsBalanced env c i db new.2 h)
]

pub release_reservation-IsBalanced :
    (env : Env) (c : Context) (id : ℕ) (db : Db) {r' : Reservation} {db' : Db}
    → IsBalanced db
    → release_reservation env c id db ≡ ok (r', db')
    → IsBalanced db'
release_reservation-IsBalanced env c id db h e =
    let (r, found, tenant, how) = release_reservation_effect env c id db e in
    let self : find (has_id r.id) db.reservations ≡ some r =
      subst (λ n. find (has_id n) db.reservations ≡ some r)
        (sym (find-has_id id db.reservations found)) found in
    elim how [
      | inl old ↦ subst IsBalanced (sym old.0) h
      | inr new ↦
          subst IsBalanced (sym new.0) (releasing-IsBalanced c r db self tenant new.1 new.2 h)
    ]

pub fulfill_reservation-IsBalanced :
    (env : Env) (text : ℕ) (c : Context) (id key : ℕ) (db : Db) {r' : Reservation} {db' : Db}
    → IsBalanced db
    → fulfill_reservation env text c id key db ≡ ok (r', db')
    → IsBalanced db'
fulfill_reservation-IsBalanced env text c id key db h e =
    let (r, found, tenant, how) = fulfill_reservation_effect env text c id key db e in
    let self : find (has_id r.id) db.reservations ≡ some r =
      subst (λ n. find (has_id n) db.reservations ≡ some r)
        (sym (find-has_id id db.reservations found)) found in
    elim how [
      | inl old ↦ subst IsBalanced (sym old) h
      | inr new ↦
          subst IsBalanced (sym new.0)
            (issuing-IsBalanced text c r key db self tenant new.1 new.2 h)
    ]
