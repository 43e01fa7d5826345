-- ===== src/Inventory/Effects.antt =====
-- The state that each operation of the inventory repository leaves, as a function of the state
-- before: what an operation that succeeds has done.
use new_erp_final.Common.{ℕ, ◌+◌, ◌≡◌, ◌<◌, true, some, List, [], ◌∷◌, arith, find, ◌⊎◌}
use new_erp_final.Transaction.{ok}
use new_erp_final.Database.{
  reserved, released, fulfilled, receipt, return, Stock, Reservation, Movement, Db, MovementType,
  Context,
}
use new_erp_final.Environment.{Env}
use new_erp_final.Inventory.Queries.{
  Request, has_id, reservation_key, update_stock, ensured, add_on_hand, add_reserved, drop_reserved,
  issue_stock, stock_key, movement_of, post_stock, reservation_of, set_status, for_line, covers,
  assert_warehouse_and_item,
}
use new_erp_final.Inventory.Repository.{
  receive_stock, return_stock, reserve_stock, insert_reservation, release_reserved,
  release_reservation, fulfill_reserved, fulfill_reservation, issue_of, can_drop, can_issue,
}

unfoldable pub posted : MovementType → Context → Request → Db → Db
posted kind c i db =
    let t = update_stock (stock_key c i) (add_on_hand i.quantity) (ensured (stock_key c i) db) in
    record t { movements = movement_of kind c i ∷ db.movements }

unfoldable pub reserving : Env → Context → Request → Db → Db
reserving env c i db =
    let t = update_stock (stock_key c i) (add_reserved i.quantity) (ensured (stock_key c i) db) in
    record t {
      reservations = reservation_of (env.gen_uuid db.generated) c i ∷ db.reservations;
      generated = db.generated + 1;
    }

unfoldable pub releasing : Context → Reservation → Db → Db
releasing c r db =
    set_status c r.id released (update_stock (reservation_key r) (drop_reserved r.quantity) db)

unfoldable pub issuing : ℕ → Context → Reservation → ℕ → Db → Db
issuing text c r key db =
    let t = update_stock (reservation_key r) (issue_stock r.quantity) db in
    set_status c r.id fulfilled (record t { movements = issue_of text c r key ∷ db.movements })

pub post_stock_effect :
    (kind : MovementType) (c : Context) (i : Request) (db db' : Db)
    → post_stock kind c i db ≡ ok (tt, db')
    → (db' ≡ posted kind c i db) × (0 < i.quantity)
unfolding post_stock posted assert_warehouse_and_item movement_of
post_stock_effect kind c i db db' h = ground arith

pub receive_stock_effect :
    (env : Env) (c : Context) (i : Request) (db : Db) {s : Stock} {db' : Db}
    → receive_stock env c i db ≡ ok (s, db')
    → (db' ≡ db) ⊎ ((db' ≡ posted receipt c i db) × (0 < i.quantity))
unfolding receive_stock
receive_stock_effect env c i db {db'} h = ground (arith, post_stock_effect receipt c i db db')

pub return_stock_effect :
    (env : Env) (c : Context) (i : Request) (db : Db) {m : Movement} {db' : Db}
    → return_stock env c i db ≡ ok (m, db')
    → (db' ≡ db) ⊎ ((db' ≡ posted return c i db) × (0 < i.quantity))
unfolding return_stock
return_stock_effect env c i db {db'} h = ground (arith, post_stock_effect return c i db db')

-- A reservation that is new was covered by the stock on hand that no other holds.
pub reserve_stock_effect :
    (env : Env) (c : Context) (i : Request) (db : Db) {r : Reservation} {db' : Db}
    → reserve_stock env c i db ≡ ok (r, db')
    → ((r.quantity ≡ i.quantity) × ((db' ≡ db) × (find (for_line c i) db.reservations ≡ some r)))
      ⊎ ((db' ≡ reserving env c i db)
          × (r ≡ reservation_of (env.gen_uuid db.generated) c i)
          × (covers i.quantity ((ensured (stock_key c i) db).stock (stock_key c i)) ≡ true)
          × (0 < i.quantity))
unfolding reserve_stock insert_reservation assert_warehouse_and_item reserving
reserve_stock_effect env c i db h = ground arith

-- The row found by its primary key has it.
pub find-has_id :
    (id : ℕ) (rs : List Reservation) {r : Reservation} → find (has_id id) rs ≡ some r → r.id ≡ id
unfolding has_id
find-has_id id [] h = cc
find-has_id id (x ∷ rs) {r} h = ground (arith, find-has_id id rs {r = r})

pub release_reservation_effect :
    (env : Env) (c : Context) (id : ℕ) (db : Db) {r' : Reservation} {db' : Db}
    → release_reservation env c id db ≡ ok (r', db')
    → (r : Reservation) × (find (has_id id) db.reservations ≡ some r)
      × (r.tenant ≡ c.tenant)
      × (((db' ≡ db) × ((r' ≡ r) × (r.status ≡ released)))
          ⊎ ((db' ≡ releasing c r db)
              × (r.status ≡ reserved)
              × (can_drop r.quantity (db.stock (reservation_key r)) ≡ true)))
unfolding release_reservation release_reserved releasing
release_reservation_effect env c id db h = ground arith

pub fulfill_reservation_effect :
    (env : Env) (text : ℕ) (c : Context) (id key : ℕ) (db : Db) {r' : Reservation} {db' : Db}
    → fulfill_reservation env text c id key db ≡ ok (r', db')
    → (r : Reservation) × (find (has_id id) db.reservations ≡ some r)
      × (r.tenant ≡ c.tenant)
      × ((db' ≡ db)
          ⊎ ((db' ≡ issuing text c r key db)
              × (r.status ≡ reserved)
              × (can_issue r.quantity (db.stock (reservation_key r)) ≡ true)))
unfolding fulfill_reservation fulfill_reserved issuing issue_of
fulfill_reservation_effect env text c id key db h = ground arith
