-- ===== src/Inventory/Replay.antt =====
-- A request that comes twice: the operation keys and the unique source of a reservation in
-- src/infrastructure/database/repositories/postgres-inventory-repository.ts.
use new_erp_final.Common.{
  ℕ, ◌≡◌, true, none, some, List, [], ◌∷◌, ◌==◌, arith, ◌&&◌, find, update_first, inl, inr,
}
use new_erp_final.Transaction.{ok, err, validation, already_released}
use new_erp_final.Database.{
  released, StockKey, Stock, Reservation, Movement, Db, same_self, same_comm, ReservationStatus,
  Context,
}
use new_erp_final.Environment.{Env}
use new_erp_final.Inventory.Queries.{
  Request, has_id, restatus, stock_key, movement_of, reservation_of, set_status, post_stock,
  for_line, assert_warehouse_and_item,
}
use new_erp_final.Inventory.Repository.{
  receive_stock, return_stock, reserve_stock, release_reservation, fulfill_reservation,
  insert_reservation, release_reserved,
}
use new_erp_final.Inventory.Balance.{stock_row, by_key}
use new_erp_final.Inventory.Effects.{
  reserving, releasing, reserve_stock_effect, release_reservation_effect, find-has_id,
}

-- A receipt that is sent again with its operation key returns the same stock and adds nothing.
receive_stock_replay :
    (env : Env) (c : Context) (i : Request) (db : Db) {s : Stock} {db' : Db}
    → receive_stock env c i db ≡ ok (s, db')
    → receive_stock env c i db' ≡ ok (s, db')
unfolding receive_stock post_stock assert_warehouse_and_item movement_of
receive_stock_replay env c i db e = ground arith

-- A return that is sent again with its operation key yields the same movement and adds nothing.
return_stock_replay :
    (env : Env) (c : Context) (i : Request) (db : Db) {m : Movement} {db' : Db}
    → return_stock env c i db ≡ ok (m, db')
    → return_stock env c i db' ≡ ok (m, db')
unfolding return_stock post_stock assert_warehouse_and_item movement_of
return_stock_replay env c i db e = ground arith

-- A reservation that is asked for again yields the same reservation and holds nothing more.
reserve_stock_replay :
    (env : Env) (c : Context) (i : Request) (db : Db) {r : Reservation} {db' : Db}
    → reserve_stock env c i db ≡ ok (r, db')
    → reserve_stock env c i db' ≡ ok (r, db')
unfolding reserve_stock insert_reservation assert_warehouse_and_item reservation_of
reserve_stock_replay env c i db e = ground arith

-- The row with a primary key, after the update of that row.
pub find-restatus :
    (id : ℕ) (c : Context) (status : ReservationStatus) (rs : List Reservation) {r : Reservation}
    → find (has_id id) rs ≡ some r
    → find (has_id id) (update_first (has_id id) (restatus c status) rs)
      ≡ some (restatus c status r)
unfolding has_id restatus
find-restatus id c status [] h = cc
find-restatus id c status (x ∷ rs) {r} h = ground (arith, find-restatus id c status rs {r = r})

-- Where a call of `releaseReservation` or `fulfillReservation` that returns has left its row.
IsLeft : Context → ℕ → ReservationStatus → Reservation → Db → Type 0
IsLeft c id status r db =
    (find (has_id id) db.reservations ≡ some r)
    × (r.status ≡ status)
    × ((r.tenant == c.tenant && r.branch == c.branch && r.year == c.year) ≡ true)

release_reservation-IsLeft :
    (env : Env) (c : Context) (id : ℕ) (db : Db) {r : Reservation} {db' : Db}
    → release_reservation env c id db ≡ ok (r, db')
    → IsLeft c id released r db'
unfolding release_reservation release_reserved set_status IsLeft restatus
release_reservation-IsLeft env c id db e =
    let (old, found, tenant, how) = release_reservation_effect env c id db e in
    ground (
      arith,
      found,
      find-has_id id db.reservations found,
      find-restatus id c released db.reservations found,
    )

-- A reservation that was released is `RELEASED`: to release it again returns it and changes
-- nothing, and to fulfil it, under any operation key, is refused.
release_reservation_final :
    (env : Env) (text key : ℕ) (c : Context) (id : ℕ) (db : Db) {r : Reservation} {db' : Db}
    → release_reservation env c id db ≡ ok (r, db')
    → (r.status ≡ released)
      × (release_reservation env c id db' ≡ ok (r, db'))
      × (fulfill_reservation env text c id key db' ≡ err (validation already_released))
unfolding release_reservation fulfill_reservation IsLeft
release_reservation_final env text key c id db e =
    ground (arith, release_reservation-IsLeft env c id db e)

-- Two states have the same quantities in every stock row; the versions may differ.
pub SameQuantities : Db → Db → Type 0
SameQuantities db db' =
    (k : StockKey)
    → ((stock_row (db'.stock k)).on_hand ≡ (stock_row (db.stock k)).on_hand)
      × ((stock_row (db'.stock k)).reserved_quantity ≡ (stock_row (db.stock k)).reserved_quantity)

reserving-releasing :
    (env : Env) (c : Context) (i : Request) (db : Db)
    → SameQuantities db
        (releasing c (reservation_of (env.gen_uuid db.generated) c i) (reserving env c i db))
unfolding SameQuantities reserving releasing set_status reservation_of
reserving-releasing env c i db =
    by_key _ (stock_key c i) (ground (arith, same_self (stock_key c i)))
      (λ k other. ground (arith, same_comm (stock_key c i) k))

reserve-release_quantities :
    (env : Env) (c : Context) (i : Request) (db : Db) (r : Reservation) (db' : Db)
    → find (for_line c i) db.reservations ≡ none
    → reserve_stock env c i db ≡ ok (r, db')
    → SameQuantities db (releasing c r db')
reserve-release_quantities env c i db r db' fresh e = elim (reserve_stock_effect env c i db e) [
  | inl old ↦ absurd (ground (arith, old.1.1))
  | inr new ↦ rw (new.0, new.1) (reserving-releasing env c i db)
]

-- A reservation that is new can be released at once, by the caller that made it, and then every
-- stock row has the quantities that it had before the reservation.
pub reserve-release :
    (env : Env) (c : Context) (i : Request) (db : Db) (r : Reservation) (db' : Db)
    → find (for_line c i) db.reservations ≡ none
    → reserve_stock env c i db ≡ ok (r, db')
    → (release_reservation env c r.id db' ≡ ok (restatus c released r, releasing c r db'))
      × SameQuantities db (releasing c r db')
unfolding reserve_stock insert_reservation assert_warehouse_and_item reservation_of
    release_reservation release_reserved releasing set_status has_id restatus
reserve-release env c i db r db' fresh e =
    (ground (arith, same_self (stock_key c i)), reserve-release_quantities env c i db r db' fresh e)
