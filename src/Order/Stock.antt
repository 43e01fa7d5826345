-- ===== src/Order/Stock.antt =====
-- What the sales orders of src/application/services/order-service.ts do to the inventory: an order
-- that reserves or gives back stock keeps the stock rows in agreement with the movements and
-- reservations.
use new_erp_final.Common.{
  ℕ, ◌≡◌, ap, Option, some, List, [], ◌∷◌, arith, if◌then◌else◌, inl, inr, Bool-cases,
}
use mathlib.Core.Path.{subst}
use new_erp_final.Transaction.{Tx, ok, bind_ok, pure}
use new_erp_final.Database.{OrderItem, Db, Context, Reservation, Stock, StockKey}
use new_erp_final.Environment.{Env, Texts}
use new_erp_final.Authorization.{Authorization, authorize, authorize_sound}
use new_erp_final.Inventory.Queries.{Request}
use new_erp_final.Inventory.Repository.{reserve_stock, release_reservation}
use new_erp_final.Inventory.Balance.{IsBalanced}
use new_erp_final.Inventory.Conservation.{reserve_stock-IsBalanced, release_reservation-IsBalanced}
use new_erp_final.Inventory.Service as Inventory
use new_erp_final.Inventory.Service.{Input, record_event, validate_reservation, check_id, check_key}
use new_erp_final.Order.Service
use new_erp_final.Order.Service.{InventoryPort, inventory_port}

-- The tables of the inventory.
pub record SameInventory (db db' : Db) : Type 0 where
  pub stock : db'.stock ≡ db.stock
  pub reservations : db'.reservations ≡ db.reservations
  pub movements : db'.movements ≡ db.movements

pub SameInventory-IsBalanced : {db db' : Db} → SameInventory db db' → IsBalanced db → IsBalanced db'
SameInventory-IsBalanced {db} {db'} same h k =
    ground (arith, h k, ap (λ (f : StockKey → Option Stock). f k) same.stock)

pub validate_state :
    (env : Env) (input : Input) (db : Db) {i : Request} {db' : Db}
    → validate_reservation env input db ≡ ok (i, db')
    → db' ≡ db
unfolding validate_reservation
validate_state env input db e = ground arith

module _ (env : Env) (auth : Authorization) where
  pub reserve_effect :
      (c : Context) (input : Input) (db : Db) (r : Reservation) (db' : Db)
      → Inventory.reserve env auth c input db ≡ ok (r, db')
      → (i : Request) × (t : Db) × (reserve_stock env c i db ≡ ok (r, t)) × SameInventory t db'
  unfolding Inventory.reserve record_event
  reserve_effect c input db r db' e =
      let (u, a, allowed, e1) =
        bind_ok (authorize env auth Inventory.module_code c (some "inventory.reservation.create")) _
          db e in
      let (i, b, valid, e2) = bind_ok (validate_reservation env input) _ a e1 in
      let (r', t, done, e3) = bind_ok (reserve_stock env c i) _ b e2 in
      let at_a = (authorize_sound env auth _ c _ db allowed).1 in
      let at_b = validate_state env input a valid in
      (i, t, ground (arith, done, at_a, at_b, e3), ground (arith, e3))

  inventory_reserve-IsBalanced :
      (c : Context) (input : Input) (db : Db) (r : Reservation) (db' : Db)
      → IsBalanced db
      → Inventory.reserve env auth c input db ≡ ok (r, db')
      → IsBalanced db'
  inventory_reserve-IsBalanced c input db r db' h e =
      let (i, t, done, same) = reserve_effect c input db r db' e in
      SameInventory-IsBalanced same (reserve_stock-IsBalanced env c i db h done)

  release_effect :
      (c : Context) (id key : ℕ) (db : Db) (r : Reservation) (db' : Db)
      → Inventory.release env auth c id key db ≡ ok (r, db')
      → release_reservation env c id db ≡ ok (r, db')
  unfolding Inventory.release check_id check_key authorize
  release_effect c id key db r db' e = ground arith

  release-IsBalanced :
      (c : Context) (id key : ℕ) (db : Db) (r : Reservation) (db' : Db)
      → IsBalanced db
      → Inventory.release env auth c id key db ≡ ok (r, db')
      → IsBalanced db'
  release-IsBalanced c id key db r db' h e =
      release_reservation-IsBalanced env c id db h (release_effect c id key db r db' e)

module _ (env : Env) (texts : Texts) (auth : Authorization) where
  abbrev pub port : InventoryPort
  port = inventory_port env auth

  abbrev pub reserve_line : Context → ℕ → ℕ → OrderItem → Tx Db Reservation
  reserve_line = Service.reserve_line env texts auth (some port) port

  abbrev pub reserve_lines : Context → ℕ → ℕ → List OrderItem → Tx Db (Unit {0})
  reserve_lines = Service.reserve_lines env texts auth (some port) port

  abbrev pub release_line : Context → ℕ → Reservation → Tx Db (Unit {0})
  release_line = Service.release_line env texts auth (some port) port

  abbrev pub release_all : Context → ℕ → List Reservation → Tx Db (Unit {0})
  release_all = Service.release_all env texts auth (some port) port

  pub line_effect :
      (c : Context) (warehouse order : ℕ) (x : OrderItem) (db : Db) (r : Reservation) (db' : Db)
      → reserve_line c warehouse order x db ≡ ok (r, db')
      → (item : ℕ) × (x.item ≡ some item)
        × (Inventory.reserve env auth c
              (Service.line_input env texts auth (some port) warehouse order item x.quantity)
              db
            ≡ ok (r, db'))
  unfolding Service.reserve_line
  line_effect c warehouse order x db r db' e = ground arith

  pub reserve_lines-IsBalanced :
      (c : Context) (warehouse order : ℕ) (lines : List OrderItem) (db db' : Db)
      → IsBalanced db
      → reserve_lines c warehouse order lines db ≡ ok (tt, db')
      → IsBalanced db'
  unfolding Service.reserve_lines
  reserve_lines-IsBalanced c warehouse order [] db db' h e = subst IsBalanced (ground arith) h
  reserve_lines-IsBalanced c warehouse order (x ∷ xs) db db' h e =
      let (r, t, one, rest) =
        bind_ok (reserve_line c warehouse order x) (λ r. reserve_lines c warehouse order xs) db e in
      let (item, present, done) = line_effect c warehouse order x db r t one in
      reserve_lines-IsBalanced c warehouse order xs t db'
        (inventory_reserve-IsBalanced env auth c _ db r t h done) rest

  release_line-IsBalanced :
      (c : Context) (order : ℕ) (r : Reservation) (db : Db) (db' : Db)
      → IsBalanced db
      → release_line c order r db ≡ ok (tt, db')
      → IsBalanced db'
  unfolding Service.release_line
  release_line-IsBalanced c order r db db' h e = elim (Bool-cases (Service.is_open r.status)) [
    | inl open_row ↦
        let key = env.join (env.join texts.cancel_prefix order) r.id in
        let (r', t, done, end) =
          bind_ok (Inventory.release env auth c r.id key) (λ r. pure tt) db
            (rw (open_row, if◌then◌else◌) at e) in
        subst IsBalanced (ground (arith, end))
          (release-IsBalanced env auth c r.id key db r' t h done)
    | inr closed_row ↦ subst IsBalanced (ground arith) h
  ]

  pub release_all-IsBalanced :
      (c : Context) (order : ℕ) (rows : List Reservation) (db : Db) (db' : Db)
      → IsBalanced db
      → release_all c order rows db ≡ ok (tt, db')
      → IsBalanced db'
  unfolding Service.release_all
  release_all-IsBalanced c order [] db db' h e = subst IsBalanced (ground arith) h
  release_all-IsBalanced c order (r ∷ rs) db db' h e =
      let (u, t, one, rest) = bind_ok (release_line c order r) (λ u. release_all c order rs) db e in
      release_all-IsBalanced c order rs t db' (release_line-IsBalanced c order r db t h one) rest
