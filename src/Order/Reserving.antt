-- ===== src/Order/Reserving.antt =====
-- The two operations of src/application/services/order-service.ts that move stock: `reserve`, and
-- the cancellation of an order that has reserved.
use new_erp_final.Common.{
  ℕ, ◌≡◌, ◌&&◌, some, List, arith, find, ◌⊎◌, inl, inr, Bool-cases, Option-cases,
}
use new_erp_final.Transaction.{ok, Result-cases}
use new_erp_final.Database.{OrderStatus, confirmed, cancelled, Order, Db, Context, Reservation}
use new_erp_final.Environment.{Env, Texts}
use new_erp_final.Authorization.{Authorization, authorize}
use new_erp_final.Inventory.Repository.{list_reservations_by_source, select_by_item}
use new_erp_final.Inventory.Queries.{from_source}
use new_erp_final.Inventory.Balance.{IsBalanced}
use new_erp_final.Inventory.Service as Inventory
use new_erp_final.Inventory.Service.{record_event, check_id}
use new_erp_final.Order.Repository
use new_erp_final.Order.Repository.{is_order}
use new_erp_final.Order.Service
use new_erp_final.Order.Stock.{
  SameInventory, SameInventory-IsBalanced, port, reserve_lines, release_all,
  reserve_lines-IsBalanced, release_all-IsBalanced,
}

module _ (env : Env) (texts : Texts) (auth : Authorization) where
  reserve_effect :
      (c : Context) (id : ℕ) (db : Db) (x : Order) (db' : Db)
      → Service.reserve env texts auth (some (port env texts auth)) c id db ≡ ok (x, db')
      → (o : Order) × (warehouse : ℕ) × (t : Db) × (find (is_order c id) db.orders ≡ some o)
        × (o.status ≡ confirmed)
        × (reserve_lines env texts auth c warehouse o.id o.items db ≡ ok (tt, t))
        × SameInventory t db'
  unfolding Service.reserve authorize Repository.get_by_id Repository.update_reservation_status
      record_event
  reserve_effect c id db x db' e = elim (Option-cases (find (is_order c id) db.orders)) [
    | inl h ↦ ground arith
    | inr (o, h) ↦ elim (Option-cases o.warehouse) [
      | inl w ↦ ground arith
      | inr (warehouse, w) ↦
          elim (Result-cases (reserve_lines env texts auth c warehouse o.id o.items db)) [
            | inl ((u, t), r) ↦ (o, warehouse, t, h, ground arith, r, ground arith)
            | inr (x, r) ↦ ground arith
          ]
    ]
  ]

  -- An order that reserves its stock leaves the stock rows in agreement with the movements and
  -- the reservations.
  pub reserve-IsBalanced :
      (c : Context) (id : ℕ) (db : Db) (x : Order) (db' : Db)
      → IsBalanced db
      → Service.reserve env texts auth (some (port env texts auth)) c id db ≡ ok (x, db')
      → IsBalanced db'
  reserve-IsBalanced c id db x db' h e =
      let (o, warehouse, t, found, status, lines, same) = reserve_effect c id db x db' e in
      SameInventory-IsBalanced same
        (reserve_lines-IsBalanced env texts auth c warehouse o.id o.items db t h lines)

  abbrev held_rows : Context → ℕ → Db → List Reservation
  held_rows c order db = select_by_item (from_source c texts.sales_order order) db.reservations

  give_up_effect :
      (c : Context) (o : Order) (version : ℕ) (db : Db) (v : ℕ) (db' : Db)
      → Service.give_up_stock env texts auth (some (port env texts auth)) c o version db
        ≡ ok (v, db')
      → (rows : List Reservation) × (t : Db) × (release_all env texts auth c o.id rows db
          ≡ ok (tt, t))
        × SameInventory t db'
  unfolding Service.give_up_stock Inventory.list_by_source list_reservations_by_source authorize
      check_id Repository.update_reservation_status
  give_up_effect c o version db v db' e =
      elim (Result-cases (release_all env texts auth c o.id (held_rows c o.id db) db)) [
        | inl ((u, t), r) ↦ (held_rows c o.id db, t, r, ground arith)
        | inr (x, r) ↦ ground arith
      ]

  move_effect :
      (c : Context) (id : ℕ) (status : OrderStatus) (version : ℕ) (db : Db) (x : Order) (db' : Db)
      → Service.move env texts auth (some (port env texts auth)) c id status version db
        ≡ ok (x, db')
      → SameInventory db db'
        ⊎ ((o : Order) × (v : ℕ) × (t : Db) × (Service.give_up_stock env texts auth
                (some (port env texts auth))
                c
                o
                version
                db
              ≡ ok (v, t))
            × SameInventory t db')
  unfolding Service.move Repository.get_by_id Repository.transition record_event
  move_effect c id status version db x db' e =
      elim (Option-cases (find (is_order c id) db.orders)) [
        | inl h ↦ ground arith
        | inr (o, h) ↦ elim (Bool-cases (Service.same_status status cancelled && o.is_reserved)) [
          | inl b ↦
              elim (Result-cases (
                Service.give_up_stock env texts auth (some (port env texts auth)) c o version db)) [
                  | inl ((v, t), r) ↦ inr (o, v, t, r, ground arith)
                  | inr (x, r) ↦ ground arith
                ]
          | inr b ↦ inl (ground arith)
        ]
      ]

  -- An order that changes its status leaves the stock rows in agreement with the movements and
  -- the reservations, also when it is cancelled and gives its stock back.
  pub move-IsBalanced :
      (c : Context) (id : ℕ) (status : OrderStatus) (version : ℕ) (db : Db) (x : Order) (db' : Db)
      → IsBalanced db
      → Service.move env texts auth (some (port env texts auth)) c id status version db
        ≡ ok (x, db')
      → IsBalanced db'
  move-IsBalanced c id status version db x db' h e =
      elim (move_effect c id status version db x db' e) [
        | inl same ↦ SameInventory-IsBalanced same h
        | inr (o, v, t, gave, same) ↦
            let (rows, u, released, same_u) = give_up_effect c o version db v t gave in
            SameInventory-IsBalanced same (
              SameInventory-IsBalanced same_u
                (release_all-IsBalanced env texts auth c o.id rows db u h released))
      ]
