-- ===== src/Order/Tests.antt =====
-- Concrete runs of the order repository and service: orders for the one item of the shared data.

use new_erp_final.Common.{◌≡◌, ◌≢◌, refl, true, false, none, some, [], ◌∷◌, find}
use new_erp_final.Transaction.{ok, err, Error, run_in_transaction}
use new_erp_final.Database.{Db, Order, OrderStatus, draft, confirmed, cancelled, same}
use new_erp_final.Example.{
  env, caller, texts, permissive, start, state_after, order, env_with, request,
}
use new_erp_final.Authorization.{authorize}
use new_erp_final.Inventory.Balance.{IsBalanced, empty-IsBalanced}
use new_erp_final.Inventory.Queries.{
  find_movement, insert_movement, ensure_stock, assert_warehouse_and_item, stock_for, movement_of,
  post_stock, reservation_of, replay_reservation, has_id, restatus, set_status, lock_reservation,
}
use new_erp_final.Inventory.Repository.{
  receive_stock, reserve_stock, insert_reservation, list_reservations_by_source,
  release_reservation, release_reserved,
}
use new_erp_final.Inventory.Conservation.{receive_stock-IsBalanced}
use new_erp_final.Inventory.Service as Inventory
use new_erp_final.Order.Repository
use new_erp_final.Order.Repository.{is_order, order_of, mutate}
use new_erp_final.Order.Service
use new_erp_final.Inventory.Service.{record_event, check_id, check_key, validate_reservation}
use new_erp_final.Order.Lifecycle.{◌⟶◌, move-⟶, moved, transition_refused, service_authorization}
use new_erp_final.Order.Creation.{IsCreated, create-IsCreated, create_clash}
use new_erp_final.Order.Stock.{port}
use new_erp_final.Order.Reserving.{reserve-IsBalanced, move-IsBalanced}

authorized :
    authorize env permissive "sales" caller (some "sales.order.read") start ≡ ok (tt, start)
unfolding authorize
authorized = refl

abbrev one : Db
one = env_with (order 500 2 false draft ∷ []) start

move_run :
    Service.move env texts permissive none caller 500 confirmed 1 one
    ≡ ok
        (Repository.with_status confirmed (order 500 2 false draft), moved caller 500 confirmed one)
unfolding Service.move Repository.get_by_id Repository.transition record_event moved is_order mutate
move_run = refl

found_order :
    (status : OrderStatus)
    → find (is_order caller 500) (order 500 2 false status ∷ []) ≡ some (order 500 2 false status)
unfolding is_order
found_order status = refl

move-⟶_example :
    (o : Order) × (find (is_order caller 500) one.orders ≡ some o)
    × (o.status ⟶ confirmed)
    × (Repository.with_status confirmed (order 500 2 false draft)).status ≡ confirmed
move-⟶_example = move-⟶ env texts permissive none caller 500 confirmed 1 one _ _ move_run

transition_refused_example :
    Service.transition env texts
      (service_authorization (λ t u. "sales.order.confirm" ∷ []) none none (λ t m. true))
      none
      caller
      500
      confirmed
      1
      one
    ≢ ok (order 500 2 false confirmed, one)
transition_refused_example =
    transition_refused env texts (λ t u. "sales.order.confirm" ∷ []) none none (λ t m. true) none
      caller 500 confirmed 1 one (order 500 2 false confirmed) one

abbrev quoted : Db
quoted = env_with [] start

abbrev made : Order
made = record (order 1000 2 false draft) { number = 1 }

abbrev ordered : Db
unfolding Repository.create order_of
ordered = state_after (Repository.create env caller 300 (some 10)) quoted

create_run : Repository.create env caller 300 (some 10) quoted ≡ ok (made, ordered)
unfolding Repository.create order_of
create_run = refl

create-IsCreated_example : IsCreated caller 300 (some 10) quoted made ordered
create-IsCreated_example = create-IsCreated env caller 300 (some 10) quoted made ordered create_run

-- The number 1 of branch 2 is taken by an order of branch 9.
create_clash_example :
    (e : Error) × (run_in_transaction
        (Repository.create env caller 300 (some 10))
        (env_with (order 500 9 false draft ∷ []) start)
      ≡ (err e, env_with (order 500 9 false draft ∷ []) start))
create_clash_example =
    create_clash env caller 300 (some 10) (env_with (order 500 9 false draft ∷ []) start) refl

abbrev stocked : Db
unfolding receive_stock post_stock assert_warehouse_and_item find_movement insert_movement
    ensure_stock stock_for movement_of same
stocked =
    state_after (receive_stock env caller (request 50000 1))
      (env_with (order 500 2 false confirmed ∷ []) start)

receipt_run :
    receive_stock env caller (request 50000 1) (env_with (order 500 2 false confirmed ∷ []) start)
    ≡ ok (record { on_hand = 50000; reserved_quantity = 0; version = 2 }, stocked)
unfolding receive_stock post_stock assert_warehouse_and_item find_movement insert_movement
    ensure_stock stock_for movement_of same
receipt_run = refl

stocked-IsBalanced : IsBalanced stocked
stocked-IsBalanced =
    receive_stock-IsBalanced env caller (request 50000 1)
      (env_with (order 500 2 false confirmed ∷ []) start)
      (empty-IsBalanced (env_with (order 500 2 false confirmed ∷ []) start) (λ k. refl) refl refl)
      receipt_run

abbrev held : Db
unfolding Service.reserve Service.reserve_lines Service.reserve_line Service.line_input
    Repository.get_by_id Repository.update_reservation_status mutate is_order authorize record_event
    Inventory.reserve validate_reservation check_id check_key reserve_stock insert_reservation
    assert_warehouse_and_item ensure_stock replay_reservation reservation_of same
held =
    state_after (Service.reserve env texts permissive (some (port env texts permissive)) caller 500)
      stocked

reserve_run :
    Service.reserve env texts permissive (some (port env texts permissive)) caller 500 stocked
    ≡ ok (Repository.with_reservation true (order 500 2 false confirmed), held)
unfolding Service.reserve Service.reserve_lines Service.reserve_line Service.line_input
    Repository.get_by_id Repository.update_reservation_status mutate is_order authorize record_event
    Inventory.reserve validate_reservation check_id check_key reserve_stock insert_reservation
    assert_warehouse_and_item ensure_stock replay_reservation reservation_of same stocked
    receive_stock post_stock find_movement insert_movement stock_for movement_of
reserve_run = refl

reserve-IsBalanced_example : IsBalanced held
reserve-IsBalanced_example =
    reserve-IsBalanced env texts permissive caller 500 stocked _ held stocked-IsBalanced reserve_run

abbrev cancelled_order : Order
cancelled_order = Repository.with_status cancelled (
    Repository.with_reservation false
      (Repository.with_reservation true (order 500 2 false confirmed)))

abbrev freed : Db
unfolding Service.move Service.give_up_stock Service.release_all Service.release_line
    Repository.get_by_id Repository.transition Repository.update_reservation_status mutate is_order
    authorize record_event Inventory.list_by_source Inventory.release list_reservations_by_source
    check_id check_key release_reservation release_reserved lock_reservation has_id restatus
    set_status same
freed =
    state_after
      (Service.move env texts permissive (some (port env texts permissive)) caller 500 cancelled 2)
      held

cancel_run :
    Service.move env texts permissive (some (port env texts permissive)) caller 500 cancelled 2 held
    ≡ ok (cancelled_order, freed)
unfolding Service.move Service.give_up_stock Service.release_all Service.release_line
    Service.reserve Service.reserve_lines Service.reserve_line Service.line_input
    Repository.get_by_id Repository.transition Repository.update_reservation_status mutate is_order
    authorize record_event Inventory.list_by_source Inventory.release list_reservations_by_source
    Inventory.reserve validate_reservation check_id check_key release_reservation release_reserved
    lock_reservation has_id restatus set_status reserve_stock insert_reservation
    assert_warehouse_and_item ensure_stock replay_reservation reservation_of same held stocked
    receive_stock post_stock find_movement insert_movement stock_for movement_of
cancel_run = refl

move-IsBalanced_example : IsBalanced freed
move-IsBalanced_example =
    move-IsBalanced env texts permissive caller 500 cancelled 2 held cancelled_order freed
      (reserve-IsBalanced env texts permissive caller 500 stocked _ held stocked-IsBalanced
        reserve_run)
      cancel_run
