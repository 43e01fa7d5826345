-- ===== src/Inventory/Tests.antt =====
-- Concrete runs of the inventory repository: one warehouse, one item, and requests for it.
use new_erp_final.Common.{List, ◌≡◌, refl, none, arith, find, member, false, some}
use new_erp_final.Transaction.{ok, err, validation, insufficient_stock}
use new_erp_final.Database.{Db, Reservation, released, return, same, Stock}
use new_erp_final.Inventory.Queries.{
  for_line, find_movement, insert_movement, ensure_stock, assert_warehouse_and_item, stock_for,
  movement_of, post_stock, reservation_of, replay_reservation, has_id, restatus, set_status,
  lock_reservation, stock_key, reservation_clashes,
}
use new_erp_final.Inventory.Repository.{
  receive_stock, return_stock, reserve_stock, insert_reservation, release_reservation,
  release_reserved,
}
use new_erp_final.Inventory.Balance.{IsBalanced, empty-IsBalanced}
use new_erp_final.Inventory.Effects.{releasing}
use new_erp_final.Inventory.Availability.{reserve_stock_decides}
use new_erp_final.Inventory.Histories.{Reach, Step, Reach-IsBalanced}
use new_erp_final.Inventory.Ledger.{Run, Event, levels}
use new_erp_final.Inventory.Refinement.{Shows, Reach-Run}
use new_erp_final.Inventory.Replay.{SameQuantities, reserve-release}
use new_erp_final.Inventory.Isolation.{IsUntouched, Step-IsUntouched, step_tenant}
use new_erp_final.Example.{env, caller, request, start, state_after}

start-IsBalanced : IsBalanced start
start-IsBalanced = empty-IsBalanced start (λ k. refl) refl refl

-- The tables after a receipt of 5 pieces, after a reservation of 2, and after its release.
abbrev stocked : Db
unfolding receive_stock post_stock assert_warehouse_and_item find_movement insert_movement
    ensure_stock stock_for movement_of same
stocked = state_after (receive_stock env caller (request 50000 1)) start

abbrev held : Db
unfolding reserve_stock insert_reservation assert_warehouse_and_item ensure_stock replay_reservation
    reservation_of same
held = state_after (reserve_stock env caller (request 20000 2)) stocked

abbrev given_back : Db
unfolding return_stock post_stock assert_warehouse_and_item find_movement insert_movement
    ensure_stock movement_of same
given_back = state_after (return_stock env caller (request 10000 3)) held

abbrev reservation : Reservation
unfolding reservation_of
reservation = reservation_of 1000 caller (request 20000 2)

abbrev freed : Db
unfolding release_reservation release_reserved lock_reservation has_id restatus set_status same
freed = state_after (release_reservation env caller 1000) held

receipt_run :
    receive_stock env caller (request 50000 1) start
    ≡ ok (record { on_hand = 50000; reserved_quantity = 0; version = 2 }, stocked)
unfolding receive_stock post_stock assert_warehouse_and_item find_movement insert_movement
    ensure_stock stock_for movement_of same
receipt_run = refl

reservation_run : reserve_stock env caller (request 20000 2) stocked ≡ ok (reservation, held)
unfolding reserve_stock insert_reservation assert_warehouse_and_item ensure_stock replay_reservation
    reservation_of same stocked
reservation_run = refl

return_run :
    return_stock env caller (request 10000 3) held
    ≡ ok (movement_of return caller (request 10000 3), given_back)
unfolding return_stock post_stock assert_warehouse_and_item find_movement insert_movement
    ensure_stock movement_of same held stocked
return_run = refl

release_run :
    release_reservation env caller 1000 held ≡ ok (restatus caller released reservation, freed)
unfolding release_reservation release_reserved lock_reservation has_id restatus set_status same held
    stocked reservation
release_run = refl

Reach-IsBalanced_example : IsBalanced freed
Reach-IsBalanced_example = Reach-IsBalanced env 9 start-IsBalanced (
    Reach.next
      (Reach.next (Reach.next Reach.here (Step.receive caller (request 50000 1) _ receipt_run))
        (Step.reserve caller (request 20000 2) _ reservation_run))
      (Step.release caller 1000 _ release_run))

abbrev history : Reach env 9 start freed
history =
    Reach.next
      (Reach.next (Reach.next Reach.here (Step.receive caller (request 50000 1) _ receipt_run))
        (Step.reserve caller (request 20000 2) _ reservation_run))
      (Step.release caller 1000 _ release_run)

Reach-Run_example :
    (es : List Event) × Shows env 9 freed history es × Run (levels start) es (levels freed)
Reach-Run_example = Reach-Run env 9 history

Step-IsUntouched_example : IsUntouched 2 stocked held
unfolding step_tenant
Step-IsUntouched_example =
    Step-IsUntouched env 9 2 stocked held
      (Step.reserve caller (request 20000 2) reservation reservation_run) (ground arith)

no_line : find (for_line caller (request 20000 2)) stocked.reservations ≡ none
unfolding stocked receive_stock post_stock assert_warehouse_and_item find_movement insert_movement
    ensure_stock stock_for movement_of same
no_line = refl

reserve-release_example :
    (release_reservation env caller 1000 held
      ≡ ok (restatus caller released reservation, releasing caller reservation held))
    × SameQuantities stocked (releasing caller reservation held)
unfolding reservation
reserve-release_example =
    reserve-release env caller (request 20000 2) stocked reservation held no_line reservation_run

-- A request for 9 pieces, of which 5 are there.
abbrev row : Stock
row = record { on_hand = 50000; reserved_quantity = 0; version = 2 }

no_other : find (for_line caller (request 90000 2)) stocked.reservations ≡ none
unfolding stocked receive_stock post_stock assert_warehouse_and_item find_movement insert_movement
    ensure_stock stock_for movement_of same
no_other = refl

passes : assert_warehouse_and_item caller (request 90000 2) stocked ≡ ok (tt, stocked)
unfolding stocked receive_stock post_stock assert_warehouse_and_item find_movement insert_movement
    ensure_stock stock_for movement_of same
passes = refl

in_stock : stocked.stock (stock_key caller (request 90000 2)) ≡ some row
unfolding stocked receive_stock post_stock assert_warehouse_and_item find_movement insert_movement
    ensure_stock stock_for movement_of same
in_stock = refl

no_clash :
    member
      (reservation_clashes
        (reservation_of (env.gen_uuid stocked.generated) caller (request 90000 2)))
      stocked.reservations
    ≡ false
unfolding stocked receive_stock post_stock assert_warehouse_and_item find_movement insert_movement
    ensure_stock stock_for movement_of same reservation_of
no_clash = refl

reserve_stock_decides_example :
    reserve_stock env caller (request 90000 2) stocked ≡ err (validation insufficient_stock)
reserve_stock_decides_example =
    reserve_stock_decides env caller (request 90000 2) stocked row refl no_other passes in_stock
      no_clash (ground arith)
