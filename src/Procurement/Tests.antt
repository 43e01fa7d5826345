-- ===== src/Procurement/Tests.antt =====
-- A concrete run of the operations on receipts: an order of five pieces and a receipt of three.
use new_erp_final.Common.{◌≡◌, ℕ, refl, false, Option, none, some, [], ◌∷◌, inl, inr, arith}
use new_erp_final.Transaction.{Tx, ok, err, ◌>>◌, pure, Result-cases}
use new_erp_final.Example.{env, caller, permissive, start}
use new_erp_final.Authorization.{authorize}
use new_erp_final.Inventory.Queries.{
  find_movement, insert_movement, ensure_stock, assert_warehouse_and_item, stock_for, movement_of,
  post_stock,
}
use new_erp_final.Database.{same}
use new_erp_final.Inventory.Repository.{receive_stock}
use new_erp_final.Inventory.Service as Inventory
use new_erp_final.Inventory.Service.{validate_reservation}
use new_erp_final.Procurement.Purchasing.{
  PurchaseStatus, submitted, Supplier, PurchaseOrder, Receipt, Purchasing, approved, draft,
  completed, is_receipt, is_planned, has_duplicates, quantity_in, counts, received,
}
use new_erp_final.Procurement.Planning
use new_erp_final.Procurement.Ordering
use new_erp_final.Procurement.Ordering.{WorkflowPort, start_workflow, order_permission}
use new_erp_final.Procurement.Changes.{Decided, OnlyDecides}
use new_erp_final.Procurement.Moves.{IsMoved, transition-IsMoved}
use new_erp_final.Procurement.Repository
use new_erp_final.Procurement.Repository.{with_status, approved_order, exceeds}
use new_erp_final.Procurement.Service
use new_erp_final.Procurement.Service.{ReceivePort}
use new_erp_final.Procurement.Outstanding.{IsWithin}
use new_erp_final.Procurement.Life.{Reach, Step, Reach-IsWithin}
use new_erp_final.Procurement.Stock.{complete_again}

abbrev port : ReceivePort
port = some (Inventory.receive env permissive)

abbrev supplier : Supplier
supplier = record {
  id = 40;
  tenant = 1;
  code = 41;
  name = 42;
  email = none;
  is_deleted = false;
  version = 1;
}

abbrev order : PurchaseOrder
order = record {
  id = 50;
  tenant = 1;
  branch = 2;
  year = 3;
  status = approved;
  lines = record { item = 20; quantity = 50000 } ∷ [];
  version = 3;
  head = record { supplier = 40; requisition = none; date = 9 };
}

abbrev draft_order : PurchaseOrder
draft_order = record {
  id = 51;
  tenant = 1;
  branch = 2;
  year = 3;
  status = PurchaseStatus.draft;
  lines = record { item = 20; quantity = 10000 } ∷ [];
  version = 1;
  head = record { supplier = 40; requisition = none; date = 9 };
}

abbrev receipt : Receipt
receipt = record {
  id = 60;
  tenant = 1;
  branch = 2;
  year = 3;
  order = 50;
  warehouse = 10;
  date = 9;
  key = 640;
  status = draft;
  lines = record { item = 20; quantity = 30000 } ∷ [];
  version = 1;
}

abbrev opened : Purchasing
opened = record {
  db = start;
  suppliers = supplier ∷ [];
  requisitions = [];
  orders = order ∷ draft_order ∷ [];
  receipts = receipt ∷ [];
  events = [];
}

abbrev completed_receipt : Receipt
completed_receipt = with_status completed receipt

abbrev closed : Purchasing
closed = elim (Service.complete env permissive 17 port caller 60 1 opened) [
  | ok (r, s) ↦ s
  | err e ↦ opened
]

completion_run :
    Service.complete env permissive 17 port caller 60 1 opened ≡ ok (completed_receipt, closed)
unfolding Service.complete Service.check_id Service.take_in Service.receive_lines Service.line_input
    Service.record_event authorize Repository.complete Repository.complete_draft Repository.store
    approved_order exceeds counts received quantity_in is_receipt is_planned Inventory.receive
    receive_stock validate_reservation find_movement insert_movement ensure_stock
    assert_warehouse_and_item stock_for movement_of post_stock same Inventory.check_id
    Inventory.check_key
completion_run = refl

-- The draft counts against no order.
opened-IsWithin : IsWithin opened
unfolding received counts has_duplicates
opened-IsWithin = record { once = refl; bounded = λ c order item. ground arith }

-- A workflow that approves what is submitted.
abbrev approving : WorkflowPort
approving = some (λ c id version.
    Ordering.transition_from_workflow env permissive c id approved version >> pure 5)

approving-OnlyDecides : OnlyDecides env permissive approving
unfolding start_workflow
approving-OnlyDecides = record {
  decided = λ c id x s w t e.
      elim (Result-cases
        (Ordering.transition_from_workflow env permissive c id approved x.version s)) [
          | inl ((y, u), moved) ↦
              Decided.decide c id approved x.version y moved
                (Decided.done (ground (arith, moved, e)))
          | inr (f, failed) ↦ ground (arith, failed, e)
        ];
}

abbrev submission : Tx Purchasing (PurchaseOrder × Option ℕ)
submission = Ordering.submit_order env permissive approving caller 51 1

abbrev submitted_row : PurchaseOrder
submitted_row = Planning.with_status submitted draft_order

abbrev approved_state : Purchasing
approved_state = elim (submission closed) [ ok (r, s) ↦ s | err e ↦ closed ]

submission_run : submission closed ≡ ok ((submitted_row, some 5), approved_state)
unfolding Ordering.submit_order Ordering.transition Ordering.move Ordering.check_action
    Ordering.transition_from_workflow Ordering.follows start_workflow authorize Service.check_id
    Planning.get Planning.transition Planning.write_row is_planned Service.complete Service.take_in
    Service.receive_lines Service.line_input Service.record_event Repository.complete
    Repository.complete_draft Repository.store approved_order exceeds counts received quantity_in
    is_receipt Inventory.receive receive_stock validate_reservation find_movement insert_movement
    ensure_stock assert_warehouse_and_item stock_for movement_of post_stock same Inventory.check_id
    Inventory.check_key
submission_run = refl

Reach-IsWithin_example : IsWithin approved_state
Reach-IsWithin_example =
    Reach-IsWithin env permissive 17 port approving approving-OnlyDecides opened-IsWithin (
      Reach.next (Step.complete caller 60 1 completion_run)
        (Reach.next (Step.submit_order caller 51 1 submission_run) Reach.here))

transition-IsMoved_example :
    (t : Purchasing) × IsMoved env permissive Planning.orders "purchase.order.submit"
      "purchase.order.submit" caller 51 submitted 1 closed submitted_row t
    × (start_workflow approving caller 51 submitted_row t ≡ ok (some 5, approved_state))
unfolding Ordering.submit_order
transition-IsMoved_example =
    transition-IsMoved env permissive Planning.orders order_permission "purchase.order.submit"
      caller 51 submitted 1 (start_workflow approving caller 51) closed submission_run

complete_again_example :
    Service.complete env permissive 17 port caller 60 7 closed ≡ ok (completed_receipt, closed)
complete_again_example = complete_again env permissive 17 port caller 60 1 7 opened completion_run
