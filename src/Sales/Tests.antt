-- ===== src/Sales/Tests.antt =====
-- Concrete runs of the services of the sales documents, over the stock of the shared data.
use new_erp_final.Common.{arith, ◌+◌, ◌≡◌, ◌≢◌, refl, none, some, [], ◌∷◌, ℕ, Option}
use new_erp_final.Transaction.{ok, err, pure}
use new_erp_final.Database.{Db, same, Reservation}
use new_erp_final.Example.{env, caller, permissive, start, state_after, request}
use new_erp_final.Authorization.{authorize}
use new_erp_final.Inventory.Balance.{IsBalanced, empty-IsBalanced}
use new_erp_final.Inventory.Queries.{
  find_movement, insert_movement, ensure_stock, assert_warehouse_and_item, stock_for, movement_of,
  post_stock, reservation_of, replay_reservation, has_id, restatus, set_status, lock_reservation,
}
use new_erp_final.Inventory.Repository.{
  receive_stock, reserve_stock, return_stock, insert_reservation, fulfill_reservation,
  fulfill_reserved, fulfill_all, fulfill_reservations_by_source, issue_of,
}
use new_erp_final.Inventory.Conservation.{receive_stock-IsBalanced, reserve_stock-IsBalanced}
use new_erp_final.Inventory.Service as Inventory
use new_erp_final.Inventory.Service.{check_key, validate_reservation, ticks}
use new_erp_final.Sales.Books.{
  Books, Document, Delivery, delivered, completed, SalesReturn, approved, processed, not_connected,
  Invoice, draft, issued, CreditNote, record_event,
}
use new_erp_final.Sales.Documents
use new_erp_final.Sales.Documents.{
  is_document, is_prior, get_by_id, mutate, replay_or, check_id, check_version, trimmed_key,
  with_status,
}
use new_erp_final.Sales.Ports.{
  SalesTexts, StockPort, stock_port, TaxPort, FinancePort, calculated, posted, complete_answer,
  posted_reference,
}
use new_erp_final.Sales.Deliveries.Repository as DeliveryRows
use new_erp_final.Sales.Deliveries.Service as Deliveries
use new_erp_final.Sales.Deliveries.Life.{IsMoved, move-IsMoved, delivery-IsBalanced}
use new_erp_final.Sales.Returns.Repository as ReturnRows
use new_erp_final.Sales.Returns.Service as Returns
use new_erp_final.Sales.Returns.Processing.{process_again}
use new_erp_final.Sales.Returns.Stock.{return-IsBalanced}
use new_erp_final.Sales.Invoices.Repository as InvoiceRows
use new_erp_final.Sales.Invoices.Service as Invoices
use new_erp_final.Sales.Invoices.Issue.{IsIssued, move-IsIssued}
use new_erp_final.Sales.Invoices.Settled.{IsSettled, Reach, Step, Reach-IsSettled}
use new_erp_final.Sales.CreditNotes.Service as CreditNotes
use new_erp_final.Sales.Finance.{issue_refused, finance_port}

abbrev texts : SalesTexts
texts = record {
  sales_order = 7;
  sales_return = 9;
  reservation = 11;
  delivery_prefix = 12;
  return_prefix = 13;
  invoice_tax_prefix = 14;
  invoice_finance_prefix = 15;
  credit_note_finance_prefix = 16;
}

abbrev document : {S X : Type 0} → ℕ → ℕ → S → X → Document S X
document id source status rest = record {
  id = id;
  tenant = 1;
  branch = 2;
  year = 3;
  number = 1;
  source = source;
  key = 600 + id;
  status = status;
  notes = 0;
  version = 1;
  rest = rest;
}

abbrev delivery : Delivery
delivery = document 40 8 delivered (record {
  warehouse = some 10;
  items =
      record { id = 41; order_item = 42; item = some 20; reservation = some 1000; quantity = 20000 }
      ∷ [];
})

abbrev returned : SalesReturn
returned = document 50 60 approved (record {
  warehouse = some 10;
  inventory = not_connected;
  items = record { invoice_item = 61; item = some 20; quantity = 10000 } ∷ [];
})

abbrev bill : Invoice
bill = document 60 40 draft (record {
  tax = none;
  finance = none;
  items = record { id = 61; delivery_item = 41; quantity = 20000; line_total = 500 } ∷ [];
})

abbrev note : CreditNote
note = document 70 50 draft (record {
  tax = none;
  finance = none;
  items = record { return_item = 51; quantity = 10000; line_total = 250 } ∷ [];
})

abbrev books : Db → Books
books db = record {
  db = db;
  deliveries = delivery ∷ [];
  returns = returned ∷ [];
  invoices = bill ∷ [];
  credit_notes = note ∷ [];
  events = [];
}

abbrev stocked : Db
unfolding receive_stock post_stock assert_warehouse_and_item find_movement insert_movement
    ensure_stock stock_for movement_of same
stocked = state_after (receive_stock env caller (request 50000 1)) start

receipt_run :
    receive_stock env caller (request 50000 1) start
    ≡ ok (record { on_hand = 50000; reserved_quantity = 0; version = 2 }, stocked)
unfolding receive_stock post_stock assert_warehouse_and_item find_movement insert_movement
    ensure_stock stock_for movement_of same
receipt_run = refl

abbrev held : Db
unfolding reserve_stock insert_reservation assert_warehouse_and_item ensure_stock replay_reservation
    reservation_of same
held = state_after (reserve_stock env caller (request 20000 2)) stocked

abbrev reservation : Reservation
unfolding reservation_of
reservation = reservation_of 1000 caller (request 20000 2)

reservation_run : reserve_stock env caller (request 20000 2) stocked ≡ ok (reservation, held)
unfolding reserve_stock insert_reservation assert_warehouse_and_item ensure_stock replay_reservation
    reservation_of same stocked
reservation_run = refl

held-IsBalanced : IsBalanced held
held-IsBalanced =
    reserve_stock-IsBalanced env caller (request 20000 2) stocked
      (receive_stock-IsBalanced env caller (request 50000 1) start
        (empty-IsBalanced start (λ k. refl) refl refl) receipt_run)
      reservation_run

-- The delivery of the reserved pieces is completed.
abbrev stock : Option StockPort
stock = some (stock_port env texts permissive)

abbrev shipped : Books
unfolding Deliveries.move Deliveries.get Deliveries.take_stock Documents.get get_by_id mutate
    authorize check_id is_document record_event DeliveryRows.transition Inventory.fulfill_by_source
    Inventory.check_id check_key fulfill_reservations_by_source fulfill_all fulfill_reservation
    fulfill_reserved issue_of lock_reservation has_id restatus set_status find_movement
    insert_movement same
shipped = elim (Deliveries.move env texts permissive stock caller 40 completed 1 (books held)) [
  | ok (x, s) ↦ s
  | err e ↦ books held
]

ship_run :
    Deliveries.move env texts permissive stock caller 40 completed 1 (books held)
    ≡ ok (with_status completed delivery, shipped)
unfolding Deliveries.move Deliveries.get Deliveries.take_stock Documents.get get_by_id mutate
    authorize check_id is_document record_event DeliveryRows.transition Inventory.fulfill_by_source
    Inventory.check_id check_key fulfill_reservations_by_source fulfill_all fulfill_reservation
    fulfill_reserved issue_of lock_reservation has_id restatus set_status find_movement
    insert_movement same held stocked receive_stock post_stock assert_warehouse_and_item
    ensure_stock stock_for movement_of reserve_stock insert_reservation replay_reservation
    reservation_of
ship_run = refl

move-IsMoved_example :
    IsMoved caller 40 completed 1 (books held) (with_status completed delivery) shipped
move-IsMoved_example =
    move-IsMoved env texts permissive stock caller 40 completed 1 (books held) _ shipped ship_run

delivery-IsBalanced_example : IsBalanced shipped.db
delivery-IsBalanced_example =
    delivery-IsBalanced env texts permissive caller 40 completed 1 (books held) _ shipped
      held-IsBalanced ship_run

-- The return of one of them is processed.
abbrev taken_back : Books
unfolding Returns.move Returns.get Returns.process Returns.return_lines Returns.return_line
    Returns.line_input Documents.get get_by_id mutate authorize check_id is_document record_event
    ReturnRows.process Inventory.give_back validate_reservation Inventory.check_id check_key
    return_stock post_stock assert_warehouse_and_item find_movement insert_movement ensure_stock
    movement_of same
taken_back = elim (Returns.move env texts permissive stock caller 50 processed 1 (books held)) [
  | ok (x, s) ↦ s
  | err e ↦ books held
]

return_run :
    Returns.move env texts permissive stock caller 50 processed 1 (books held)
    ≡ ok (ReturnRows.with_stock returned, taken_back)
unfolding Returns.move Returns.get Returns.process Returns.return_lines Returns.return_line
    Returns.line_input Documents.get get_by_id mutate authorize check_id is_document record_event
    ReturnRows.process Inventory.give_back validate_reservation Inventory.check_id check_key
    return_stock post_stock assert_warehouse_and_item find_movement insert_movement ensure_stock
    movement_of same held stocked receive_stock stock_for reserve_stock insert_reservation
    replay_reservation reservation_of
return_run = refl

process_again_example :
    Returns.move env texts permissive stock caller 50 processed 7 taken_back
    ≡ ok (ReturnRows.with_stock returned, taken_back)
process_again_example =
    process_again env texts permissive stock caller 50 1 7 (books held)
      (ReturnRows.with_stock returned) taken_back return_run

return-IsBalanced_example : IsBalanced taken_back.db
return-IsBalanced_example =
    return-IsBalanced env texts permissive caller 50 processed 1 (books held)
      (ReturnRows.with_stock returned) taken_back held-IsBalanced return_run

pure_leaves :
    {A : Type 0} (a : A) (s : Books) {b : A} {t : Books}
    → pure a s ≡ ok (b, t)
    → (t.invoices ≡ s.invoices) × (t.credit_notes ≡ s.credit_notes)
pure_leaves a s e = ground arith

-- Providers that answer: a tax of a tenth, and a posting under the number 77.
abbrev tax : TaxPort
tax = record {
  calculate = λ c key kind id amount. pure (calculated (some 3) (some 10) (some amount) (some 50));
  calculate_leaves = λ c key kind id amount s e. pure_leaves _ s e;
}

abbrev finance : FinancePort
finance = record {
  submit = λ c key kind id amount. pure (posted (some 77));
  submit_leaves = λ c key kind id amount s e. pure_leaves _ s e;
}

abbrev invoiced : Books
unfolding Invoices.move Invoices.get Invoices.settle Invoices.take_tax Invoices.post_finance
    Invoices.taxable_amount Documents.get get_by_id mutate authorize check_id is_document
    record_event InvoiceRows.transition InvoiceRows.update_tax_snapshot
    InvoiceRows.update_finance_status complete_answer posted_reference
invoiced =
    elim (Invoices.move env texts permissive (some tax) (some finance) caller 60 issued 1
      (books start)) [ ok (x, s) ↦ s | err e ↦ books start ]

abbrev issued_bill : Invoice
issued_bill = record bill {
  status = issued;
  version = 4;
  rest = record bill.rest {
    tax = some (record { reference = 3; rate = 10; taxable_amount = 500; tax_amount = 50 });
    finance = some 77;
  };
}

issue_run :
    Invoices.move env texts permissive (some tax) (some finance) caller 60 issued 1 (books start)
    ≡ ok (issued_bill, invoiced)
unfolding Invoices.move Invoices.get Invoices.settle Invoices.take_tax Invoices.post_finance
    Invoices.taxable_amount Documents.get get_by_id mutate authorize check_id is_document
    record_event InvoiceRows.transition InvoiceRows.update_tax_snapshot
    InvoiceRows.update_finance_status complete_answer posted_reference
issue_run = refl

move-IsIssued_example :
    IsIssued env texts permissive
      (some tax)
      (some finance)
      caller
      60
      1
      (books start)
      issued_bill
      invoiced
move-IsIssued_example =
    move-IsIssued env texts permissive (some tax) (some finance) caller 60 1 (books start)
      issued_bill invoiced issue_run

transition_run :
    Invoices.transition env texts permissive
      (some tax)
      (some finance)
      caller
      60
      issued
      1
      (books start)
    ≡ ok (issued_bill, invoiced)
unfolding Invoices.transition Invoices.move Invoices.get Invoices.settle Invoices.take_tax
    Invoices.post_finance Invoices.taxable_amount Documents.get get_by_id mutate authorize check_id
    check_version is_document record_event InvoiceRows.transition InvoiceRows.update_tax_snapshot
    InvoiceRows.update_finance_status complete_answer posted_reference
transition_run = refl

Reach-IsSettled_example : IsSettled invoiced
Reach-IsSettled_example =
    Reach-IsSettled env texts permissive (some tax) (some finance) (record { all = refl })
      (Reach.next Reach.here (Step.transition caller 60 issued 1 issued_bill transition_run))

issue_refused_example :
    (Invoices.move env texts permissive
        (some tax)
        (some (finance_port env))
        caller
        60
        issued
        1
        (books start)
      ≢ ok (issued_bill, invoiced))
    × (CreditNotes.move env texts permissive
          (some (finance_port env))
          caller
          70
          issued
          1
          (books start)
        ≢ ok (note, invoiced))
issue_refused_example =
    issue_refused env texts permissive (some tax) caller 60 70 1 (books start) issued_bill note
      invoiced
