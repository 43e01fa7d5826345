-- ===== src/Procurement/Life.antt =====
-- The life of receipts and of their orders: every sequence of the operations of
-- src/application/services/procurement-service.ts on them.
use new_erp_final.Common.{ℕ, ◌≡◌, refl, ap, true, false, Option, List, [], inl, inr}
use mathlib.Core.Path.{subst, sym}
use new_erp_final.Transaction.{ok}
use new_erp_final.Database.{Context}
use new_erp_final.Environment.{Env}
use new_erp_final.Authorization.{Authorization}
use new_erp_final.Procurement.Purchasing.{
  PurchaseStatus, PurchaseOrder, Receipt, ReceiptStatus, draft, completed, posted, cancelled,
  Purchasing, is_draft, is_completed, is_receipt, has_duplicates,
}
use new_erp_final.Procurement.Repository
use new_erp_final.Procurement.Repository.{
  Request, Change, Completion, with_status, exceeds, put_lines, approved_order,
}
use new_erp_final.Procurement.Ordering
use new_erp_final.Procurement.Ordering.{WorkflowPort}
use new_erp_final.Procurement.Writing.{PlannedLine}
use new_erp_final.Procurement.Standing.{kept-IsWithin, create_order-IsKept}
use new_erp_final.Procurement.Changes.{
  Decided, OnlyDecides, Decided-IsWithin, update_order-IsKept, transition_order-IsWithin,
  cancel_order-IsWithin, submit_order-IsWithin,
}
use new_erp_final.Procurement.Service
use new_erp_final.Procurement.Service.{ReceivePort, InputLine, is_cancelled}
use new_erp_final.Procurement.Outstanding.{IsWithin, once-find, put_lines_distinct}
use new_erp_final.Procurement.Room.{
  rows_only, added-IsWithin, changed-IsWithin, quiet-IsWithin, completing-room,
}
use new_erp_final.Procurement.Effects.{
  create_effect, cancel_effect, transition_effect, complete_effect,
}
use new_erp_final.Procurement.Requests.{
  create_row, update_fails, cancel_row, transition_row, take_in_leaves, complete_row,
}

module _ (env : Env) (auth : Authorization) (purchase_receipt : ℕ) (port : ReceivePort)
    (workflow : WorkflowPort) where
  -- An operation of the service that succeeds.
  pub data Step : Purchasing → Purchasing → Type 0 where
    create :
        (c : Context) (order warehouse date : ℕ) (inputs : List InputLine) (key : ℕ) {r : Receipt}
        {s s' : Purchasing}
        → Service.create env auth c order warehouse date inputs key s ≡ ok (r, s')
        → Step s s'
    update :
        (c : Context) (id warehouse date : ℕ) (inputs : List InputLine) (version : ℕ) {r : Receipt}
        {s s' : Purchasing}
        → Service.update env auth c id warehouse date inputs version s ≡ ok (r, s')
        → Step s s'
    cancel :
        (c : Context) (id version : ℕ) {r : Receipt} {s s' : Purchasing}
        → Service.cancel env auth c id version s ≡ ok (r, s')
        → Step s s'
    transition :
        (c : Context) (id : ℕ) (status : ReceiptStatus) (version : ℕ) {r : Receipt}
        {s s' : Purchasing}
        → Service.transition env auth c id status version s ≡ ok (r, s')
        → Step s s'
    complete :
        (c : Context) (id version : ℕ) {r : Receipt} {s s' : Purchasing}
        → Service.complete env auth purchase_receipt port c id version s ≡ ok (r, s')
        → Step s s'
    create_order :
        (c : Context) (supplier : ℕ) (requisition : Option ℕ) (date : ℕ) (inputs : List PlannedLine)
        {o : PurchaseOrder} {s s' : Purchasing}
        → Ordering.create_order env auth c supplier requisition date inputs s ≡ ok (o, s')
        → Step s s'
    update_order :
        (c : Context) (id date version : ℕ) {o : PurchaseOrder} {s s' : Purchasing}
        → Ordering.update_order env auth c id date version s ≡ ok (o, s')
        → Step s s'
    transition_order :
        (c : Context) (id : ℕ) (status : PurchaseStatus) (version : ℕ)
        {r : PurchaseOrder × Unit {0}} {s s' : Purchasing}
        → Ordering.transition_order env auth c id status version s ≡ ok (r, s')
        → Step s s'
    cancel_order :
        (c : Context) (id version : ℕ) {r : PurchaseOrder × Unit {0}} {s s' : Purchasing}
        → Ordering.cancel_order env auth c id version s ≡ ok (r, s')
        → Step s s'
    submit_order :
        (c : Context) (id version : ℕ) {r : PurchaseOrder × Option ℕ} {s s' : Purchasing}
        → Ordering.submit_order env auth workflow c id version s ≡ ok (r, s')
        → Step s s'
    decide : {s s' : Purchasing} → Decided env auth s s' → Step s s'

  pub data Reach : Purchasing → Purchasing → Type 0 where
    here : {s : Purchasing} → Reach s s
    next : {s t u : Purchasing} → Step s t → Reach t u → Reach s u

  cancelled_open :
      (status : ReceiptStatus) → is_cancelled status ≡ true → is_completed status ≡ false
  cancelled_open draft h = cc
  cancelled_open completed h = cc
  cancelled_open posted h = cc
  cancelled_open cancelled h = refl

  draft_open : (status : ReceiptStatus) → is_draft status ≡ true → is_completed status ≡ false
  draft_open draft h = refl
  draft_open completed h = cc
  draft_open posted h = cc
  draft_open cancelled h = cc

  Step-IsWithin :
      (only : OnlyDecides env auth workflow) {s s' : Purchasing}
      → IsWithin s
      → Step s s'
      → IsWithin s'
  unfolding has_duplicates
  Step-IsWithin only {s} {s'} h (create c order warehouse date inputs key e) =
      let (i, t, stored, orders, receipts) =
        create_row env auth c order warehouse date inputs key s e in
      rows_only t s'
        (elim (create_effect env c i s stored) [
          | inl same ↦ subst IsWithin (sym same) h
          | inr new ↦
              added-IsWithin s t (Repository.receipt_of env c i (env.gen_uuid s.db.generated)) h
                new.0 new.1 (put_lines_distinct i.lines [] refl) refl
        ])
        orders receipts
  Step-IsWithin only {s} h (update c id warehouse date inputs version e) =
      absurd (update_fails env auth c id warehouse date inputs version s e)
  Step-IsWithin only {s} {s'} h (cancel c id version e) =
      let (t, stored, orders, receipts) = cancel_row env auth c id version s e in
      let (r, found, same_orders, rows) = cancel_effect env c id version s stored in
      rows_only t s'
        (quiet-IsWithin c id (with_status cancelled) s t h found same_orders rows
          (once-find (is_receipt c id) s.receipts found h.once) refl)
        orders receipts
  Step-IsWithin only {s} {s'} h (transition c id status version e) =
      let (dropped, stored) = transition_row env auth c id status version s e in
      let (r, found, same_orders, rows) = transition_effect env c id status version s stored in
      quiet-IsWithin c id (with_status status) s s' h found same_orders rows
        (once-find (is_receipt c id) s.receipts found h.once) (cancelled_open status dropped)
  Step-IsWithin only {s} {s'} h (complete c id version e) =
      let (done, t, stored, taken, last) =
        complete_row env auth purchase_receipt port c id version s e in
      let (orders, receipts) = take_in_leaves env auth purchase_receipt port c id done t taken in
      elim (complete_effect env c id version s stored) [
        | inl old ↦ rows_only t s' (subst IsWithin (sym old.3) h) orders receipts
        | inr new ↦
            rows_only t s'
              (changed-IsWithin c id (with_status completed) s t h new.found
                (ap (λ x. x.orders) new.stored) (ap (λ x. x.receipts) new.stored)
                (once-find (is_receipt c id) s.receipts new.found h.once)
                (completing-room c id s new.before new.order h new.found new.approved new.within))
              orders receipts
      ]
  Step-IsWithin only {s} {s'} h (create_order c supplier requisition date inputs e) =
      kept-IsWithin s s' h (create_order-IsKept env auth c supplier requisition date inputs s e)
  Step-IsWithin only {s} {s'} h (update_order c id date version e) =
      kept-IsWithin s s' h (update_order-IsKept env auth c id date version s e)
  Step-IsWithin only {s} h (transition_order c id status version e) =
      transition_order-IsWithin env auth c id status version s h e
  Step-IsWithin only {s} h (cancel_order c id version e) =
      cancel_order-IsWithin env auth c id version s h e
  Step-IsWithin only {s} h (submit_order c id version e) =
      submit_order-IsWithin env auth workflow only c id version s h e
  Step-IsWithin only h (decide decided) = Decided-IsWithin env auth h decided

  -- If the workflow, told of an order, does no more than decide on orders: after any sequence of
  -- operations of the service on receipts and on purchase orders, and of decisions of the workflow,
  -- the completed receipts of an order bring in no more of any item than it orders, and no receipt
  -- has two lines of an item, if this was so at the start.
  pub Reach-IsWithin :
      (only : OnlyDecides env auth workflow) {s s' : Purchasing}
      → IsWithin s
      → Reach s s'
      → IsWithin s'
  Reach-IsWithin only h here = h
  Reach-IsWithin only h (next step rest) = Reach-IsWithin only (Step-IsWithin only h step) rest
