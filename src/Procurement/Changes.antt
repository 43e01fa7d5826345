-- ===== src/Procurement/Changes.antt =====
-- The changes of purchase orders by src/application/services/procurement-service.ts and by the
-- workflow that it tells of a submitted order.
use Prim.Native.String.{String}
use new_erp_final.Common.{ℕ, ◌≡◌, ap, true, Option, none, some, arith, find, inl, inr, Option-cases}
use mathlib.Core.Path.{subst, sym}
use new_erp_final.Transaction.{ok, Tx, pure, Result-cases}
use new_erp_final.Database.{Context}
use new_erp_final.Environment.{Env}
use new_erp_final.Authorization.{Authorization, authorize}
use new_erp_final.Procurement.Purchasing.{
  PurchaseStatus, submitted, cancelled, PurchaseOrder, Purchasing, is_planned,
}
use new_erp_final.Procurement.Planning
use new_erp_final.Procurement.Planning.{write_row, with_status, with_head, is_open, orders}
use new_erp_final.Procurement.Ordering
use new_erp_final.Procurement.Ordering.{WorkflowPort, order_permission, start_workflow}
use new_erp_final.Procurement.Service.{check_id, check_text, record_event}
use new_erp_final.Procurement.Outstanding.{IsWithin}
use new_erp_final.Procurement.Standing.{
  IsKept, changed-IsKept, rows-IsKept, kept-IsWithin, date-IsHeadChange, status-IsHeadChange,
}
use new_erp_final.Procurement.Moves.{write_ok, transition-IsMoved}

-- What a workflow may do to the purchase orders: any number of transitions of its own.
pub data Decided (env : Env) (auth : Authorization) : Purchasing → Purchasing → Type 0 where
  done : {s t : Purchasing} → t ≡ s → Decided env auth s t
  decide :
      (c : Context) (id : ℕ) (status : PurchaseStatus) (version : ℕ) (x : Option PurchaseOrder)
      {s t u : Purchasing}
      → Ordering.transition_from_workflow env auth c id status version s ≡ ok (x, t)
      → Decided env auth t u
      → Decided env auth s u

-- The workflow, told of an order, only decides on orders.
pub record OnlyDecides (env : Env) (auth : Authorization) (port : WorkflowPort) : Type 0 where
  pub decided :
      (c : Context) (id : ℕ) (x : PurchaseOrder) (s : Purchasing) (w : Option ℕ) (t : Purchasing)
      → start_workflow port c id x s ≡ ok (w, t)
      → Decided env auth s t

module _ (env : Env) (auth : Authorization) where
  missed :
      (c : Context) (id : ℕ) (status : PurchaseStatus) (version : ℕ) (s : Purchasing)
      {t : Purchasing}
      → Planning.transition env orders c id status version s ≡ ok (none, t)
      → t ≡ s
  unfolding Planning.transition write_row
  missed c id status version s e = elim (Option-cases (find (is_planned c id) s.orders)) [
    | inl absent ↦ ground (arith, absent, e)
    | inr (x, found) ↦ ground (arith, found, e)
  ]

  moved-IsKept :
      (c : Context) (id : ℕ) (status : PurchaseStatus) (version : ℕ) (s : Purchasing)
      {x : PurchaseOrder} {t : Purchasing}
      → Planning.transition env orders c id status version s ≡ ok (some x, t)
      → IsKept s t
  unfolding Planning.transition
  moved-IsKept c id status version s {x} {t} e =
      let (y, found, current, ready, changed, stored) =
        write_ok env auth orders c (is_planned c id) (λ x. true) version (with_status status) s e in
      changed-IsKept (with_status status) (status-IsHeadChange status) (is_planned c id) s t
        (ap (λ u. u.receipts) stored) (ap (λ u. u.orders) stored)

  pub Decided-IsWithin : {s t : Purchasing} → IsWithin s → Decided env auth s t → IsWithin t
  unfolding Ordering.transition_from_workflow
  Decided-IsWithin h (done same) = subst IsWithin (sym same) h
  Decided-IsWithin h (decide c id status version none {s} {t} e rest) =
      Decided-IsWithin (subst IsWithin (sym (missed c id status version s e)) h) rest
  Decided-IsWithin h (decide c id status version (some x) {s} {t} e rest) =
      Decided-IsWithin (kept-IsWithin s t h (moved-IsKept c id status version s e)) rest

  pub update_order-IsKept :
      (c : Context) (id date version : ℕ) (s : Purchasing) {x : PurchaseOrder} {t : Purchasing}
      → Ordering.update_order env auth c id date version s ≡ ok (x, t)
      → IsKept s t
  unfolding Ordering.update_order Planning.update_date authorize check_id check_text record_event
  update_order-IsKept c id date version s {x} {t} e =
      let change : PurchaseOrder → PurchaseOrder =
        λ x. with_head (record x.head { date = env.trim date }) x in
      elim (Result-cases (Planning.update_date env c id (env.trim date) version s)) [
        | inl ((none, w), stored) ↦ ground (arith, stored, e)
        | inl ((some y, w), stored) ↦
            let (z, found, current, ready, changed, written) =
              write_ok env auth orders c (is_planned c id) (λ x. is_open x.status) version change s
                stored in
            let kept =
              changed-IsKept change (date-IsHeadChange (env.trim date)) (is_planned c id) s w
                (ap (λ u. u.receipts) written) (ap (λ u. u.orders) written) in
            rows-IsKept s w t kept (ground (arith, stored, e)) (ground (arith, stored, e))
        | inr (y, failed) ↦ ground (arith, failed, e)
      ]

  -- A transition of an order by the service, up to what follows in its transaction.
  transition-IsKept :
      {B : Type 0} (permission : String) (c : Context) (id : ℕ) (status : PurchaseStatus)
      (version : ℕ) (after : PurchaseOrder → Tx Purchasing B) (s : Purchasing)
      {r : PurchaseOrder × B} {u : Purchasing}
      → Ordering.transition env auth orders order_permission permission c id status version after s
        ≡ ok (r, u)
      → (t : Purchasing) × IsKept s t × (after r.0 t ≡ ok (r.1, u))
  transition-IsKept permission c id status version after s e =
      let (t, moved, told) =
        transition-IsMoved env auth orders order_permission permission c id status version after s
          e in
      (
        t,
        changed-IsKept (with_status status) (status-IsHeadChange status) (is_planned c id) s t
            (ap (λ u. u.receipts) moved.stored) (ap (λ u. u.orders) moved.stored),
        told,
      )

  pub transition_order-IsWithin :
      (c : Context) (id : ℕ) (status : PurchaseStatus) (version : ℕ) (s : Purchasing)
      {r : PurchaseOrder × Unit {0}} {u : Purchasing}
      → IsWithin s
      → Ordering.transition_order env auth c id status version s ≡ ok (r, u)
      → IsWithin u
  unfolding Ordering.transition_order
  transition_order-IsWithin c id status version s {r} {u} h e =
      let (t, kept, told) =
        transition-IsKept "workflow.task.decide" c id status version (λ x. pure tt) s e in
      let same : u ≡ t = ground (arith, told) in
      subst IsWithin (sym same) (kept-IsWithin s t h kept)

  pub cancel_order-IsWithin :
      (c : Context) (id version : ℕ) (s : Purchasing) {r : PurchaseOrder × Unit {0}}
      {u : Purchasing}
      → IsWithin s
      → Ordering.cancel_order env auth c id version s ≡ ok (r, u)
      → IsWithin u
  unfolding Ordering.cancel_order
  cancel_order-IsWithin c id version s {r} {u} h e =
      let (t, kept, told) =
        transition-IsKept "purchase.order.cancel" c id cancelled version (λ x. pure tt) s e in
      let same : u ≡ t = ground (arith, told) in
      subst IsWithin (sym same) (kept-IsWithin s t h kept)

  pub submit_order-IsWithin :
      (port : WorkflowPort)
      → OnlyDecides env auth port
      → (c : Context) (id version : ℕ) (s : Purchasing) {r : PurchaseOrder × Option ℕ}
        {u : Purchasing}
      → IsWithin s
      → Ordering.submit_order env auth port c id version s ≡ ok (r, u)
      → IsWithin u
  unfolding Ordering.submit_order
  submit_order-IsWithin port only c id version s {r} {u} h e =
      let (t, kept, told) =
        transition-IsKept "purchase.order.submit" c id submitted version (start_workflow port c id)
          s e in
      Decided-IsWithin (kept-IsWithin s t h kept) (only.decided c id r.0 t r.1 u told)
