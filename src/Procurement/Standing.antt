-- ===== src/Procurement/Standing.antt =====
-- What the operations on purchase orders of src/application/services/procurement-service.ts leave
-- to the receipts: the lines of an order stay as they were created.
use new_erp_final.Common.{
  ℕ, ◌≤◌, ◌≡◌, refl, ap, Bool, false, Option, none, List, [], ◌∷◌, ◌==◌, arith, find, update_first,
  member, inl, inr, Bool-cases, ==_sound,
}
use mathlib.Core.Path.{subst, sym}
use new_erp_final.Transaction.{ok, Result-cases}
use new_erp_final.Database.{Context}
use new_erp_final.Environment.{Env}
use new_erp_final.Authorization.{Authorization, authorize}
use new_erp_final.Procurement.Purchasing.{
  PurchaseStatus, Line, OrderHead, PurchaseOrder, Purchasing, is_planned, counts, received,
  has_duplicates,
}
use new_erp_final.Procurement.Planning
use new_erp_final.Procurement.Planning.{write_row, planned, orders, with_status, with_head}
use new_erp_final.Procurement.Ordering
use new_erp_final.Procurement.Writing
use new_erp_final.Procurement.Writing.{PlannedLine}
use new_erp_final.Procurement.Service.{check_id, check_text, record_event}
use new_erp_final.Procurement.Outstanding.{IsWithin, lines_of, ordered}

-- A change of a row that keeps its keys and its lines.
pub record IsHeadChange (f : PurchaseOrder → PurchaseOrder) : Type 0 where
  pub keys : (c : Context) (id : ℕ) (o : PurchaseOrder) → is_planned c id (f o) ≡ is_planned c id o
  pub lines : (o : PurchaseOrder) → (f o).lines ≡ o.lines

lines-update :
    (f : PurchaseOrder → PurchaseOrder)
    → IsHeadChange f
    → (q : PurchaseOrder → Bool) (c : Context) (order : ℕ) (os : List PurchaseOrder)
    → lines_of (find (is_planned c order) (update_first q f os))
      ≡ lines_of (find (is_planned c order) os)
lines-update f kept q c order [] = refl
lines-update f kept q c order (o ∷ os) =
    ground (arith, kept.keys c order o, kept.lines o, lines-update f kept q c order os)

find_absent :
    (c : Context) (order : ℕ) (os : List PurchaseOrder)
    → member (λ x. x.id == order) os ≡ false
    → find (is_planned c order) os ≡ none
unfolding is_planned
find_absent c order [] h = refl
find_absent c order (o ∷ os) h = ground (arith, find_absent c order os)

-- The receipts are as they were and no order has less of an item.
pub record IsKept (s s' : Purchasing) : Type 0 where
  pub receipts : s'.receipts ≡ s.receipts
  pub orders :
      (c : Context) (order item : ℕ)
      → ordered c order item s.orders ≤ ordered c order item s'.orders

pub kept-IsWithin : (s s' : Purchasing) → IsWithin s → IsKept s s' → IsWithin s'
kept-IsWithin s s' h kept = record {
  once = subst (λ rs. member (λ r. has_duplicates r.lines) rs ≡ false) (sym kept.receipts) h.once;
  bounded = λ c order item.
      let same = ap (received (counts c order) item) kept.receipts in
      let before = h.bounded c order item in
      let more = kept.orders c order item in omega (arith, same, before, more);
}

pub changed-IsKept :
    (f : PurchaseOrder → PurchaseOrder)
    → IsHeadChange f
    → (q : PurchaseOrder → Bool) (s s' : Purchasing) → s'.receipts ≡ s.receipts
    → s'.orders ≡ update_first q f s.orders
    → IsKept s s'
changed-IsKept f kept q s s' same stored = record {
  receipts = same;
  orders = λ c order item.
      let lines = lines-update f kept q c order s.orders in
      let now : ordered c order item s'.orders ≡ ordered c order item s.orders = cc in
      omega (arith, now);
}

pub rows-IsKept :
    (s t u : Purchasing) → IsKept s t → u.receipts ≡ t.receipts → u.orders ≡ t.orders → IsKept s u
rows-IsKept s t u kept receipts orders = record {
  receipts = cc (kept.receipts, receipts);
  orders = λ c order item.
      let before = kept.orders c order item in
      let same : ordered c order item u.orders ≡ ordered c order item t.orders = cc in
      omega (arith, before, same);
}

pub added-IsKept :
    (c : Context) (id : ℕ) (head : OrderHead) (lines : List Line) (s s' : Purchasing)
    → s'.receipts ≡ s.receipts
    → s'.orders ≡ planned c id head lines ∷ s.orders
    → member (λ x. x.id == id) s.orders ≡ false
    → IsKept s s'
unfolding is_planned
added-IsKept c id head lines s s' same stored fresh = record {
  receipts = same;
  orders = λ d order item. elim (Bool-cases (id == order)) [
    | inl is_new ↦
        let this : id ≡ order = ==_sound id order is_new in
        let gone =
          find_absent d order s.orders
            (subst (λ n. member (λ x. x.id == n) s.orders ≡ false) this fresh) in
        let none_before : ordered d order item s.orders ≡ 0 = cc in omega (arith, none_before)
    | inr old ↦
        let found : find (is_planned d order) (planned c id head lines ∷ s.orders)
            ≡ find (is_planned d order) s.orders =
          ground (arith, old) in
        let now : ordered d order item s'.orders ≡ ordered d order item s.orders = cc in
        omega (arith, now)
  ];
}

pub date-IsHeadChange : (date : ℕ) → IsHeadChange (λ x. with_head (record x.head { date = date }) x)
unfolding is_planned
date-IsHeadChange date = record { keys = λ c id o. refl; lines = λ o. refl }

pub status-IsHeadChange : (status : PurchaseStatus) → IsHeadChange (with_status status)
unfolding is_planned
status-IsHeadChange status = record { keys = λ c id o. refl; lines = λ o. refl }

module _ (env : Env) (auth : Authorization) where
  create_stored :
      (c : Context) (head : OrderHead) (lines : List Line) (s : Purchasing) {x : PurchaseOrder}
      {t : Purchasing}
      → Planning.create_order env c head lines s ≡ ok (x, t)
      → IsKept s t
  unfolding Planning.create_order Planning.insert
  create_stored c head lines s {x} {t} e =
      added-IsKept c (env.gen_uuid s.db.generated) head lines s t (ground (arith, e))
        (ground (arith, e)) (ground (arith, e))

  planned_lines_state :
      (inputs : List PlannedLine) (s : Purchasing) {ls : List Line} {t : Purchasing}
      → Writing.planned_lines env auth inputs s ≡ ok (ls, t)
      → t ≡ s
  unfolding Writing.planned_lines check_text
  planned_lines_state [] s e = ground (arith, e)
  planned_lines_state (l ∷ inputs) s e =
      elim (Result-cases (Writing.planned_lines env auth inputs s)) [
        | inl ((rest, u), valid) ↦
            ground (arith, valid, e, planned_lines_state inputs s {ls = rest} {t = u} valid)
        | inr (x, refused) ↦ ground (arith, refused, e)
      ]

  check_planned_state :
      (inputs : List PlannedLine) (s : Purchasing) {ls : List Line} {t : Purchasing}
      → Writing.check_planned env auth inputs s ≡ ok (ls, t)
      → t ≡ s
  unfolding Writing.check_planned
  check_planned_state inputs s e = elim (Result-cases (Writing.planned_lines env auth inputs s)) [
    | inl ((ls, u), valid) ↦
        let same = planned_lines_state inputs s {ls = ls} {t = u} valid in
        ground (arith, valid, e, same)
    | inr (x, refused) ↦ ground (arith, refused, e)
  ]

  pub create_order-IsKept :
      (c : Context) (supplier : ℕ) (requisition : Option ℕ) (date : ℕ) (inputs : List PlannedLine)
      (s : Purchasing) {x : PurchaseOrder} {t : Purchasing}
      → Ordering.create_order env auth c supplier requisition date inputs s ≡ ok (x, t)
      → IsKept s t
  unfolding Ordering.create_order authorize check_id check_text record_event
  create_order-IsKept c supplier requisition date inputs s {x} {t} e =
      elim (Result-cases (Writing.check_planned env auth inputs s)) [
        | inl ((ls, u), valid) ↦
            let same = check_planned_state inputs s {ls = ls} {t = u} valid in
            let head : OrderHead = record {
              supplier = supplier;
              requisition = requisition;
              date = env.trim date;
            } in
            elim (Result-cases (Planning.create_order env c head ls s)) [
              | inl ((y, w), stored) ↦
                  let kept = create_stored c head ls s {x = y} {t = w} stored in
                  let orders : t.orders ≡ w.orders = ground (arith, valid, same, stored, e) in
                  let receipts : t.receipts ≡ w.receipts = ground (arith, valid, same, stored, e) in
                  rows-IsKept s w t kept receipts orders
              | inr (y, failed) ↦ ground (arith, valid, same, failed, e)
            ]
        | inr (y, refused) ↦ ground (arith, refused, e)
      ]
