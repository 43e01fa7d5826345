-- ===== src/Procurement/Room.antt =====
-- How the sums over the receipts change with one receipt, and that a receipt which passes the check
-- of `completeReceipt` (src/infrastructure/database/repositories/postgres-procurement-repository.ts)
-- fits into its order.
use new_erp_final.Common.{
  find_fits, ℕ, ◌+◌, ◌≤◌, ◌≡◌, refl, ap, ◌∙◌, Bool, true, false, some, List, [], ◌∷◌, find,
  update_first, member, arith, inl, inr, Bool-cases,
}
use mathlib.Core.Path.{subst, sym}
use new_erp_final.Database.{Context}
use new_erp_final.Procurement.Purchasing.{
  PurchaseOrder, Receipt, completed, Purchasing, is_completed, is_receipt, is_planned, has_item,
  has_duplicates, quantity_in, counts, share, received,
}
use new_erp_final.Procurement.Repository.{with_status, exceeds}
use new_erp_final.Procurement.Outstanding.{
  IsWithin, line_quantity, lines_of, ordered, received-update, once-update, once-find,
  exceeds-bound, quiet,
}

-- The sums of a context are those of its tenant and branch.
received_same :
    (c d : Context) (order item : ℕ) (rs : List Receipt)
    → c.tenant ≡ d.tenant
    → c.branch ≡ d.branch
    → received (counts c order) item rs ≡ received (counts d order) item rs
unfolding received counts
received_same c d order item [] tenants branches = refl
received_same c d order item (r ∷ rs) tenants branches =
    ground (arith, received_same c d order item rs)

order_same :
    (c d : Context) (order : ℕ) (os : List PurchaseOrder)
    → c.tenant ≡ d.tenant
    → c.branch ≡ d.branch
    → find (is_planned c order) os ≡ find (is_planned d order) os
unfolding is_planned
order_same c d order [] tenants branches = refl
order_same c d order (o ∷ os) tenants branches = ground (arith, order_same c d order os)

-- The change of one receipt to which the bound leaves room.
pub changed-IsWithin :
    (c : Context) (id : ℕ) (f : Receipt → Receipt) (s s' : Purchasing) {r : Receipt}
    → IsWithin s
    → find (is_receipt c id) s.receipts ≡ some r
    → s'.orders ≡ s.orders
    → s'.receipts ≡ update_first (is_receipt c id) f s.receipts
    → has_duplicates (f r).lines ≡ false
    → ((d : Context) (order item : ℕ)
        → received (counts d order) item s.receipts + share (counts d order) item (f r)
          ≤ ordered d order item s.orders)
    → IsWithin s'
changed-IsWithin c id f s s' {r} h found same_orders stored distinct room = record {
  once =
      subst (λ rs. member (λ r. has_duplicates r.lines) rs ≡ false) (sym stored)
        (once-update (is_receipt c id) f s.receipts found distinct h.once);
  bounded = λ d order item.
      let sums = received-update (counts d order) item (is_receipt c id) f s.receipts found in
      let rows : received (counts d order) item s'.receipts
          ≡ received (counts d order) item (update_first (is_receipt c id) f s.receipts) =
        cc in
      let lines : ordered d order item s'.orders ≡ ordered d order item s.orders = cc in
      let space = room d order item in omega (arith, sums, rows, lines, space);
}

-- The change of one receipt that is not completed afterwards.
pub quiet-IsWithin :
    (c : Context) (id : ℕ) (f : Receipt → Receipt) (s s' : Purchasing) {r : Receipt}
    → IsWithin s
    → find (is_receipt c id) s.receipts ≡ some r
    → s'.orders ≡ s.orders
    → s'.receipts ≡ update_first (is_receipt c id) f s.receipts
    → has_duplicates (f r).lines ≡ false
    → is_completed (f r).status ≡ false
    → IsWithin s'
quiet-IsWithin c id f s s' {r} h found same_orders stored distinct unfinished =
    changed-IsWithin c id f s s' h found same_orders stored distinct (λ d order item.
      let nothing = quiet d order item (f r) unfinished in
      let before = h.bounded d order item in omega (arith, nothing, before))

-- The context and the order of a receipt that counts.
counts_sound :
    (c d : Context) (id order : ℕ) (r : Receipt)
    → is_receipt c id r ≡ true
    → counts d order (with_status completed r) ≡ true
    → (d.tenant ≡ c.tenant) × (d.branch ≡ c.branch) × (order ≡ r.order)
unfolding counts is_receipt
counts_sound c d id order r fits counted =
    (ground (arith, counted, fits), ground (arith, counted, fits), ground (arith, counted))

share_counted :
    (p : Receipt → Bool) (item : ℕ) (r : Receipt)
    → p r ≡ true
    → share p item r ≡ quantity_in item r.lines
share_counted p item r counted = ground (arith, counted)

share_uncounted : (p : Receipt → Bool) (item : ℕ) (r : Receipt) → p r ≡ false → share p item r ≡ 0
share_uncounted p item r uncounted = ground (arith, uncounted)

-- A receipt that passes the check of `completeReceipt` fits into its order.
pub completing-room :
    (c : Context) (id : ℕ) (s : Purchasing) (r : Receipt) (o : PurchaseOrder)
    → IsWithin s
    → find (is_receipt c id) s.receipts ≡ some r
    → find (is_planned c r.order) s.orders ≡ some o
    → member (exceeds (counts c r.order) s.receipts o.lines) r.lines ≡ false
    → (d : Context) (order item : ℕ)
    → received (counts d order) item s.receipts
        + share (counts d order) item (with_status completed r)
      ≤ ordered d order item s.orders
completing-room c id s r o h found ordering within d order item =
    let before = h.bounded d order item in
    let done = with_status completed r in
    elim (Bool-cases (counts d order done)) [
      | inl counted ↦
          let fits = find_fits (is_receipt c id) s.receipts found in
          let (tenants, branches, same) = counts_sound c d id order r fits counted in
          let sums : received (counts d order) item s.receipts
              ≡ received (counts c r.order) item s.receipts =
            received_same d c order item s.receipts tenants branches
            ∙ ap (λ x. received (counts c x) item s.receipts) same in
          let rows : find (is_planned d order) s.orders ≡ some o =
            order_same d c order s.orders tenants branches
            ∙ ap (λ x. find (is_planned c x) s.orders) same
            ∙ ordering in
          let lines : ordered d order item s.orders ≡ line_quantity (find (has_item item) o.lines) =
            ap (λ x. line_quantity (find (has_item item) (lines_of x))) rows in
          let own : received (counts c r.order) item s.receipts
              ≤ line_quantity (find (has_item item) o.lines) =
            omega (arith, before, sums, lines) in
          let distinct = once-find (is_receipt c id) s.receipts found h.once in
          let bound =
            exceeds-bound (counts c r.order) s.receipts o.lines item r.lines own distinct within in
          let added = share_counted (counts d order) item done counted in
          omega (arith, bound, added, sums, lines)
      | inr other ↦
          let added = share_uncounted (counts d order) item done other in
          omega (arith, added, before)
    ]

-- The bound is about the receipts and the orders only.
pub rows_only :
    (s t : Purchasing) → IsWithin s → t.orders ≡ s.orders → t.receipts ≡ s.receipts → IsWithin t
rows_only s t h same_orders same_receipts = record {
  once = subst (λ rs. member (λ r. has_duplicates r.lines) rs ≡ false) (sym same_receipts) h.once;
  bounded = λ d order item.
      let sums : received (counts d order) item t.receipts
          ≡ received (counts d order) item s.receipts =
        cc in
      let lines : ordered d order item t.orders ≡ ordered d order item s.orders = cc in
      let before = h.bounded d order item in omega (arith, sums, lines, before);
}

-- The insertion of a receipt that is not completed.
pub added-IsWithin :
    (s t : Purchasing) (r : Receipt)
    → IsWithin s
    → t.orders ≡ s.orders
    → t.receipts ≡ r ∷ s.receipts
    → has_duplicates r.lines ≡ false
    → is_completed r.status ≡ false
    → IsWithin t
unfolding received
added-IsWithin s t r h same_orders stored distinct unfinished = record {
  once =
      let before = h.once in
      subst (λ rs. member (λ r. has_duplicates r.lines) rs ≡ false) (sym stored)
        (ground (arith, before, distinct));
  bounded = λ d order item.
      let nothing = quiet d order item r unfinished in
      let sums : received (counts d order) item t.receipts
          ≡ share (counts d order) item r + received (counts d order) item s.receipts =
        ap (λ rs. received (counts d order) item rs) stored in
      let lines : ordered d order item t.orders ≡ ordered d order item s.orders =
        ap (λ os. ordered d order item os) same_orders in
      let before = h.bounded d order item in omega (arith, nothing, sums, lines, before);
}
