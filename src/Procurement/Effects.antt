-- ===== src/Procurement/Effects.antt =====
-- What the operations on receipts of
-- src/infrastructure/database/repositories/postgres-procurement-repository.ts have read and written
-- where they succeed.
use new_erp_final.Common.{
  find_fits, find-update_first, ℕ, ◌≡◌, ◌≢◌, ap, ◌∙◌, true, false, ◌&&◌, some, ◌∷◌, ◌==◌, find,
  update_first, member, arith, ◌⊎◌, inl, inr, Bool-cases, Option-cases,
}
use mathlib.Core.Path.{sym}
use new_erp_final.Transaction.{ok}
use new_erp_final.Database.{Context}
use new_erp_final.Environment.{Env}
use new_erp_final.Procurement.Purchasing.{
  PurchaseOrder, Receipt, ReceiptStatus, completed, cancelled, Purchasing, is_draft, is_receipt,
  is_planned, counts,
}
use new_erp_final.Procurement.Repository
use new_erp_final.Procurement.Repository.{
  Request, Change, Completion, with_status, exceeds, put_lines, approved_order,
}

completed_row :
    (c : Context) (id : ℕ) (r : Receipt)
    → is_receipt c id r ≡ true
    → is_receipt c id (with_status completed r) ≡ true
unfolding is_receipt
completed_row c id r fits = ground (arith, fits)

module _ (env : Env) where
  pub create_effect :
      (c : Context) (i : Request) (s : Purchasing) {r : Receipt} {t : Purchasing}
      → Repository.create env c i s ≡ ok (r, t)
      → (t ≡ s)
        ⊎ ((t.orders ≡ s.orders)
            × (t.receipts
                ≡ Repository.receipt_of env c i (env.gen_uuid s.db.generated) ∷ s.receipts))
  unfolding Repository.create approved_order Repository.insert
  create_effect c i s e =
      elim (Option-cases (find (λ r. (r.tenant == c.tenant) && (r.key == i.key)) s.receipts)) [
        | inl absent ↦ inr (ground (arith, absent, e), ground (arith, absent, e))
        | inr (r, present) ↦ inl (ground (arith, present, e))
      ]

  -- No change of a receipt succeeds.
  pub update_refused :
      (c : Context) (i : Change) (s : Purchasing) {x : Receipt} {t : Purchasing}
      → Repository.update env c i s ≢ ok (some x, t)
  unfolding Repository.update approved_order
  update_refused c i s e = elim (Option-cases (find (is_receipt c i.id) s.receipts)) [
    | inl absent ↦ ground (arith, absent, e)
    | inr (r, found) ↦ ground (arith, found, e)
  ]

  pub cancel_effect :
      (c : Context) (id version : ℕ) (s : Purchasing) {x : Receipt} {t : Purchasing}
      → Repository.cancel env c id version s ≡ ok (some x, t)
      → (r : Receipt) × (find (is_receipt c id) s.receipts ≡ some r)
        × (t.orders ≡ s.orders)
        × (t.receipts ≡ update_first (is_receipt c id) (with_status cancelled) s.receipts)
  unfolding Repository.cancel Repository.store
  cancel_effect c id version s e = elim (Option-cases (find (is_receipt c id) s.receipts)) [
    | inl absent ↦ ground (arith, absent, e)
    | inr (r, found) ↦ (r, found, ground (arith, found, e), ground (arith, found, e))
  ]

  pub transition_effect :
      (c : Context) (id : ℕ) (status : ReceiptStatus) (version : ℕ) (s : Purchasing) {x : Receipt}
      {t : Purchasing}
      → Repository.transition env c id status version s ≡ ok (some x, t)
      → (r : Receipt) × (find (is_receipt c id) s.receipts ≡ some r)
        × (t.orders ≡ s.orders)
        × (t.receipts ≡ update_first (is_receipt c id) (with_status status) s.receipts)
  unfolding Repository.transition Repository.store
  transition_effect c id status version s e =
      elim (Option-cases (find (is_receipt c id) s.receipts)) [
        | inl absent ↦ ground (arith, absent, e)
        | inr (r, found) ↦ (r, found, ground (arith, found, e), ground (arith, found, e))
      ]

  -- A receipt that is completed now was a draft whose lines its order had room for.
  pub record IsCompletion (c : Context) (id : ℕ) (s : Purchasing) (done : Completion)
      (t : Purchasing) : Type 0 where
    pub before : Receipt
    pub order : PurchaseOrder
    pub found : find (is_receipt c id) s.receipts ≡ some before
    pub was_draft : is_draft before.status ≡ true
    pub approved : find (is_planned c before.order) s.orders ≡ some order
    pub within :
        member (exceeds (counts c before.order) s.receipts order.lines) before.lines ≡ false
    pub answer : done ≡ record { receipt = with_status completed before; already = false }
    pub stored :
        t
        ≡ record s { receipts = update_first (is_receipt c id) (with_status completed) s.receipts }

  pub complete_effect :
      (c : Context) (id version : ℕ) (s : Purchasing) {done : Completion} {t : Purchasing}
      → Repository.complete env c id version s ≡ ok (some done, t)
      → ((done.already ≡ true)
          × (find (is_receipt c id) s.receipts ≡ some done.receipt)
          × (Repository.is_done env done.receipt.status ≡ true)
          × (t ≡ s))
        ⊎ IsCompletion c id s done t
  unfolding Repository.complete Repository.complete_draft approved_order Repository.store
  complete_effect c id version s e = elim (Option-cases (find (is_receipt c id) s.receipts)) [
    | inl absent ↦ ground (arith, absent, e)
    | inr (r, found) ↦ elim (Bool-cases (Repository.is_done env r.status)) [
      | inl old ↦ inl (
        ground (arith, found, old, e),
        ground (arith, found, old, e),
        ground (arith, found, old, e),
        ground (arith, found, old, e),
      )
      | inr new ↦ elim (Option-cases (find (is_planned c r.order) s.orders)) [
        | inl missing ↦ ground (arith, found, new, missing, e)
        | inr (o, ordering) ↦ inr (record {
          before = r;
          order = o;
          found = found;
          was_draft = ground (arith, found, new, ordering, e);
          approved = ordering;
          within = ground (arith, found, new, ordering, e);
          answer = ground (arith, found, new, ordering, e);
          stored = ground (arith, found, new, ordering, e);
        })
      ]
    ]
  ]

  -- The receipt that a completion returns is in the table afterwards, completed.
  pub complete_found :
      (c : Context) (id version : ℕ) (s : Purchasing) {done : Completion} {t : Purchasing}
      → Repository.complete env c id version s ≡ ok (some done, t)
      → (find (is_receipt c id) t.receipts ≡ some done.receipt)
        × (Repository.is_done env done.receipt.status ≡ true)
  complete_found c id version s {done} {t} e = elim (complete_effect c id version s e) [
    | inl (already, found, finished, same) ↦ (ground (arith, found, same), finished)
    | inr new ↦
        let fits = find_fits (is_receipt c id) s.receipts new.found in
        let there =
          find-update_first (is_receipt c id) (with_status completed) s.receipts new.found
            (completed_row c id new.before fits) in
        let rows = ap (λ x. x.receipts) new.stored in
        let returned = ap (λ x. x.receipt) new.answer in
        (
          ap (find (is_receipt c id)) rows ∙ there ∙ ap some (sym returned),
          ap (λ x. Repository.is_done env x.status) returned,
        )
  ]
