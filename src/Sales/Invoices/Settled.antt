-- ===== src/Sales/Invoices/Settled.antt =====
-- An invariant of the table of invoices under src/application/services/invoice-service.ts.
use new_erp_final.Common.{
  ℕ, ◌≡◌, refl, ◌∙◌, ap, ◌≢◌, Bool, true, not, ◌&&◌, ◌||◌, Option, some, List, [], ◌∷◌, arith, ◌==◌,
  find, update_first, is_some, member, inl, inr, Option-cases,
}
use new_erp_final.Transaction.{
  Tx, bad_transition, ok, bind_ok, require, Result-cases, ◌>>◌, validation,
}
use new_erp_final.Database.{Context}
use new_erp_final.Environment.{Env}
use new_erp_final.Authorization.{Authorization, authorize}
use new_erp_final.Sales.Books.{
  Invoice, BillStatus, draft, issued, cancelled, Books, invoice_table, record_event,
}
use new_erp_final.Sales.Documents.{
  is_document, with_status, with_rest, with_notes, replay_or, check_id, check_version, trimmed_key,
}
use new_erp_final.Sales.Ports.{SalesTexts, TaxPort, FinancePort}
use new_erp_final.Sales.Rows.{get_ok, mutate_ok, transition_ok}
use new_erp_final.Sales.Invoices.Repository
use new_erp_final.Sales.Invoices.Repository.{with_tax, with_finance}
use new_erp_final.Sales.Invoices.Service
use new_erp_final.Sales.Invoices.Service.{same_status, transitions}
use new_erp_final.Sales.Invoices.Issue.{IsIssued, move-IsIssued, found_after}

abbrev every : (Invoice → Bool) → List Invoice → Bool
every p [] = true
every p (x ∷ xs) = p x && every p xs

-- An invoice that is issued has its tax and the reference of its posting.
abbrev pub settled : Invoice → Bool
settled i = not (same_status i.status issued) || (is_some i.rest.tax && is_some i.rest.finance)

pub record IsSettled (s : Books) : Type 0 where
  pub all : every settled s.invoices ≡ true

-- An update keeps a property of all rows if the row that it writes has it.
every-update_first :
    (p q : Invoice → Bool) (f : Invoice → Invoice) (rows : List Invoice) {i : Invoice}
    → find p rows ≡ some i
    → q (f i) ≡ true
    → every q rows ≡ true
    → every q (update_first p f rows) ≡ true
every-update_first p q f [] found new old = refl
every-update_first p q f (x ∷ xs) {i} found new old =
    ground (arith, every-update_first p q f xs {i = i})

module _ (env : Env) (texts : SalesTexts) (auth : Authorization) (tax : Option TaxPort)
    (finance : Option FinancePort) where
  -- One call of the service that succeeds.
  pub data Step (s s' : Books) : Type 0 where
    create :
        (c : Context) (delivery key : ℕ) (x : Invoice)
        → Service.create env texts auth tax finance c delivery key s ≡ ok (x, s')
        → Step s s'
    update :
        (c : Context) (id notes version : ℕ) (x : Invoice)
        → Service.update env texts auth tax finance c id notes version s ≡ ok (x, s')
        → Step s s'
    transition :
        (c : Context) (id : ℕ) (status : BillStatus) (version : ℕ) (x : Invoice)
        → Service.transition env texts auth tax finance c id status version s ≡ ok (x, s')
        → Step s s'

  pub data Reach (s : Books) : Books → Type 0 where
    here : Reach s s
    next : {t u : Books} → Reach s t → Step t u → Reach s u

  create_leaves :
      (c : Context) (delivery key : ℕ) (s : Books) (x : Invoice) (s' : Books)
      → Service.create env texts auth tax finance c delivery key s ≡ ok (x, s')
      → s'.invoices ≡ s.invoices
  unfolding Service.create Repository.create replay_or authorize check_id trimmed_key record_event
  create_leaves c delivery key s x s' e = ground arith

  update_effect :
      (c : Context) (id notes version : ℕ) (s : Books) (x : Invoice) (s' : Books)
      → Service.update env texts auth tax finance c id notes version s ≡ ok (x, s')
      → Repository.update env c id notes version s ≡ ok (some x, s')
  unfolding Service.update authorize check_id check_version
  update_effect c id notes version s x s' e = ground arith

  transition_effect :
      (c : Context) (id : ℕ) (status : BillStatus) (version : ℕ) (s : Books) (x : Invoice)
      (s' : Books)
      → Service.transition env texts auth tax finance c id status version s ≡ ok (x, s')
      → Service.move env texts auth tax finance c id status version s ≡ ok (x, s')
  unfolding Service.transition authorize check_id check_version
  transition_effect c id status version s x s' e = ground arith

  update-IsSettled :
      (c : Context) (id notes version : ℕ) (s : Books) (x : Invoice) (s' : Books)
      → Repository.update env c id notes version s ≡ ok (some x, s')
      → IsSettled s
      → IsSettled s'
  unfolding Repository.update
  update-IsSettled c id notes version s x s' e h =
      let (d, found, fits, after, stored) =
        mutate_ok env invoice_table c id (λ i. Repository.is_draft i.status && i.version == version)
          (with_notes notes) s e in
      let rows : s'.invoices ≡ update_first (is_document c id) (with_notes notes) s.invoices =
        ap (λ (b : Books). b.invoices) stored in
      record {
        all =
            ap (every settled) rows
            ∙ every-update_first (is_document c id) settled (with_notes notes) s.invoices found
                (unsettled_draft d fits) h.all;
      }
    where
      unsettled_draft :
          (d : Invoice)
          → (Repository.is_draft d.status && d.version == version) ≡ true
          → settled (with_notes notes d) ≡ true
      unsettled_draft d fits = ground (arith, fits)

  issue-IsSettled :
      (c : Context) (id version : ℕ) (s : Books) (x : Invoice) (s' : Books)
      → IsIssued env texts auth tax finance c id version s x s'
      → IsSettled s
      → IsSettled s'
  issue-IsSettled c id version s x s' w h =
      let p = is_document c id in
      let taxed_rows = update_first p (with_rest (with_tax w.taxed.snapshot)) s.invoices in
      let posted_rows = update_first p (with_rest (with_finance w.posted.reference)) taxed_rows in
      let in_taxed = found_after c id (with_tax w.taxed.snapshot) s.invoices w.found in
      let in_posted = found_after c id (with_finance w.posted.reference) taxed_rows in_taxed in
      record {
        all =
            ap (every settled) w.rows
            ∙ every-update_first p settled (with_status issued) posted_rows in_posted refl (
                every-update_first p settled (with_rest (with_finance w.posted.reference))
                  taxed_rows in_taxed (ground (arith, w.is_draft))
                  (every-update_first p settled (with_rest (with_tax w.taxed.snapshot)) s.invoices
                    w.found (ground (arith, w.is_draft)) h.all));
      }

  cancel_rows :
      (c : Context) (id version : ℕ) (s : Books) (x : Invoice) (s' : Books)
      → Service.move env texts auth tax finance c id cancelled version s ≡ ok (x, s')
      → (i : Invoice) × (find (is_document c id) s.invoices ≡ some i)
        × (s'.invoices ≡ update_first (is_document c id) (with_status cancelled) s.invoices)
  unfolding Service.move Service.get record_event Repository.transition
  cancel_rows c id version s x s' e =
      let (i, s1, got, e1) = bind_ok (Service.get env texts auth tax finance c id) _ s e in
      let at_start = get_ok env invoice_table auth "sales.invoice.read" c id s got in
      elim (Result-cases (Repository.transition env c id cancelled version s)) [
        | inr (error, failed) ↦ absurd (ground (arith, e1, at_start.0))
        | inl ((row, t), moved) ↦ elim (Option-cases row) [
          | inl absent ↦ absurd (ground (arith, e1, at_start.0))
          | inr (y, present) ↦
              let (d, found, fits, after, stored) =
                transition_ok env invoice_table c id cancelled version s {x = y} {t = t}
                  (ground (arith, moved, present)) in
              (d, found, ground (arith, e1, at_start.0, stored))
        ]
      ]

  no_draft :
      (c : Context) (id version : ℕ) (s : Books) (x : Invoice) (s' : Books)
      → Service.move env texts auth tax finance c id draft version s ≢ ok (x, s')
  unfolding Service.move Service.get
  no_draft c id version s x s' e =
      let (i, s1, got, e1) = bind_ok (Service.get env texts auth tax finance c id) _ s e in
      never_draft i.status _ s1 e1
    where
      never_draft :
          (a : BillStatus) {A : Type 0} (k : Tx Books A) (t : Books) {r : A × Books}
          → (require (member (same_status draft) (transitions a)) (validation bad_transition) >> k)
              t
            ≢ ok r
      never_draft draft k t e = cc
      never_draft issued k t e = cc
      never_draft cancelled k t e = cc

  Step-IsSettled : {s s' : Books} → Step s s' → IsSettled s → IsSettled s'
  Step-IsSettled {s} {s'} (create c delivery key x e) h = record {
    all = ap (every settled) (create_leaves c delivery key s x s' e) ∙ h.all;
  }
  Step-IsSettled {s} {s'} (update c id notes version x e) h =
      update-IsSettled c id notes version s x s' (update_effect c id notes version s x s' e) h
  Step-IsSettled {s} {s'} (transition c id draft version x e) h =
      absurd (no_draft c id version s x s' (transition_effect c id draft version s x s' e))
  Step-IsSettled {s} {s'} (transition c id issued version x e) h =
      issue-IsSettled c id version s x s'
        (move-IsIssued env texts auth tax finance c id version s x s'
          (transition_effect c id issued version s x s' e))
        h
  Step-IsSettled {s} {s'} (transition c id cancelled version x e) h =
      let (i, found, rows) =
        cancel_rows c id version s x s' (transition_effect c id cancelled version s x s' e) in
      record {
        all =
            ap (every settled) rows
            ∙ every-update_first (is_document c id) settled (with_status cancelled) s.invoices found
                refl h.all;
      }

  -- After any sequence of calls of the invoice service that succeed, from a table in which every
  -- issued invoice has its tax and the reference of its posting, every issued invoice has them.
  pub Reach-IsSettled : {s s' : Books} → IsSettled s → Reach s s' → IsSettled s'
  Reach-IsSettled h here = h
  Reach-IsSettled h (next r st) = Step-IsSettled st (Reach-IsSettled h r)
