-- ===== src/Sales/Invoices/Issue.antt =====
-- What issuing an invoice writes, in src/application/services/invoice-service.ts: the tax, the
-- reference of the posting, and the status.
use new_erp_final.Common.{
  find-update_first, find_fits, ℕ, ◌+◌, ◌≡◌, refl, ap, sym, ◌∙◌, Bool, true, Option, some, List,
  arith, find, update_first, member, inl, inr, Option-cases,
}
use new_erp_final.Transaction.{
  ok, bind_ok, require, Result-cases, ◌>>=◌, ◌>>◌, pure, or_throw, validation, not_updated, Error,
}
use mathlib.Core.Path.{subst}
use new_erp_final.Database.{Context}
use new_erp_final.Environment.{Env}
use new_erp_final.Authorization.{Authorization}
use new_erp_final.Sales.Books.{
  Invoice, InvoiceItem, BillStatus, draft, issued, BillColumns, TaxSnapshot, Books, invoice_table,
  record_event, invoice_moved,
}
use new_erp_final.Sales.Documents.{is_document, with_status, with_rest}
use new_erp_final.Sales.Ports.{SalesTexts, TaxPort, FinancePort}
use new_erp_final.Sales.Rows.{get_ok, transition_ok, found_once}
use new_erp_final.Sales.Invoices.Repository
use new_erp_final.Sales.Invoices.Repository.{with_tax, with_finance}
use new_erp_final.Sales.Invoices.Service
use new_erp_final.Sales.Invoices.Service.{same_status, transitions, taxable_amount}
use new_erp_final.Sales.Invoices.Settling.{IsTaxed, IsPosted, settle_ok, is_document-with_rest}

-- The row of an invoice that is issued: with the tax, the posting and the status.
abbrev pub issued_row : TaxSnapshot → ℕ → Invoice → Invoice
issued_row snapshot reference i =
    with_status issued (with_rest (with_finance reference) (with_rest (with_tax snapshot) i))

is_document-issued :
    (c : Context) (id : ℕ) (status : BillStatus) (i : Invoice)
    → is_document c id (with_status status i) ≡ is_document c id i
unfolding is_document
is_document-issued c id status i = refl

drafted : (a : BillStatus) → member (same_status issued) (transitions a) ≡ true → a ≡ draft
drafted draft h = refl
drafted _ h = cc

legal_edge :
    (legal : Bool) (error : Error) (s : Books) {t : Books}
    → require legal error s ≡ ok (tt, t)
    → legal ≡ true
legal_edge legal error s e = ground arith

-- The row of a document after its columns were written.
pub found_after :
    (c : Context) (id : ℕ) (f : BillColumns InvoiceItem → BillColumns InvoiceItem)
    (rows : List Invoice) {i : Invoice}
    → find (is_document c id) rows ≡ some i
    → find (is_document c id) (update_first (is_document c id) (with_rest f) rows)
      ≡ some (with_rest f i)
found_after c id f rows {i} found =
    find-update_first (is_document c id) (with_rest f) rows found
      (is_document-with_rest c id f i ∙ find_fits (is_document c id) rows found)

found_issued :
    (c : Context) (id : ℕ) (rows : List Invoice) {i : Invoice}
    → find (is_document c id) rows ≡ some i
    → find (is_document c id) (update_first (is_document c id) (with_status issued) rows)
      ≡ some (with_status issued i)
found_issued c id rows {i} found =
    find-update_first (is_document c id) (with_status issued) rows found
      (is_document-issued c id issued i ∙ find_fits (is_document c id) rows found)

module _ (env : Env) (texts : SalesTexts) (auth : Authorization) (tax : Option TaxPort)
    (finance : Option FinancePort) where
  -- What a transition to ISSUED that succeeds has asked, read and written.
  pub record IsIssued (c : Context) (id version : ℕ) (s : Books) (x : Invoice) (s' : Books)
      : Type 0 where
    pub before : Invoice
    pub found : find (is_document c id) s.invoices ≡ some before
    pub is_draft : before.status ≡ draft
    pub expected : before.version ≡ version
    pub amount : ℕ
    pub with_tax_at : Books
    pub taxed : IsTaxed env texts auth tax finance c id before s amount with_tax_at
    pub posted_at : Books
    pub posted : IsPosted env texts auth tax finance c id amount with_tax_at posted_at
    pub after : x ≡ issued_row taxed.snapshot posted.reference before
    pub stored : find (is_document c id) s'.invoices ≡ some x
    pub rows :
        s'.invoices
        ≡ update_first (is_document c id) (with_status issued) (
            update_first
              (is_document c id)
              (with_rest (with_finance posted.reference))
              (update_first (is_document c id) (with_rest (with_tax taxed.snapshot)) s.invoices))

  settled_found :
      (c : Context) (id : ℕ) (i : Invoice) (s : Books) (amount : ℕ) (u t : Books)
      → find (is_document c id) s.invoices ≡ some i
      → (taxed : IsTaxed env texts auth tax finance c id i s amount u)
      → (posted : IsPosted env texts auth tax finance c id amount u t)
      → find (is_document c id) t.invoices
        ≡ some (with_rest (with_finance posted.reference) (with_rest (with_tax taxed.snapshot) i))
  settled_found c id i s amount u t found taxed posted =
      let with_tax_in : find (is_document c id) u.invoices
          ≡ some (with_rest (with_tax taxed.snapshot) i) =
        ap (find (is_document c id)) taxed.stored
        ∙ found_after c id (with_tax taxed.snapshot) s.invoices found in
      ap (find (is_document c id)) posted.stored
      ∙ found_after c id (with_finance posted.reference) u.invoices with_tax_in

  -- The last statement, and the record of all of them.
  issued_after :
      (c : Context) (id version : ℕ) (s : Books) (x : Invoice) (s' : Books) (i : Invoice)
      (amount : ℕ) (u t v : Books)
      → find (is_document c id) s.invoices ≡ some i
      → i.status ≡ draft
      → IsTaxed env texts auth tax finance c id i s amount u
      → IsPosted env texts auth tax finance c id amount u t
      → Repository.transition env c id issued (version + 2) t ≡ ok (some x, v)
      → s'.invoices ≡ v.invoices
      → IsIssued c id version s x s'
  unfolding Repository.transition
  issued_after c id version s x s' i amount u t v found is_draft taxed posted moved last =
      let (d, there, fits, after, stored) =
        transition_ok env invoice_table c id issued (version + 2) t {x = x} {t = v} moved in
      let row = settled_found c id i s amount u t found taxed posted in
      let same_row : d
          ≡ with_rest (with_finance posted.reference) (with_rest (with_tax taxed.snapshot) i) =
        found_once (find (is_document c id) t.invoices) there row in
      record {
        before = i;
        found = found;
        is_draft = is_draft;
        expected = ground (arith, same_row, fits);
        amount = amount;
        with_tax_at = u;
        taxed = taxed;
        posted_at = t;
        posted = posted;
        after = after ∙ ap (with_status issued) same_row;
        stored =
            ap (find (is_document c id)) last
            ∙ ap (λ (b : Books). find (is_document c id) b.invoices) stored
            ∙ found_issued c id t.invoices there
            ∙ ap some (sym after);
        rows =
            last
            ∙ ap (λ (b : Books). b.invoices) stored
            ∙ ap (update_first (is_document c id) (with_status issued)) (
                posted.stored
                ∙ ap (update_first (is_document c id) (with_rest (with_finance posted.reference)))
                    taxed.stored);
      }

  last_steps :
      (c : Context) (id version : ℕ) (t : Books) (x : Invoice) (s' : Books)
      → (Repository.transition env c id issued version >>= λ row.
            or_throw row (validation not_updated) >>= λ y.
            record_event c (invoice_moved issued id) >> pure y)
          t
        ≡ ok (x, s')
      → (v : Books) × (Repository.transition env c id issued version t ≡ ok (some x, v))
        × (s'.invoices ≡ v.invoices)
  unfolding record_event
  last_steps c id version t x s' e =
      elim (Result-cases (Repository.transition env c id issued version t)) [
        | inr (error, failed) ↦ absurd (ground arith)
        | inl ((row, v), moved) ↦ elim (Option-cases row) [
          | inl absent ↦ absurd (ground arith)
          | inr (y, present) ↦ (v, ground arith, ground arith)
        ]
      ]

  -- An invoice is issued only if it is a draft of the caller with the expected version, the tax
  -- provider gave a complete answer for the sum of its lines, and the finance provider posted the
  -- taxable amount with the tax. The row then holds the tax, the reference and the status.
  pub move-IsIssued :
      (c : Context) (id version : ℕ) (s : Books) (x : Invoice) (s' : Books)
      → Service.move env texts auth tax finance c id issued version s ≡ ok (x, s')
      → IsIssued c id version s x s'
  unfolding Service.move Service.get record_event
  move-IsIssued c id version s x s' e =
      let (i, s1, got, e1) = bind_ok (Service.get env texts auth tax finance c id) _ s e in
      let at_start = get_ok env invoice_table auth "sales.invoice.read" c id s got in
      let (u2, s2, legal, e2) =
        bind_ok (require (member (same_status issued) (transitions i.status)) _) _ s1 e1 in
      let (w, t, settled, e3) =
        bind_ok (Service.settle env texts auth tax finance c id version i) _ s2 e2 in
      let again : s2 ≡ s = ground (arith, legal, at_start.0) in
      let (amount, u, next, taxed, posted) =
        settle_ok env texts auth tax finance c id version i s w t
          (ground (arith, settled, again)) in
      let (v, moved, last) = last_steps c id w t x s' e3 in
      issued_after c id version s x s' i amount u t v at_start.1
        (drafted i.status (legal_edge _ _ s1 legal)) taxed posted
        (subst (λ n. Repository.transition env c id issued n t ≡ ok (some x, v)) next moved) last
