-- ===== src/Sales/Invoices/Settling.antt =====
-- What src/application/services/invoice-service.ts does before it issues an invoice: the tax that
-- the provider calculates, and the posting of the amount with the tax.
use new_erp_final.Common.{
  ℕ, ◌+◌, ◌≡◌, refl, true, Option, some, arith, find, update_first, inl, inr, Option-cases,
}
use new_erp_final.Transaction.{ok, bind_ok, Result-cases}
use new_erp_final.Database.{Context}
use new_erp_final.Environment.{Env}
use new_erp_final.Authorization.{Authorization}
use new_erp_final.Sales.Books.{Invoice, InvoiceItem, BillColumns, TaxSnapshot, Books, invoice_table}
use new_erp_final.Sales.Documents.{is_document, with_rest, mutate}
use new_erp_final.Sales.Ports.{
  SalesTexts, TaxPort, FinancePort, invoice, TaxAnswer, complete_answer, Posting, posted_reference,
}
use new_erp_final.Sales.Rows.{mutate_ok}
use new_erp_final.Sales.Invoices.Repository
use new_erp_final.Sales.Invoices.Repository.{with_tax, with_finance}
use new_erp_final.Sales.Invoices.Service
use new_erp_final.Sales.Invoices.Service.{same_status, transitions, taxable_amount}

-- A changed column beside them leaves the columns of the key.
pub is_document-with_rest :
    (c : Context) (id : ℕ) (f : BillColumns InvoiceItem → BillColumns InvoiceItem) (i : Invoice)
    → is_document c id (with_rest f i) ≡ is_document c id i
unfolding is_document
is_document-with_rest c id f i = refl

module _ (env : Env) (texts : SalesTexts) (auth : Authorization) (tax : Option TaxPort)
    (finance : Option FinancePort) where
  -- The columns of a draft are written, and nothing else.
  columns_ok :
      (f : BillColumns InvoiceItem → BillColumns InvoiceItem) (c : Context) (id : ℕ) (s : Books)
      (x : Invoice) (t : Books)
      → mutate env invoice_table c id (λ i. Repository.is_draft i.status) (with_rest f) s
        ≡ ok (some x, t)
      → (d : Invoice) × (find (is_document c id) s.invoices ≡ some d)
        × (Repository.is_draft d.status ≡ true)
        × (t.invoices ≡ update_first (is_document c id) (with_rest f) s.invoices)
  columns_ok f c id s x t e =
      let (d, found, fits, after, stored) =
        mutate_ok env invoice_table c id (λ i. Repository.is_draft i.status) (with_rest f) s e in
      (d, found, fits, ground (arith, stored))

  -- The answer of the tax provider that an invoice stores, and the row that stores it.
  pub record IsTaxed (c : Context) (id : ℕ) (i : Invoice) (s : Books) (amount : ℕ) (t : Books)
      : Type 0 where
    pub port : TaxPort
    pub snapshot : TaxSnapshot
    pub answer : TaxAnswer
    pub between : Books
    pub before : Invoice
    pub configured : tax ≡ some port
    pub asked :
        port.calculate c
          (env.join texts.invoice_tax_prefix id)
          invoice
          id
          (taxable_amount i.rest.items)
          s
        ≡ ok (answer, between)
    pub complete : complete_answer answer ≡ some snapshot
    pub total : amount ≡ snapshot.taxable_amount + snapshot.tax_amount
    pub found : find (is_document c id) s.invoices ≡ some before
    pub is_draft : Repository.is_draft before.status ≡ true
    pub stored :
        t.invoices ≡ update_first (is_document c id) (with_rest (with_tax snapshot)) s.invoices

  take_tax_ok :
      (c : Context) (id : ℕ) (i : Invoice) (s : Books) (amount : ℕ) (t : Books)
      → Service.take_tax env texts auth tax finance c id i s ≡ ok (amount, t)
      → IsTaxed c id i s amount t
  unfolding Service.take_tax Repository.update_tax_snapshot
  take_tax_ok c id i s amount t e = elim (Option-cases tax) [
    | inl absent ↦ absurd (ground arith)
    | inr (port, configured) ↦
        let key = env.join texts.invoice_tax_prefix id in
        elim (Result-cases (port.calculate c key invoice id (taxable_amount i.rest.items) s)) [
          | inr (error, failed) ↦ absurd (ground arith)
          | inl ((answer, between), asked) ↦ elim (Option-cases (complete_answer answer)) [
            | inl missing ↦ absurd (ground arith)
            | inr (snapshot, complete) ↦
                elim (Result-cases (Repository.update_tax_snapshot env c id snapshot between)) [
                  | inr (error, failed) ↦ absurd (ground arith)
                  | inl ((row, u), written) ↦ elim (Option-cases row) [
                    | inl absent ↦ absurd (ground arith)
                    | inr (x, present) ↦
                        let (d, found, fits, stored) =
                          columns_ok (with_tax snapshot) c id between x u
                            (ground (arith, written, present)) in
                        let left =
                          port.calculate_leaves c key invoice id (taxable_amount i.rest.items) s
                            asked in
                        record {
                          port = port;
                          snapshot = snapshot;
                          answer = answer;
                          between = between;
                          before = d;
                          configured = configured;
                          asked = asked;
                          complete = complete;
                          total = ground arith;
                          found = ground (arith, found, left);
                          is_draft = fits;
                          stored = ground (arith, stored, left);
                        }
                  ]
                ]
          ]
        ]
  ]

  -- The posting of an amount, and the row that stores its reference.
  pub record IsPosted (c : Context) (id amount : ℕ) (s : Books) (t : Books) : Type 0 where
    pub port : FinancePort
    pub posting : Posting
    pub reference : ℕ
    pub between : Books
    pub before : Invoice
    pub configured : finance ≡ some port
    pub submitted :
        port.submit c (env.join texts.invoice_finance_prefix id) invoice id amount s
        ≡ ok (posting, between)
    pub is_posted : posted_reference posting ≡ some reference
    pub found : find (is_document c id) s.invoices ≡ some before
    pub stored :
        t.invoices ≡ update_first (is_document c id) (with_rest (with_finance reference)) s.invoices

  post_finance_ok :
      (c : Context) (id amount : ℕ) (s t : Books)
      → Service.post_finance env texts auth tax finance c id amount s ≡ ok (tt, t)
      → IsPosted c id amount s t
  unfolding Service.post_finance Repository.update_finance_status
  post_finance_ok c id amount s t e = elim (Option-cases finance) [
    | inl absent ↦ absurd (ground arith)
    | inr (port, configured) ↦
        let key = env.join texts.invoice_finance_prefix id in
        elim (Result-cases (port.submit c key invoice id amount s)) [
          | inr (error, failed) ↦ absurd (ground arith)
          | inl ((posting, between), submitted) ↦ elim (Option-cases (posted_reference posting)) [
            | inl missing ↦ absurd (ground arith)
            | inr (reference, is_posted) ↦
                elim (Result-cases (Repository.update_finance_status env c id reference between)) [
                  | inr (error, failed) ↦ absurd (ground arith)
                  | inl ((row, u), written) ↦ elim (Option-cases row) [
                    | inl absent ↦ absurd (ground arith)
                    | inr (x, present) ↦
                        let (d, found, fits, stored) =
                          columns_ok (with_finance reference) c id between x u
                            (ground (arith, written, present)) in
                        let left = port.submit_leaves c key invoice id amount s submitted in
                        record {
                          port = port;
                          posting = posting;
                          reference = reference;
                          between = between;
                          before = d;
                          configured = configured;
                          submitted = submitted;
                          is_posted = is_posted;
                          found = ground (arith, found, left);
                          stored = ground (arith, stored, left);
                        }
                  ]
                ]
          ]
        ]
  ]

  pub settle_ok :
      (c : Context) (id version : ℕ) (i : Invoice) (s : Books) (w : ℕ) (t : Books)
      → Service.settle env texts auth tax finance c id version i s ≡ ok (w, t)
      → (amount : ℕ) × (u : Books) × (w ≡ version + 2)
        × IsTaxed c id i s amount u
        × IsPosted c id amount u t
  unfolding Service.settle
  settle_ok c id version i s w t e =
      let (amount, u, taxed, e1) =
        bind_ok (Service.take_tax env texts auth tax finance c id i) _ s e in
      let (v, t', posted, e2) =
        bind_ok (Service.post_finance env texts auth tax finance c id amount) _ u e1 in
      (
        amount,
        u,
        ground (arith, e2),
        take_tax_ok c id i s amount u taxed,
        post_finance_ok c id amount u t (ground (arith, posted, e2)),
      )
