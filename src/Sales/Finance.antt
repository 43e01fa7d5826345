-- ===== src/Sales/Finance.antt =====
-- src/infrastructure/database/repositories/postgres-finance-repository.ts, which the application
-- gives to the invoices and the credit notes as their finance provider, and what follows for them.
use new_erp_final.Common.{ℕ, ◌≡◌, refl, member, ◌≢◌, Option, some, arith}
use mathlib.Core.Path.{subst}
use new_erp_final.Transaction.{
  Tx, ok, bad_statement, throw, with_tenant, require, bind_ok, validation, bad_transition,
}
use new_erp_final.Database.{Context}
use new_erp_final.Environment.{Env}
use new_erp_final.Authorization.{Authorization}
use new_erp_final.Sales.Books.{Invoice, CreditNote, issued, Books}
use new_erp_final.Sales.Ports.{SalesTexts, TaxPort, FinancePort, DocumentType, invoice, Posting}
use new_erp_final.Sales.Rows.{found_once}
use new_erp_final.Sales.Invoices.Service as Invoices
use new_erp_final.Sales.Invoices.Issue.{move-IsIssued}
use new_erp_final.Sales.CreditNotes.Service as CreditNotes

-- The first statement names nine columns and gives them ten values, which PostgreSQL refuses, so
-- that the look-up after it is not reached.
unfoldable pub post_sales_document : Env → Context → ℕ → DocumentType → ℕ → ℕ → Tx Books Posting
post_sales_document env c key kind id amount =
    with_tenant env.is_uuid c.tenant (throw bad_statement)

pub post_sales_document_refuses :
    (env : Env) (c : Context) (key : ℕ) (kind : DocumentType) (id amount : ℕ) (s : Books)
    {a : Posting} {t : Books}
    → post_sales_document env c key kind id amount s ≢ ok (a, t)
unfolding post_sales_document
post_sales_document_refuses env c key kind id amount s e = ground arith

-- The provider that the application builds.
abbrev pub finance_port : Env → FinancePort
finance_port env = record {
  submit = post_sales_document env;
  submit_leaves =
      λ c key kind id amount s e. absurd (post_sales_document_refuses env c key kind id amount s e);
}

module _ (env : Env) (texts : SalesTexts) (auth : Authorization) where
  settle_refused :
      (c : Context) (id version : ℕ) (n : CreditNote) (s : Books) {w : ℕ} {t : Books}
      → CreditNotes.settle env texts auth (some (finance_port env)) c id version n s ≢ ok (w, t)
  unfolding CreditNotes.settle post_sales_document
  settle_refused c id version n s e = ground arith

  credit_note_refused :
      (c : Context) (id version : ℕ) (s : Books) (x : CreditNote) (s' : Books)
      → CreditNotes.move env texts auth (some (finance_port env)) c id issued version s ≢ ok (x, s')
  unfolding CreditNotes.move
  credit_note_refused c id version s x s' e =
      let (n, s1, got, e1) =
        bind_ok (CreditNotes.get env texts auth (some (finance_port env)) c id) _ s e in
      let (u, s2, legal, e2) =
        bind_ok
          (require (member (Invoices.same_status issued) (Invoices.transitions n.status))
            (validation bad_transition))
          _ s1 e1 in
      let (w, t, settled, e3) =
        bind_ok (CreditNotes.settle env texts auth (some (finance_port env)) c id version n) _ s2
          e2 in
      settle_refused c id version n s2 settled

  port_refuses :
      (c : Context) (key : ℕ) (kind : DocumentType) (id amount : ℕ) (s : Books) (port : FinancePort)
      {a : Posting} {t : Books}
      → some (finance_port env) ≡ some port
      → port.submit c key kind id amount s ≢ ok (a, t)
  port_refuses c key kind id amount s port {a} {t} configured submitted =
      let ours : port ≡ finance_port env = found_once (some (finance_port env)) configured refl in
      post_sales_document_refuses env c key kind id amount s
        (subst (λ (p : FinancePort). p.submit c key kind id amount s ≡ ok (a, t)) ours submitted)

  invoice_refused :
      (tax : Option TaxPort) (c : Context) (id version : ℕ) (s : Books) (x : Invoice) (s' : Books)
      → Invoices.move env texts auth tax (some (finance_port env)) c id issued version s
        ≢ ok (x, s')
  invoice_refused tax c id version s x s' e =
      let w = move-IsIssued env texts auth tax (some (finance_port env)) c id version s x s' e in
      port_refuses c (env.join texts.invoice_finance_prefix id) invoice id w.amount w.with_tax_at
        w.posted.port w.posted.configured w.posted.submitted

  -- With the finance repository of the application no invoice and no credit note is ever issued:
  -- whatever tax provider there is, the transition ends in an error.
  pub issue_refused :
      (tax : Option TaxPort) (c : Context) (id note_id version : ℕ) (s : Books) (x : Invoice)
      (n : CreditNote) (s' : Books)
      → (Invoices.move env texts auth tax (some (finance_port env)) c id issued version s
          ≢ ok (x, s'))
        × (CreditNotes.move env texts auth (some (finance_port env)) c note_id issued version s
            ≢ ok (n, s'))
  issue_refused tax c id note_id version s x n s' =
      (invoice_refused tax c id version s x s', credit_note_refused c note_id version s n s')
