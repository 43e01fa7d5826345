-- ===== src/Sales/Invoices/Service.antt =====
-- src/application/services/invoice-service.ts over the repository. The checks before the
-- transaction write nothing, so each operation is one transaction body. The list is left out.
use Prim.Native.String.{String}
use new_erp_final.Common.{
  ℕ, ◌+◌, Bool, true, false, Option, some, List, [], ◌∷◌, if◌then◌else◌, member,
}
use new_erp_final.Transaction.{
  Tx, validation, ◌>>=◌, ◌>>◌, pure, require, or_throw, bad_transition, no_provider, not_updated,
  tax_failed, finance_failed,
}
use new_erp_final.Database.{Context}
use new_erp_final.Environment.{Env}
use new_erp_final.Authorization.{Authorization, authorize}
use new_erp_final.Sales.Books.{
  Invoice, InvoiceItem, BillStatus, draft, issued, cancelled, Books, invoice_table, record_event,
  invoice_created, invoice_moved,
}
use new_erp_final.Sales.Documents
use new_erp_final.Sales.Documents.{check_id, check_version, trimmed_key}
use new_erp_final.Sales.Ports.{
  SalesTexts, TaxPort, FinancePort, invoice, complete_answer, posted_reference,
}
use new_erp_final.Sales.Invoices.Repository

abbrev pub transitions : BillStatus → List BillStatus
transitions draft = issued ∷ cancelled ∷ []
transitions issued = []
transitions cancelled = []

abbrev pub same_status : BillStatus → BillStatus → Bool
same_status draft draft = true
same_status issued issued = true
same_status cancelled cancelled = true
same_status _ _ = false

abbrev pub transition_permission : BillStatus → String
transition_permission issued = "sales.invoice.issue"
transition_permission _ = "sales.invoice.cancel"

-- `items.reduce((total, item) => total + item.lineTotal, 0)`
unfoldable pub taxable_amount : List InvoiceItem → ℕ
taxable_amount [] = 0
taxable_amount (x ∷ xs) = x.line_total + taxable_amount xs

-- The service looks for its providers when an invoice is issued.
module _ (env : Env) (texts : SalesTexts) (auth : Authorization) (tax : Option TaxPort)
    (finance : Option FinancePort) where
  abbrev permitted : String → Context → Tx Books (Unit {0})
  permitted p c = authorize env auth "sales" c (some p)

  unfoldable pub create : Context → ℕ → ℕ → Tx Books Invoice
  create c delivery key = do
    permitted "sales.invoice.create" c
    check_id env delivery
    key ← trimmed_key env key
    let allow_replay = auth.has_permission c.tenant c.user (some "sales.invoice.read")
    i ← Repository.create env c delivery key allow_replay
    record_event c (invoice_created i.id)
    pure i

  unfoldable pub get : Context → ℕ → Tx Books Invoice
  unfolding Documents.get
  get = Documents.get env auth invoice_table "sales.invoice.read"

  unfoldable pub update : Context → ℕ → ℕ → ℕ → Tx Books Invoice
  update c id notes expected_version = do
    permitted "sales.invoice.update" c
    check_id env id
    check_version expected_version
    row ← Repository.update env c id notes expected_version
    or_throw row (validation not_updated)

  -- The tax of an invoice that is issued: the provider's answer, stored. The result is the amount
  -- to post.
  unfoldable pub take_tax : Context → ℕ → Invoice → Tx Books ℕ
  take_tax c id i = do
    port ← or_throw tax (validation no_provider)
    let key = env.join texts.invoice_tax_prefix id
    answer ← port.calculate c key invoice id (taxable_amount i.rest.items)
    snapshot ← or_throw (complete_answer answer) (validation tax_failed)
    row ← Repository.update_tax_snapshot env c id snapshot
    or_throw row (validation not_updated)
    pure (snapshot.taxable_amount + snapshot.tax_amount)

  -- The posting of the amount.
  unfoldable pub post_finance : Context → ℕ → ℕ → Tx Books (Unit {0})
  post_finance c id amount = do
    port ← or_throw finance (validation no_provider)
    let key = env.join texts.invoice_finance_prefix id
    posting ← port.submit c key invoice id amount
    reference ← or_throw (posted_reference posting) (validation finance_failed)
    row ← Repository.update_finance_status env c id reference
    or_throw row (validation not_updated)
    pure tt

  -- What a transition to ISSUED does before it; the result is the version that it expects.
  unfoldable pub settle : Context → ℕ → ℕ → Invoice → Tx Books ℕ
  unfolding take_tax post_finance
  settle c id expected_version i = do
    amount ← take_tax c id i
    post_finance c id amount
    pure (expected_version + 2)

  -- The callback of `transition`.
  unfoldable pub move : Context → ℕ → BillStatus → ℕ → Tx Books Invoice
  unfolding get settle
  move c id status expected_version = do
    i ← get c id
    require (member (same_status status) (transitions i.status)) (validation bad_transition)
    version ←
        (if same_status status issued
          then settle c id expected_version i
          else pure expected_version)
    row ← Repository.transition env c id status version
    x ← or_throw row (validation not_updated)
    record_event c (invoice_moved status id)
    pure x

  unfoldable pub transition : Context → ℕ → BillStatus → ℕ → Tx Books Invoice
  transition c id status expected_version = do
    permitted (transition_permission status) c
    check_id env id
    check_version expected_version
    move c id status expected_version
