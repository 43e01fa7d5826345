-- ===== src/Sales/Invoices/Repository.antt =====
-- src/infrastructure/database/repositories/postgres-invoice-repository.ts, query by query. The
-- list, the discounts and the totals that an invoice copies from its order are left out.
use new_erp_final.Common.{ℕ, Bool, true, false, ◌&&◌, Option, some, ◌==◌, find, member}
use new_erp_final.Transaction.{
  Tx, validation, bad_statement, ◌>>=◌, ◌>>◌, throw, gets, require, or_throw, not_completed,
}
use new_erp_final.Database.{Order, Context}
use new_erp_final.Environment.{Env}
use new_erp_final.Sales.Books.{
  Delivery, DeliveryStatus, completed, Invoice, InvoiceItem, BillStatus, draft, BillColumns,
  TaxSnapshot, Books, invoice_table,
}
use new_erp_final.Sales.Documents.{
  is_document, with_notes, with_status, with_rest, mutate, replay_or,
}

abbrev is_completed : DeliveryStatus → Bool
is_completed completed = true
is_completed _ = false

-- The join of the delivery with its order.
abbrev is_ordered : Delivery → Order → Bool
is_ordered d o = o.id == d.source && o.tenant == d.tenant

-- The `INSERT` names thirteen columns and gives them fourteen values, which PostgreSQL refuses;
-- what the transaction has counted up by then is undone.
unfoldable pub create : Env → Context → ℕ → ℕ → Bool → Tx Books Invoice
unfolding replay_or
create env c delivery key allow_replay = replay_or env invoice_table c key delivery allow_replay (do
  row ← gets (λ s. find (is_document c delivery) s.deliveries)
  d ← or_throw row (validation not_completed)
  ordered ← gets (λ s. member (is_ordered d) s.db.orders)
  require (ordered && is_completed d.status) (validation not_completed)
  throw bad_statement)

abbrev pub is_draft : BillStatus → Bool
is_draft draft = true
is_draft _ = false

unfoldable pub update : Env → Context → ℕ → ℕ → ℕ → Tx Books (Option Invoice)
unfolding mutate
update env c id notes expected_version =
    mutate env invoice_table c id (λ i. is_draft i.status && i.version == expected_version)
      (with_notes notes)

unfoldable pub transition : Env → Context → ℕ → BillStatus → ℕ → Tx Books (Option Invoice)
unfolding mutate
transition env c id status expected_version =
    mutate env invoice_table c id (λ i. i.version == expected_version) (with_status status)

abbrev pub with_tax : TaxSnapshot → BillColumns InvoiceItem → BillColumns InvoiceItem
with_tax snapshot x = record x { tax = some snapshot }

unfoldable pub update_tax_snapshot : Env → Context → ℕ → TaxSnapshot → Tx Books (Option Invoice)
unfolding mutate
update_tax_snapshot env c id snapshot =
    mutate env invoice_table c id (λ i. is_draft i.status) (with_rest (with_tax snapshot))

abbrev pub with_finance : ℕ → BillColumns InvoiceItem → BillColumns InvoiceItem
with_finance reference x = record x { finance = some reference }

unfoldable pub update_finance_status : Env → Context → ℕ → ℕ → Tx Books (Option Invoice)
unfolding mutate
update_finance_status env c id reference =
    mutate env invoice_table c id (λ i. is_draft i.status) (with_rest (with_finance reference))
