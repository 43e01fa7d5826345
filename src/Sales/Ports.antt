-- ===== src/Sales/Ports.antt =====
-- What the services of the sales documents ask of the inventory (`InventoryDependencyPort` of
-- src/domain/contracts/inventory.ts), of the tax provider and of the finance provider
-- (src/domain/contracts/sales-dependencies.ts), and the texts that they write.
use new_erp_final.Common.{ℕ, ◌≡◌, Option, none, some, List}
use new_erp_final.Transaction.{Tx, ok}
use new_erp_final.Database.{Db, Context, Reservation, Movement}
use new_erp_final.Environment.{Env}
use new_erp_final.Authorization.{Authorization}
use new_erp_final.Inventory.Service as Inventory
use new_erp_final.Inventory.Service.{Input}
use new_erp_final.Sales.Books.{Books, TaxSnapshot}

-- 'SALES_ORDER', 'SALES_RETURN' and 'RESERVATION', and the beginnings `sales-delivery:`,
-- `sales-return:`, `invoice-tax:`, `invoice-finance:` and `credit-note-finance:` of the keys.
pub record SalesTexts : Type 0 where
  pub sales_order : ℕ
  pub sales_return : ℕ
  pub reservation : ℕ
  pub delivery_prefix : ℕ
  pub return_prefix : ℕ
  pub invoice_tax_prefix : ℕ
  pub invoice_finance_prefix : ℕ
  pub credit_note_finance_prefix : ℕ

pub record StockPort : Type 0 where
  pub list_by_source : Context → ℕ → ℕ → Tx Db (List Reservation)
  pub fulfill_by_source : Context → ℕ → ℕ → ℕ → Tx Db (List Reservation)
  pub return_stock : Context → Input → Tx Db Movement

-- The port that the application builds from the inventory service.
abbrev pub stock_port : Env → SalesTexts → Authorization → StockPort
stock_port env texts auth = record {
  list_by_source = Inventory.list_by_source env auth;
  fulfill_by_source = Inventory.fulfill_by_source env auth texts.reservation;
  return_stock = Inventory.give_back env auth;
}

pub data DocumentType : Type 0 where
  invoice credit_note : DocumentType

-- The result of `calculate`: `NOT_CONNECTED`, or `CALCULATED` with what the provider filled in.
pub data TaxAnswer : Type 0 where
  no_tax : TaxAnswer
  calculated : Option ℕ → Option ℕ → Option ℕ → Option ℕ → TaxAnswer

-- An answer that the invoice service accepts: none of the four is missing.
unfoldable pub complete_answer : TaxAnswer → Option TaxSnapshot
complete_answer (calculated (some reference) (some rate) (some taxable) (some tax)) =
    some (record { reference = reference; rate = rate; taxable_amount = taxable; tax_amount = tax })
complete_answer _ = none

-- The result of `submitSalesDocument`: `NOT_CONNECTED`, or `POSTED` and perhaps a reference.
pub data Posting : Type 0 where
  no_finance : Posting
  posted : Option ℕ → Posting

unfoldable pub posted_reference : Posting → Option ℕ
posted_reference no_finance = none
posted_reference (posted reference) = reference

-- A provider runs in the transaction of its caller and does not write the bills itself.
pub record TaxPort : Type 0 where
  pub calculate : Context → ℕ → DocumentType → ℕ → ℕ → Tx Books TaxAnswer
  pub calculate_leaves :
      (c : Context) (key : ℕ) (kind : DocumentType) (id amount : ℕ) (s : Books) {a : TaxAnswer}
      {t : Books}
      → calculate c key kind id amount s ≡ ok (a, t)
      → (t.invoices ≡ s.invoices) × (t.credit_notes ≡ s.credit_notes)

pub record FinancePort : Type 0 where
  pub submit : Context → ℕ → DocumentType → ℕ → ℕ → Tx Books Posting
  pub submit_leaves :
      (c : Context) (key : ℕ) (kind : DocumentType) (id amount : ℕ) (s : Books) {a : Posting}
      {t : Books}
      → submit c key kind id amount s ≡ ok (a, t)
      → (t.invoices ≡ s.invoices) × (t.credit_notes ≡ s.credit_notes)
