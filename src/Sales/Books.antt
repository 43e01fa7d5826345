-- ===== src/Sales/Books.antt =====
-- The rows of the sales documents that follow an order: deliveries, sales returns, invoices and
-- credit notes (src/domain/contracts/repositories.ts and the column lists of the repositories).
-- Texts and identifiers are numbers, amounts are counted in the smallest unit of their column.
-- The columns that record who wrote a row and when, and the customer, are left out. An optional
-- text of a provider is `none` where the code's test `!text` holds, so for the empty text too.
use new_erp_final.Common.{ℕ, Option, List, ◌∷◌}
use new_erp_final.Transaction.{Tx, ok, err}
use new_erp_final.Database.{Db, Context}

pub data DeliveryStatus : Type 0 where
  draft dispatched delivered completed cancelled : DeliveryStatus

pub data ReturnStatus : Type 0 where
  requested inspected approved processed closed rejected cancelled : ReturnStatus

-- `InvoiceStatus` and `CreditNoteStatus` have the same values.
pub data BillStatus : Type 0 where
  draft issued cancelled : BillStatus

pub data InventoryStatus : Type 0 where
  not_connected completed : InventoryStatus

-- The columns that the four tables share; `source` is the order, the delivery, the invoice or the
-- return that a document was made from, and `rest` holds the columns of one table and its lines.
pub record Document (S X : Type 0) : Type 0 where
  pub id : ℕ
  pub tenant : ℕ
  pub branch : ℕ
  pub year : ℕ
  pub number : ℕ
  pub source : ℕ
  pub key : ℕ
  pub status : S
  pub notes : ℕ
  pub version : ℕ
  pub rest : X

pub record DeliveryItem : Type 0 where
  pub id : ℕ
  pub order_item : ℕ
  pub item : Option ℕ
  pub reservation : Option ℕ
  pub quantity : ℕ

pub record DeliveryColumns : Type 0 where
  pub warehouse : Option ℕ
  pub items : List DeliveryItem

abbrev pub Delivery : Type 0
Delivery = Document DeliveryStatus DeliveryColumns

pub record ReturnItem : Type 0 where
  pub invoice_item : ℕ
  pub item : Option ℕ
  pub quantity : ℕ

pub record ReturnColumns : Type 0 where
  pub warehouse : Option ℕ
  pub inventory : InventoryStatus
  pub items : List ReturnItem

abbrev pub SalesReturn : Type 0
SalesReturn = Document ReturnStatus ReturnColumns

-- `tax_reference`, `tax_rate`, `taxable_amount` and `tax_amount`, written together.
pub record TaxSnapshot : Type 0 where
  pub reference : ℕ
  pub rate : ℕ
  pub taxable_amount : ℕ
  pub tax_amount : ℕ

-- `tax_status` is `CALCULATED` where there is a snapshot, and `finance_status` is `POSTED` where
-- there is a reference: each pair of columns is written by one statement. No statement writes the
-- tax columns of a credit note.
pub record BillColumns (L : Type 0) : Type 0 where
  pub tax : Option TaxSnapshot
  pub finance : Option ℕ
  pub items : List L

pub record InvoiceItem : Type 0 where
  pub id : ℕ
  pub delivery_item : ℕ
  pub quantity : ℕ
  pub line_total : ℕ

abbrev pub Invoice : Type 0
Invoice = Document BillStatus (BillColumns InvoiceItem)

pub record CreditNoteItem : Type 0 where
  pub return_item : ℕ
  pub quantity : ℕ
  pub line_total : ℕ

abbrev pub CreditNote : Type 0
CreditNote = Document BillStatus (BillColumns CreditNoteItem)

-- The audit events of the documents, which the code writes to the table of all audit events.
pub data Event : Type 0 where
  delivery_created return_created invoice_created credit_note_created : ℕ → Event
  delivery_moved : DeliveryStatus → ℕ → Event
  return_moved : ReturnStatus → ℕ → Event
  invoice_moved credit_note_moved : BillStatus → ℕ → Event

pub record SalesEvent : Type 0 where
  pub tenant : ℕ
  pub actor : ℕ
  pub event : Event

pub record Books : Type 0 where
  pub db : Db
  pub deliveries : List Delivery
  pub returns : List SalesReturn
  pub invoices : List Invoice
  pub credit_notes : List CreditNote
  pub events : List SalesEvent

-- A query of the inventory, or a call of its service, in the same transaction.
abbrev pub on_db : {A : Type 0} → Tx Db A → Tx Books A
on_db m s = elim (m s.db) [ ok (a, t) ↦ ok (a, record s { db = t }) | err e ↦ err e ]

-- One of the four tables, to read and to replace.
pub record Table (S X : Type 0) : Type 0 where
  pub rows : Books → List (Document S X)
  pub put : List (Document S X) → Books → Books

abbrev pub delivery_table : Table DeliveryStatus DeliveryColumns
delivery_table = record { rows = λ s. s.deliveries; put = λ rows s. record s { deliveries = rows } }

abbrev pub return_table : Table ReturnStatus ReturnColumns
return_table = record { rows = λ s. s.returns; put = λ rows s. record s { returns = rows } }

abbrev pub invoice_table : Table BillStatus (BillColumns InvoiceItem)
invoice_table = record { rows = λ s. s.invoices; put = λ rows s. record s { invoices = rows } }

abbrev pub credit_note_table : Table BillStatus (BillColumns CreditNoteItem)
credit_note_table = record {
  rows = λ s. s.credit_notes;
  put = λ rows s. record s { credit_notes = rows };
}

-- `AuditLogger.record` inside the transaction.
unfoldable pub record_event : Context → Event → Tx Books (Unit {0})
record_event c event s = ok (
  tt,
  record s { events = record { tenant = c.tenant; actor = c.user; event = event } ∷ s.events },
)
