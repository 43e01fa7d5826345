-- ===== src/Procurement/Purchasing.antt =====
-- The rows of suppliers, requisitions, purchase orders and receipts
-- (src/infrastructure/database/repositories/postgres-procurement-repository.ts). The columns that
-- record who wrote a row and when are left out. So are those that no statement reads or changes
-- once they are written: `is_deleted` but of a supplier, the numbers that the database draws, and
-- of a line of an order its number, description, price and unit. Quantities are counted in units
-- of 0.0001.
use new_erp_final.Common.{
  ℕ, ◌+◌, Bool, true, false, ◌&&◌, ◌||◌, Option, List, [], ◌∷◌, ◌==◌, if◌then◌else◌, member,
}
use new_erp_final.Transaction.{Tx, ok, err}
use new_erp_final.Database.{Db, Context}

pub data PurchaseStatus : Type 0 where
  draft submitted approved rejected cancelled : PurchaseStatus

pub data ReceiptStatus : Type 0 where
  draft completed posted cancelled : ReceiptStatus

-- A line of an order or of a receipt: `item_id` and `quantity`.
pub record Line : Type 0 where
  pub item : ℕ
  pub quantity : ℕ

pub record Supplier : Type 0 where
  pub id : ℕ
  pub tenant : ℕ
  pub code : ℕ
  pub name : ℕ
  pub email : Option ℕ
  pub is_deleted : Bool
  pub version : ℕ

-- What requisitions and purchase orders have in common, and the columns of their own.
pub record Planned (X : Type 0) : Type 0 where
  pub id : ℕ
  pub tenant : ℕ
  pub branch : ℕ
  pub year : ℕ
  pub status : PurchaseStatus
  pub lines : List Line
  pub version : ℕ
  pub head : X

pub record RequisitionHead : Type 0 where
  pub required : ℕ
  pub justification : Option ℕ

pub record OrderHead : Type 0 where
  pub supplier : ℕ
  pub requisition : Option ℕ
  pub date : ℕ

abbrev pub Requisition : Type 0
Requisition = Planned RequisitionHead

abbrev pub PurchaseOrder : Type 0
PurchaseOrder = Planned OrderHead

pub record Receipt : Type 0 where
  pub id : ℕ
  pub tenant : ℕ
  pub branch : ℕ
  pub year : ℕ
  pub order : ℕ
  pub warehouse : ℕ
  pub date : ℕ
  pub key : ℕ
  pub status : ReceiptStatus
  pub lines : List Line
  pub version : ℕ

pub data PurchaseAction : Type 0 where
  created updated completed cancelled : PurchaseAction
  supplier_created supplier_updated supplier_deleted : PurchaseAction
  requisition_created requisition_updated order_created order_updated : PurchaseAction

pub record PurchaseEvent : Type 0 where
  pub tenant : ℕ
  pub actor : ℕ
  pub action : PurchaseAction
  pub resource : ℕ

pub record Purchasing : Type 0 where
  pub db : Db
  pub suppliers : List Supplier
  pub requisitions : List Requisition
  pub orders : List PurchaseOrder
  pub receipts : List Receipt
  pub events : List PurchaseEvent

-- A call of the inventory service in the same transaction.
abbrev pub on_stock : {A : Type 0} → Tx Db A → Tx Purchasing A
on_stock m s = elim (m s.db) [ ok (a, t) ↦ ok (a, record s { db = t }) | err e ↦ err e ]

abbrev pub is_approved : PurchaseStatus → Bool
is_approved approved = true
is_approved _ = false

abbrev pub is_draft : ReceiptStatus → Bool
is_draft draft = true
is_draft _ = false

abbrev pub is_completed : ReceiptStatus → Bool
is_completed completed = true
is_completed _ = false

-- `id=$1 AND tenant_id=$2 AND branch_id=$3`
unfoldable pub is_receipt : Context → ℕ → Receipt → Bool
is_receipt c id r = r.id == id && r.tenant == c.tenant && r.branch == c.branch

unfoldable pub is_planned : {X : Type 0} → Context → ℕ → Planned X → Bool
is_planned c id o = o.id == id && o.tenant == c.tenant && o.branch == c.branch

abbrev pub has_item : ℕ → Line → Bool
has_item item l = l.item == item

-- `new Set(lines.map((line) => line.itemId)).size !== lines.length`
unfoldable pub has_duplicates : List Line → Bool
has_duplicates [] = false
has_duplicates (l ∷ ls) = member (has_item l.item) ls || has_duplicates ls

-- The sum of the quantities of an item in the lines of a receipt.
unfoldable pub quantity_in : ℕ → List Line → ℕ
quantity_in item [] = 0
quantity_in item (l ∷ ls) = (if l.item == item then l.quantity else 0) + quantity_in item ls

-- The receipts that count against an order: those of the caller's branch that are completed.
unfoldable pub counts : Context → ℕ → Receipt → Bool
counts c order r =
    r.order == order && r.tenant == c.tenant && r.branch == c.branch && is_completed r.status

abbrev pub share : (Receipt → Bool) → ℕ → Receipt → ℕ
share p item r = if p r then quantity_in item r.lines else 0

-- `COALESCE((SELECT SUM(prl.quantity) …),0)` over the receipts that the condition names.
unfoldable pub received : (Receipt → Bool) → ℕ → List Receipt → ℕ
received p item [] = 0
received p item (r ∷ rs) = share p item r + received p item rs
