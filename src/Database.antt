-- ===== src/Database.antt =====
-- The rows of the tables that the inventory and the sales order component read and write:
-- src/domain/contracts/inventory.ts, order.ts and the column lists of
-- src/infrastructure/database/repositories. Identifiers and texts that the code only compares
-- are numbers; quantities are counted in units of 0.0001, the scale of `numeric(18,4)`. The
-- columns that record who wrote a row and when are left out.
use new_erp_final.Common.{ℕ, ◌≡◌, Bool, true, false, ◌&&◌, Option, List, ◌==◌, arith}

pub data ReservationStatus : Type 0 where
  reserved released fulfilled : ReservationStatus

pub data MovementType : Type 0 where
  receipt issue return : MovementType

pub data OrderStatus : Type 0 where
  draft confirmed cancelled closed : OrderStatus

-- The key of `inventory_stock`, by its unique constraint.
pub record StockKey : Type 0 where
  pub tenant : ℕ
  pub warehouse : ℕ
  pub item : ℕ

pub record Stock : Type 0 where
  pub on_hand : ℕ
  pub reserved_quantity : ℕ
  pub version : ℕ

pub record Warehouse : Type 0 where
  pub id : ℕ
  pub tenant : ℕ
  pub code : ℕ
  pub name : ℕ
  pub active : Bool
  pub version : ℕ

-- The columns of `inventory_items` that the inventory queries test.
pub record Item : Type 0 where
  pub id : ℕ
  pub tenant : ℕ
  pub active : Bool
  pub sales_eligible : Bool
  pub is_deleted : Bool

pub record Reservation : Type 0 where
  pub id : ℕ
  pub tenant : ℕ
  pub branch : ℕ
  pub year : ℕ
  pub warehouse : ℕ
  pub item : ℕ
  pub source_type : ℕ
  pub source : ℕ
  pub key : ℕ
  pub quantity : ℕ
  pub status : ReservationStatus
  pub version : ℕ

pub record Movement : Type 0 where
  pub tenant : ℕ
  pub branch : ℕ
  pub year : ℕ
  pub warehouse : ℕ
  pub item : ℕ
  pub kind : MovementType
  pub quantity : ℕ
  pub source_type : ℕ
  pub source : ℕ
  pub operation_key : ℕ

pub record OrderItem : Type 0 where
  pub item : Option ℕ
  pub quantity : ℕ

pub record Order : Type 0 where
  pub id : ℕ
  pub tenant : ℕ
  pub branch : ℕ
  pub year : ℕ
  pub number : ℕ
  pub quotation : ℕ
  pub warehouse : Option ℕ
  pub is_reserved : Bool
  pub status : OrderStatus
  pub notes : ℕ
  pub items : List OrderItem
  pub is_deleted : Bool
  pub version : ℕ

-- The columns of `sales_quotations` that an order is made from.
pub record Quotation : Type 0 where
  pub id : ℕ
  pub tenant : ℕ
  pub branch : ℕ
  pub year : ℕ
  pub accepted : Bool
  pub is_deleted : Bool
  pub items : List OrderItem

pub data Action : Type 0 where
  warehouse_created reservation_created : Action
  order_created order_updated order_deleted order_reserved : Action
  order_moved : OrderStatus → Action

pub record AuditEvent : Type 0 where
  pub tenant : ℕ
  pub actor : ℕ
  pub action : Action
  pub resource : ℕ

-- `generated` counts the identifiers that the database has made up so far.
pub record Db : Type 0 where
  pub warehouses : List Warehouse
  pub items : List Item
  pub stock : StockKey → Option Stock
  pub reservations : List Reservation
  pub movements : List Movement
  pub quotations : List Quotation
  pub orders : List Order
  pub order_counter : ℕ → ℕ → ℕ
  pub audit : List AuditEvent
  pub generated : ℕ

-- Who asks: `InventoryContext` and `OrderContext`.
pub record Context : Type 0 where
  pub tenant : ℕ
  pub branch : ℕ
  pub year : ℕ
  pub user : ℕ

unfoldable pub same : StockKey → StockKey → Bool
same j k = j.tenant == k.tenant && j.warehouse == k.warehouse && j.item == k.item

pub same_self : (k : StockKey) → same k k ≡ true
unfolding same
same_self k = ground arith

pub same_sound : (j k : StockKey) → same j k ≡ true → j ≡ k
unfolding same
same_sound j k h = ground arith

pub same_ne_tenant : (j k : StockKey) → (j.tenant == k.tenant) ≡ false → same j k ≡ false
unfolding same
same_ne_tenant j k h = ground arith

pub same_comm : (j k : StockKey) → same j k ≡ same k j
unfolding same
same_comm j k = ground arith
