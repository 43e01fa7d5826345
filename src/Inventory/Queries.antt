-- ===== src/Inventory/Queries.antt =====
-- src/infrastructure/database/repositories/postgres-inventory-repository.ts, query by query. A
-- new row is put in front of its table; the unique constraints and checks of migration
-- 0003_inventory.sql that a query can break are written out where it stands.
use new_erp_final.Common.{
  ℕ, ◌+◌, ◌-◌, Bool, true, false, not, ◌&&◌, Option, none, some, ◌∷◌, ltb, leb, ◌==◌, if◌then◌else◌,
  find, update_first, member,
}
use mathlib.Core.Option
use new_erp_final.Transaction.{
  Tx, validation, constraint, runtime, ◌>>=◌, ◌>>◌, pure, gets, modify, require, or_throw,
  with_tenant, no_active_warehouse, no_sales_item, other_quantity, no_reservation,
}
use new_erp_final.Database.{
  ReservationStatus, reserved, MovementType, StockKey, Stock, Warehouse, Reservation, Movement, Db,
  Context, same,
}
use new_erp_final.Environment.{Env}

-- The input of `receiveStock`, `reserveStock` and `returnStock`; `key` is the operation key or
-- the idempotency key.
pub record Request : Type 0 where
  pub warehouse : ℕ
  pub item : ℕ
  pub quantity : ℕ
  pub source_type : ℕ
  pub source : ℕ
  pub key : ℕ

abbrev pub stock_key : Context → Request → StockKey
stock_key c i = record { tenant = c.tenant; warehouse = i.warehouse; item = i.item }

abbrev pub reservation_key : Reservation → StockKey
reservation_key r = record { tenant = r.tenant; warehouse = r.warehouse; item = r.item }

abbrev pub movement_key : Movement → StockKey
movement_key m = record { tenant = m.tenant; warehouse = m.warehouse; item = m.item }

-- Writes one row of `inventory_stock`.
abbrev pub put_stock : StockKey → Stock → Db → Db
put_stock k row db = record db { stock = λ j. if same j k then some row else db.stock j }

-- `UPDATE inventory_stock SET … WHERE` the key: no row, no change.
abbrev pub update_stock : StockKey → (Stock → Stock) → Db → Db
update_stock k f db = elim (db.stock k) [ none ↦ db | some row ↦ put_stock k (f row) db ]

abbrev pub empty_stock : Stock
empty_stock = record { on_hand = 0; reserved_quantity = 0; version = 1 }

abbrev pub add_on_hand : ℕ → Stock → Stock
add_on_hand q s = record s { on_hand = s.on_hand + q; version = s.version + 1 }

abbrev pub add_reserved : ℕ → Stock → Stock
add_reserved q s = record s { reserved_quantity = s.reserved_quantity + q; version = s.version + 1 }

abbrev pub drop_reserved : ℕ → Stock → Stock
drop_reserved q s = record s {
  reserved_quantity = s.reserved_quantity - q;
  version = s.version + 1;
}

abbrev pub issue_stock : ℕ → Stock → Stock
issue_stock q s = record s {
  on_hand = s.on_hand - q;
  reserved_quantity = s.reserved_quantity - q;
  version = s.version + 1;
}

-- `INSERT INTO inventory_stock … ON CONFLICT … DO NOTHING`
abbrev pub ensured : StockKey → Db → Db
ensured k db = elim (db.stock k) [ none ↦ put_stock k empty_stock db | some row ↦ db ]

unfoldable pub ensure_stock : StockKey → Tx Db (Unit {0})
ensure_stock k = modify (ensured k)

abbrev pub is_operation : ℕ → ℕ → ℕ → Movement → Bool
is_operation tenant branch key m =
    m.tenant == tenant && m.branch == branch && m.operation_key == key

unfoldable pub find_movement : Context → ℕ → Tx Db (Option Movement)
find_movement c key = gets (λ db. find (is_operation c.tenant c.branch key) db.movements)

abbrev pub clashes : Movement → Movement → Bool
clashes m n = n.tenant == m.tenant && n.operation_key == m.operation_key

-- `INSERT INTO inventory_movements`, with its unique operation key and its check on the quantity.
unfoldable pub insert_movement : Movement → Tx Db (Unit {0})
insert_movement m = do
  movements ← gets (λ db. db.movements)
  require (not (member (clashes m) movements)) constraint
  require (ltb 0 m.quantity) constraint
  modify (λ db. record db { movements = m ∷ db.movements })

unfoldable pub assert_warehouse_and_item : Context → Request → Tx Db (Unit {0})
assert_warehouse_and_item c i = do
  warehouses ← gets (λ db. db.warehouses)
  require (member (λ w. w.id == i.warehouse && w.tenant == c.tenant && w.active) warehouses)
      (validation no_active_warehouse)
  items ← gets (λ db. db.items)
  require
      (member
        (λ x.
          x.id == i.item
          && x.tenant == c.tenant
          && x.active
          && x.sales_eligible
          && not x.is_deleted)
        items)
      (validation no_sales_item)

-- `mapStock` of no row throws a `TypeError`.
unfoldable pub stock_for : StockKey → Tx Db Stock
stock_for k = gets (λ db. db.stock k) >>= λ row. or_throw row runtime

unfoldable pub movement_of : MovementType → Context → Request → Movement
movement_of kind c i = record {
  tenant = c.tenant;
  branch = c.branch;
  year = c.year;
  warehouse = i.warehouse;
  item = i.item;
  kind = kind;
  quantity = i.quantity;
  source_type = i.source_type;
  source = i.source;
  operation_key = i.key;
}

-- The body that `receiveStock` and `returnStock` share once no movement has the key.
unfoldable pub post_stock : MovementType → Context → Request → Tx Db (Unit {0})
unfolding ensure_stock insert_movement
post_stock kind c i = do
  assert_warehouse_and_item c i
  ensure_stock (stock_key c i)
  modify (update_stock (stock_key c i) (add_on_hand i.quantity))
  insert_movement (movement_of kind c i)

-- `source_id`, and with it the columns that make a reservation unique.
abbrev pub from_source : Context → ℕ → ℕ → Reservation → Bool
from_source c source_type source r =
    r.tenant == c.tenant
    && r.branch == c.branch
    && r.year == c.year
    && r.source_type == source_type
    && r.source == source

abbrev pub for_line : Context → Request → Reservation → Bool
for_line c i r = from_source c i.source_type i.source r && r.item == i.item

abbrev pub reservation_clashes : Reservation → Reservation → Bool
reservation_clashes r x =
    x.tenant == r.tenant
    && x.source_type == r.source_type
    && x.source == r.source
    && x.item == r.item

unfoldable pub reservation_of : ℕ → Context → Request → Reservation
reservation_of id c i = record {
  id = id;
  tenant = c.tenant;
  branch = c.branch;
  year = c.year;
  warehouse = i.warehouse;
  item = i.item;
  source_type = i.source_type;
  source = i.source;
  key = i.key;
  quantity = i.quantity;
  status = reserved;
  version = 1;
}

-- A reservation of the same source and item: the same quantity is a replay.
unfoldable pub replay_reservation : ℕ → Reservation → Tx Db Reservation
replay_reservation quantity r =
    require (r.quantity == quantity) (validation other_quantity) >> pure r

-- `Number(availableQuantity) < quantity`, or no row.
abbrev pub covers : ℕ → Option Stock → Bool
covers q none = false
covers q (some s) = leb q (s.on_hand - s.reserved_quantity)

unfoldable pub has_id : ℕ → Reservation → Bool
has_id id r = r.id == id

-- `SET status=…,version=version+1` on a row of the tenant.
unfoldable pub restatus : Context → ReservationStatus → Reservation → Reservation
restatus c status r =
    if r.tenant == c.tenant then record r { status = status; version = r.version + 1 } else r

-- `WHERE id=$2 AND tenant_id=$3`, on the row that has the primary key.
unfoldable pub set_status : Context → ℕ → ReservationStatus → Db → Db
set_status c id status db = record db {
  reservations = update_first (has_id id) (restatus c status) db.reservations;
}

unfoldable pub lock_reservation : Context → ℕ → Tx Db Reservation
lock_reservation c id = do
  row ← gets (λ db. find (has_id id) db.reservations)
  r ← or_throw row (validation no_reservation)
  require (r.tenant == c.tenant && r.branch == c.branch && r.year == c.year)
      (validation no_reservation)
  pure r

abbrev pub reread : ℕ → Tx Db Reservation
reread id = do or_throw (← gets (λ db. find (has_id id) db.reservations)) runtime

abbrev pub warehouse_of : ℕ → Context → ℕ → ℕ → Warehouse
warehouse_of id c code name = record {
  id = id;
  tenant = c.tenant;
  code = code;
  name = name;
  active = true;
  version = 1;
}

-- `createWarehouse`, with its unique code.
unfoldable pub insert_warehouse : Env → Context → ℕ → ℕ → Tx Db Warehouse
insert_warehouse env c code name = with_tenant env.is_uuid c.tenant (do
  rows ← gets (λ db. db.warehouses)
  require (not (member (λ w. w.tenant == c.tenant && w.code == code) rows)) constraint
  n ← gets (λ db. db.generated)
  let w = warehouse_of (env.gen_uuid n) c code name
  modify (λ db. record db { warehouses = w ∷ db.warehouses; generated = n + 1 })
  pure w)

-- The condition of `updateWarehouse`.
abbrev pub is_current : Context → ℕ → ℕ → Warehouse → Bool
is_current c id expected_version w =
    w.tenant == c.tenant && w.id == id && w.version == expected_version

abbrev pub with_details : ℕ → Bool → Warehouse → Warehouse
with_details name active w = record w { name = name; active = active; version = w.version + 1 }

-- `updateWarehouse`: `none` where no row has the identifier and the expected version.
unfoldable pub update_warehouse : Env → Context → ℕ → ℕ → Bool → ℕ → Tx Db (Option Warehouse)
update_warehouse env c id name active expected_version = with_tenant env.is_uuid c.tenant (do
  row ← gets (λ db. find (is_current c id expected_version) db.warehouses)
  modify (λ db. record db {
    warehouses =
        update_first (is_current c id expected_version) (with_details name active) db.warehouses;
  })
  pure (Option.map (with_details name active) row))
