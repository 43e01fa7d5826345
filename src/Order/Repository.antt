-- ===== src/Order/Repository.antt =====
-- src/infrastructure/database/repositories/postgres-order-repository.ts, query by query. The
-- customer, the prices and the totals that an order copies from its quotation are left out; its
-- number is the value of the counter, which the code pads with zeros behind `SO-`.
use new_erp_final.Common.{
  ℕ, ◌+◌, Bool, true, false, not, ◌&&◌, Option, none, some, List, [], ◌∷◌, ◌==◌, if◌then◌else◌,
  find, update_first, member, is_some,
}
use new_erp_final.Transaction.{
  Tx, validation, constraint, ◌>>=◌, ◌>>◌, pure, gets, modify, require, or_throw, with_tenant,
  not_accepted, no_active_warehouse, no_item_master,
}
use new_erp_final.Database.{OrderStatus, draft, OrderItem, Order, Quotation, Warehouse, Db, Context}
use new_erp_final.Environment.{Env}

abbrev pub is_accepted : Context → ℕ → Quotation → Bool
is_accepted c id q =
    q.id == id
    && q.tenant == c.tenant
    && q.branch == c.branch
    && q.year == c.year
    && q.accepted
    && not q.is_deleted

-- `warehouse_id` may be `undefined`, which no row has.
abbrev pub is_active_warehouse : Context → Option ℕ → Warehouse → Bool
is_active_warehouse c none w = false
is_active_warehouse c (some id) w = w.id == id && w.tenant == c.tenant && w.active

-- `!items.length || items.some((line) => !line.itemId)`
abbrev pub lacks_item : List OrderItem → Bool
lacks_item [] = true
lacks_item (x ∷ xs) = member (λ i. not (is_some i.item)) (x ∷ xs)

-- The unique index on `(tenant_id, order_number)`.
abbrev pub has_number : ℕ → ℕ → Order → Bool
has_number tenant number o = o.tenant == tenant && o.number == number

-- The row of `code_counters` for the tenant and, as its scope, the branch.
abbrev pub next_number : Context → Db → ℕ
next_number c db = db.order_counter c.tenant c.branch + 1

abbrev pub count_up : Context → Db → Db
count_up c db = record db {
  order_counter =
      λ t b. if t == c.tenant && b == c.branch then next_number c db else db.order_counter t b;
}

unfoldable pub order_of : ℕ → ℕ → Context → Option ℕ → Quotation → Order
order_of id number c warehouse q = record {
  id = id;
  tenant = c.tenant;
  branch = c.branch;
  year = c.year;
  number = number;
  quotation = q.id;
  warehouse = warehouse;
  is_reserved = false;
  status = draft;
  notes = 0;
  items = q.items;
  is_deleted = false;
  version = 1;
}

unfoldable pub create : Env → Context → ℕ → Option ℕ → Tx Db Order
create env c quotation warehouse = with_tenant env.is_uuid c.tenant (do
  row ← gets (λ db. find (is_accepted c quotation) db.quotations)
  q ← or_throw row (validation not_accepted)
  warehouses ← gets (λ db. db.warehouses)
  require (member (is_active_warehouse c warehouse) warehouses) (validation no_active_warehouse)
  require (not (lacks_item q.items)) (validation no_item_master)
  number ← gets (next_number c)
  modify (count_up c)
  orders ← gets (λ db. db.orders)
  require (not (member (has_number c.tenant number) orders)) constraint
  n ← gets (λ db. db.generated)
  let o = order_of (env.gen_uuid n) number c warehouse q
  modify (λ db. record db { orders = o ∷ db.orders; generated = n + 1 })
  pure o)

-- The columns that every query of one order names, on the row that has the primary key.
unfoldable pub is_order : Context → ℕ → Order → Bool
is_order c id o =
    o.id == id
    && o.tenant == c.tenant
    && o.branch == c.branch
    && o.year == c.year
    && not o.is_deleted

unfoldable pub get_by_id : Env → Context → ℕ → Tx Db (Option Order)
get_by_id env c id = with_tenant env.is_uuid c.tenant (gets (λ db. find (is_order c id) db.orders))

-- `UPDATE sales_orders … WHERE` the primary key, the caller's context and a further condition:
-- the row that was changed, if there is one.
unfoldable pub mutate : Env → Context → ℕ → (Order → Bool) → (Order → Order) → Tx Db (Option Order)
mutate env c id p f = with_tenant env.is_uuid c.tenant (
    gets (λ db. find (is_order c id) db.orders) >>= λ row. elim row [
      | none ↦ pure none
      | some o ↦
          if p o
          then modify (λ db. record db { orders = update_first (is_order c id) f db.orders })
            >> pure (some (f o))
          else pure none
    ])

abbrev pub is_draft : OrderStatus → Bool
is_draft draft = true
is_draft _ = false

abbrev pub with_notes : ℕ → Order → Order
with_notes notes o = record o { notes = notes; version = o.version + 1 }

unfoldable pub update : Env → Context → ℕ → ℕ → ℕ → Tx Db (Option Order)
unfolding mutate
update env c id notes expected_version =
    mutate env c id (λ o. is_draft o.status && o.version == expected_version) (with_notes notes)

abbrev pub with_status : OrderStatus → Order → Order
with_status status o = record o { status = status; version = o.version + 1 }

unfoldable pub transition : Env → Context → ℕ → OrderStatus → ℕ → Tx Db (Option Order)
unfolding mutate
transition env c id status expected_version =
    mutate env c id (λ o. o.version == expected_version) (with_status status)

abbrev pub with_reservation : Bool → Order → Order
with_reservation is_reserved o = record o { is_reserved = is_reserved; version = o.version + 1 }

unfoldable pub update_reservation_status : Env → Context → ℕ → Bool → Tx Db (Option Order)
unfolding mutate
update_reservation_status env c id is_reserved =
    mutate env c id (λ o. true) (with_reservation is_reserved)

abbrev pub deleted : Order → Order
deleted o = record o { is_deleted = true; version = o.version + 1 }

unfoldable pub soft_delete : Env → Context → ℕ → Tx Db (Option Order)
unfolding mutate
soft_delete env c id = mutate env c id (λ o. is_draft o.status) deleted
