-- ===== src/Procurement/Repository.antt =====
-- The operations on receipts of
-- src/infrastructure/database/repositories/postgres-procurement-repository.ts, query by query. The
-- list is left out.
use new_erp_final.Common.{
  ℕ, suc, ◌+◌, Bool, true, false, not, ◌&&◌, Option, none, some, List, [], ◌∷◌, ◌==◌, ltb,
  if◌then◌else◌, find, update_first, member,
}
use new_erp_final.Transaction.{
  Tx, validation, conflict, bad_statement, ◌>>=◌, ◌>>◌, pure, throw, gets, modify, require,
  or_throw, with_tenant, bad_transition, not_draft, no_approved_order, exceeds_order, foreign_item,
}
use new_erp_final.Database.{Context}
use new_erp_final.Environment.{Env}
use new_erp_final.Procurement.Purchasing.{
  PurchaseOrder, Line, Receipt, ReceiptStatus, draft, completed, posted, cancelled, Purchasing,
  is_approved, is_draft, is_receipt, is_planned, has_item, counts, received,
}

-- What `createReceipt` is given: the texts that the service has not checked are as they came.
pub record Request : Type 0 where
  pub order : ℕ
  pub warehouse : ℕ
  pub date : ℕ
  pub lines : List Line
  pub key : ℕ

-- What `updateReceipt` is given.
pub record Change : Type 0 where
  pub id : ℕ
  pub warehouse : ℕ
  pub date : ℕ
  pub lines : List Line
  pub expected_version : ℕ

-- The result of `completeReceipt`: `{ receipt, lines, alreadyCompleted }`; the lines are those of
-- the receipt.
pub record Completion : Type 0 where
  pub receipt : Receipt
  pub already : Bool

abbrev pub with_status : ReceiptStatus → Receipt → Receipt
with_status status r = record r { status = status; version = r.version + 1 }

-- `… AND status='APPROVED' FOR UPDATE`, where the order's primary key is in the condition.
unfoldable pub approved_order : Context → ℕ → Tx Purchasing PurchaseOrder
approved_order c order = do
  row ← gets (λ s. find (is_planned c order) s.orders)
  o ← or_throw row (validation no_approved_order)
  require (is_approved o.status) (validation no_approved_order)
  pure o

-- `!allowed || line.quantity > allowed.quantity - allowed.received`
unfoldable pub exceeds : (Receipt → Bool) → List Receipt → List Line → Line → Bool
exceeds p receipts ordered l = elim (find (has_item l.item) ordered) [
  | none ↦ true
  | some allowed ↦ ltb allowed.quantity (l.quantity + received p l.item receipts)
]

-- `requested.size`, the number of items that the lines name.
unfoldable pub item_count : List Line → ℕ
item_count [] = 0
item_count (l ∷ ls) =
    let rest = item_count ls in if member (has_item l.item) ls then rest else suc rest

-- `lines.filter((line) => requested.has(line.itemId)).length`, of the lines of the order.
unfoldable pub named_count : List Line → List Line → ℕ
named_count requested [] = 0
named_count requested (o ∷ os) =
    let rest = named_count requested os in
    if member (has_item o.item) requested then suc rest else rest

-- `INSERT … ON CONFLICT(receipt_id,item_id) DO UPDATE SET quantity=EXCLUDED.quantity`
unfoldable pub put_line : Line → List Line → List Line
put_line l [] = l ∷ []
put_line l (x ∷ xs) =
    let rest = put_line l xs in
    if x.item == l.item then record x { quantity = l.quantity } ∷ xs else x ∷ rest

unfoldable pub put_lines : List Line → List Line → List Line
put_lines [] stored = stored
put_lines (l ∷ ls) stored = put_lines ls (put_line l stored)

module _ (env : Env) where
  abbrev pub receipt_of : Context → Request → ℕ → Receipt
  receipt_of c i id = record {
    id = id;
    tenant = c.tenant;
    branch = c.branch;
    year = c.year;
    order = i.order;
    warehouse = i.warehouse;
    date = i.date;
    key = i.key;
    status = draft;
    lines = put_lines i.lines [];
    version = 1;
  }

  -- The insertion of a new receipt. No row has the key, as the query before has shown, so that
  -- its `ON CONFLICT` has no effect.
  unfoldable pub insert : Context → Request → Tx Purchasing Receipt
  insert c i s =
      let r = receipt_of c i (env.gen_uuid s.db.generated) in
      pure r (record s {
        db = record s.db { generated = s.db.generated + 1 };
        receipts = r ∷ s.receipts;
      })

  -- `createReceipt`: a request whose key is taken gets the receipt that has it.
  unfoldable pub create : Context → Request → Tx Purchasing Receipt
  create c i = with_tenant env.is_uuid c.tenant (do
    o ← approved_order c i.order
    prior ← gets (λ s. find (λ r. r.tenant == c.tenant && r.key == i.key) s.receipts)
    elim prior [
      | some r ↦ pure r
      | none ↦ do
        receipts ← gets (λ s. s.receipts)
        require (not (member (exceeds (counts c i.order) receipts o.lines) i.lines))
            (validation exceeds_order)
        require (item_count i.lines == named_count i.lines o.lines) (validation foreign_item)
        insert c i
    ])

  unfoldable pub get_by_id : Context → ℕ → Tx Purchasing (Option Receipt)
  get_by_id c id = with_tenant env.is_uuid c.tenant (gets (λ s. find (is_receipt c id) s.receipts))

  -- The row that the statement before has found and locked is written.
  unfoldable pub store : Context → ℕ → (Receipt → Receipt) → Receipt → Tx Purchasing Receipt
  store c id f r =
      modify (λ s. record s { receipts = update_first (is_receipt c id) f s.receipts })
      >> pure (f r)

  -- `updateReceipt`: the query of the order's lines names `pol.branch_id`, a column that their table
  -- does not have, and PostgreSQL refuses it. What follows it in the code is never reached.
  unfoldable pub update : Context → Change → Tx Purchasing (Option Receipt)
  update c i = with_tenant env.is_uuid c.tenant (do
    row ← gets (λ s. find (is_receipt c i.id) s.receipts)
    elim row [
      | none ↦ pure none
      | some r ↦ do
        require (is_draft r.status) (validation not_draft)
        require (r.version == i.expected_version) conflict
        o ← approved_order c r.order
        throw bad_statement
    ])

  -- What `completeReceipt` does with a receipt that has not been completed.
  unfoldable pub complete_draft : Context → ℕ → ℕ → Receipt → Tx Purchasing (Option Completion)
  complete_draft c id expected_version r = do
    require (is_draft r.status) (validation bad_transition)
    o ← approved_order c r.order
    receipts ← gets (λ s. s.receipts)
    require (not (member (exceeds (counts c r.order) receipts o.lines) r.lines))
        (validation exceeds_order)
    require (r.version == expected_version) conflict
    x ← store c id (with_status completed) r
    pure (some (record { receipt = x; already = false }))

  abbrev pub is_done : ReceiptStatus → Bool
  is_done completed = true
  is_done posted = true
  is_done _ = false

  unfoldable pub complete : Context → ℕ → ℕ → Tx Purchasing (Option Completion)
  complete c id expected_version = with_tenant env.is_uuid c.tenant (do
    row ← gets (λ s. find (is_receipt c id) s.receipts)
    elim row [
      | none ↦ pure none
      | some r ↦
          if is_done r.status
          then pure (some (record { receipt = r; already = true }))
          else complete_draft c id expected_version r
    ])

  unfoldable pub cancel : Context → ℕ → ℕ → Tx Purchasing (Option Receipt)
  cancel c id expected_version = with_tenant env.is_uuid c.tenant (do
    row ← gets (λ s. find (is_receipt c id) s.receipts)
    elim row [
      | none ↦ pure none
      | some r ↦
          if is_draft r.status && r.version == expected_version
          then store c id (with_status cancelled) r >>= (λ x. pure (some x))
          else pure none
    ])

  -- The private `transition`, for the table of receipts.
  unfoldable pub transition : Context → ℕ → ReceiptStatus → ℕ → Tx Purchasing (Option Receipt)
  transition c id status expected_version = with_tenant env.is_uuid c.tenant (do
    row ← gets (λ s. find (is_receipt c id) s.receipts)
    elim row [
      | none ↦ pure none
      | some r ↦
          if r.version == expected_version
          then store c id (with_status status) r >>= (λ x. pure (some x))
          else throw conflict
    ])
