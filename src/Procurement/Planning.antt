-- ===== src/Procurement/Planning.antt =====
-- The operations on suppliers, requisitions and purchase orders of
-- src/infrastructure/database/repositories/postgres-procurement-repository.ts, query by query. The
-- lists are left out, and so are the lengths of the text columns and the foreign keys of branch
-- and financial year.
use new_erp_final.Common.{
  ℕ, ◌+◌, Bool, true, false, not, ◌&&◌, ◌||◌, Option, none, some, List, ◌∷◌, ◌==◌, if◌then◌else◌,
  find, update_first, member,
}
use new_erp_final.Transaction.{
  Tx, validation, constraint, ◌>>=◌, ◌>>◌, pure, throw, conflict, gets, modify, require,
  with_tenant, no_supplier,
}
use new_erp_final.Database.{Context}
use new_erp_final.Environment.{Env}
use new_erp_final.Procurement.Purchasing.{
  PurchaseStatus, draft, Line, Supplier, Planned, RequisitionHead, OrderHead, Requisition,
  PurchaseOrder, Purchasing, is_planned,
}

-- `id=$1 AND tenant_id=$2 AND is_deleted=false`
unfoldable pub is_supplier : Context → ℕ → Supplier → Bool
is_supplier c id x = x.id == id && x.tenant == c.tenant && not x.is_deleted

abbrev pub is_open : PurchaseStatus → Bool
is_open draft = true
is_open _ = false

-- A table of the statements that take its name as an argument.
pub record Table (X : Type 0) : Type 0 where
  pub rows : Purchasing → List X
  pub put : List X → Purchasing → Purchasing
  pub version : X → ℕ

abbrev pub suppliers : Table Supplier
suppliers = record {
  rows = λ s. s.suppliers;
  put = λ xs s. record s { suppliers = xs };
  version = λ x. x.version;
}

abbrev pub requisitions : Table Requisition
requisitions = record {
  rows = λ s. s.requisitions;
  put = λ xs s. record s { requisitions = xs };
  version = λ x. x.version;
}

abbrev pub orders : Table PurchaseOrder
orders = record {
  rows = λ s. s.orders;
  put = λ xs s. record s { orders = xs };
  version = λ x. x.version;
}

abbrev pub with_status : {X : Type 0} → PurchaseStatus → Planned X → Planned X
with_status status x = record x { status = status; version = x.version + 1 }

abbrev pub with_head : {X : Type 0} → X → Planned X → Planned X
with_head head x = record x { head = head; version = x.version + 1 }

abbrev pub planned : {X : Type 0} → Context → ℕ → X → List Line → Planned X
planned c id head lines = record {
  id = id;
  tenant = c.tenant;
  branch = c.branch;
  year = c.year;
  status = draft;
  lines = lines;
  version = 1;
  head = head;
}

module _ (env : Env) where
  -- An `UPDATE` of the row that the first condition finds, where the version and the second
  -- condition hold, and what follows if it wrote nothing.
  unfoldable pub write_row :
      {X : Type 0}
      → Table X
      → Context
      → (X → Bool)
      → (X → Bool)
      → ℕ
      → (X → X)
      → Tx Purchasing (Option X)
  write_row table c here ready version f = with_tenant env.is_uuid c.tenant (do
    row ← gets (λ s. find here (table.rows s))
    elim row [
      | none ↦ pure none
      | some x ↦
          if table.version x == version
          then (if ready x
              then modify (λ s. table.put (update_first here f (table.rows s)) s)
                >> pure (some (f x))
              else pure none)
          else throw conflict
    ])

  -- The private `transition` for requisitions and purchase orders.
  unfoldable pub transition :
      {X : Type 0}
      → Table (Planned X)
      → Context
      → ℕ
      → PurchaseStatus
      → ℕ
      → Tx Purchasing (Option (Planned X))
  unfolding write_row
  transition table c id status version =
      write_row table c (is_planned c id) (λ x. true) version (with_status status)

  -- `updateRequisition`: both columns of its own.
  unfoldable pub update_requisition :
      Context → ℕ → RequisitionHead → ℕ → Tx Purchasing (Option Requisition)
  unfolding write_row
  update_requisition c id head version =
      write_row requisitions c (is_planned c id) (λ x. is_open x.status) version (with_head head)

  -- `updatePurchaseOrder`: `order_date=$5`.
  unfoldable pub update_date : Context → ℕ → ℕ → ℕ → Tx Purchasing (Option PurchaseOrder)
  unfolding write_row
  update_date c id date version =
      write_row orders c (is_planned c id) (λ x. is_open x.status) version
        (λ x. with_head (record x.head { date = date }) x)

  unfoldable pub get :
      {X : Type 0} → Table (Planned X) → Context → ℕ → Tx Purchasing (Option (Planned X))
  get table c id =
      with_tenant env.is_uuid c.tenant (gets (λ s. find (is_planned c id) (table.rows s)))

  abbrev fresh_id : Purchasing → ℕ
  fresh_id s = env.gen_uuid s.db.generated

  abbrev used_id : Purchasing → Purchasing
  used_id s = record s { db = record s.db { generated = s.db.generated + 1 } }

  -- The `INSERT` of a document and its lines: the primary key is an identifier that the database
  -- draws.
  unfoldable pub insert :
      {X : Type 0} → Table (Planned X) → Context → X → List Line → Tx Purchasing (Planned X)
  insert table c head lines = do
    id ← gets fresh_id
    modify used_id
    taken ← gets (λ s. member (λ x. x.id == id) (table.rows s))
    require (not taken) constraint
    modify (λ s. table.put (planned c id head lines ∷ table.rows s) s)
    pure (planned c id head lines)

  unfoldable pub create_requisition :
      Context → RequisitionHead → List Line → Tx Purchasing Requisition
  unfolding insert
  create_requisition c head lines =
      with_tenant env.is_uuid c.tenant (insert requisitions c head lines)

  -- The foreign key of `requisition_id`, which names no tenant.
  unfoldable pub is_reference : Option ℕ → List Requisition → Bool
  is_reference none xs = true
  is_reference (some id) xs = member (λ x. x.id == id) xs

  unfoldable pub create_order : Context → OrderHead → List Line → Tx Purchasing PurchaseOrder
  unfolding insert is_reference
  create_order c head lines = with_tenant env.is_uuid c.tenant (do
    supplier ← gets (λ s. member (is_supplier c head.supplier) s.suppliers)
    require supplier (validation no_supplier)
    linked ← gets (λ s. is_reference head.requisition s.requisitions)
    require linked constraint
    insert orders c head lines)

  unfoldable pub get_supplier : Context → ℕ → Tx Purchasing (Option Supplier)
  get_supplier c id =
      with_tenant env.is_uuid c.tenant (gets (λ s. find (is_supplier c id) s.suppliers))

  -- A code that is not given is drawn by the database; a code is used once by a tenant.
  unfoldable pub create_supplier :
      (ℕ → ℕ) → Context → ℕ → Option ℕ → Option ℕ → Tx Purchasing Supplier
  create_supplier draw_code c name given email = with_tenant env.is_uuid c.tenant (do
    id ← gets fresh_id
    let code : ℕ = elim given [ none ↦ draw_code id | some code ↦ code ]
    modify used_id
    taken ← gets (λ s.
        member (λ x. x.id == id) s.suppliers
        || member (λ x. x.tenant == c.tenant && x.code == code) s.suppliers)
    require (not taken) constraint
    let x : Supplier = record {
      id = id;
      tenant = c.tenant;
      code = code;
      name = name;
      email = email;
      is_deleted = false;
      version = 1;
    }
    modify (λ s. record s { suppliers = x ∷ s.suppliers })
    pure x)

  unfoldable pub update_supplier : Context → ℕ → ℕ → Option ℕ → ℕ → Tx Purchasing (Option Supplier)
  unfolding write_row
  update_supplier c id name email version =
      write_row suppliers c (is_supplier c id) (λ x. true) version
        (λ x. record x { name = name; email = email; version = x.version + 1 })

  unfoldable pub delete_supplier : Context → ℕ → ℕ → Tx Purchasing (Option Supplier)
  delete_supplier c id version = with_tenant env.is_uuid c.tenant (do
    row ← gets (λ s. find (is_supplier c id) s.suppliers)
    elim row [
      | none ↦ pure none
      | some x ↦
          if x.version == version
          then (do
            let gone = record x { is_deleted = true; version = x.version + 1 }
            modify (λ s. record s {
              suppliers = update_first (is_supplier c id) (λ y. gone) s.suppliers;
            })
            pure (some gone))
          else pure none
    ])
