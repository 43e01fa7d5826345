-- ===== src/Order/Lifecycle.antt =====
-- The life cycle of a sales order in src/application/services/order-service.ts: which statuses
-- follow one another, and how the version of the row guards each change.
use Prim.Native.String.{String}
use new_erp_final.Common.{
  ℕ, ◌≡◌, ◌≢◌, refl, Bool, true, false, Option, none, some, List, ◌∷◌, arith, ◌==◌, find,
  update_first, member, if◌then◌else◌, ◌⊎◌,
}
use new_erp_final.Transaction.{ok, err, validation, conflict, bad_transition}
use new_erp_final.Database.{
  OrderStatus, draft, confirmed, cancelled, closed, Order, Db, Context, order_moved,
}
use new_erp_final.Environment.{Env, Texts}
use new_erp_final.Authorization.{Authorization, authorize, has_permission, has_permission-none}
use new_erp_final.Inventory.Service.{record_event}
use new_erp_final.Order.Repository
use new_erp_final.Order.Repository.{is_order, has_number, next_number, mutate, is_accepted}
use new_erp_final.Order.Service
use new_erp_final.Order.Service.{InventoryPort, transition_permission, same_status, transitions}

-- The diagram of the statuses.
infix 40 ◌⟶◌
pub data ◌⟶◌ : OrderStatus → OrderStatus → Type 0 where
  confirm : draft ⟶ confirmed
  drop : draft ⟶ cancelled
  cancel : confirmed ⟶ cancelled
  close : confirmed ⟶ closed

ruleset edges = (confirm, drop, cancel, close)

transitions-⟶ : (a b : OrderStatus) → member (same_status b) (transitions a) ≡ true → a ⟶ b
transitions-⟶ draft draft h = cc
transitions-⟶ draft confirmed h = confirm
transitions-⟶ draft cancelled h = drop
transitions-⟶ draft closed h = cc
transitions-⟶ confirmed draft h = cc
transitions-⟶ confirmed confirmed h = cc
transitions-⟶ confirmed cancelled h = cancel
transitions-⟶ confirmed closed h = close
transitions-⟶ cancelled b h = cc
transitions-⟶ closed b h = cc

module _ (env : Env) (texts : Texts) (auth : Authorization) (port : Option InventoryPort) where
  move_steps :
      (c : Context) (id : ℕ) (status : OrderStatus) (version : ℕ) (db : Db) (x : Order) (db' : Db)
      → Service.move env texts auth port c id status version db ≡ ok (x, db')
      → (o : Order) × (find (is_order c id) db.orders ≡ some o)
        × (member (same_status status) (transitions o.status) ≡ true)
        × (x.status ≡ status)
  unfolding Service.move Repository.get_by_id Repository.transition record_event
  move_steps c id status version db x db' e = ground arith

  -- A transition that succeeds leads an order of the caller from a status to one that the diagram
  -- has after it, and the order that comes back has the new status.
  pub move-⟶ :
      (c : Context) (id : ℕ) (status : OrderStatus) (version : ℕ) (db : Db) (x : Order) (db' : Db)
      → Service.move env texts auth port c id status version db ≡ ok (x, db')
      → (o : Order) × (find (is_order c id) db.orders ≡ some o)
        × (o.status ⟶ status)
        × (x.status ≡ status)
  move-⟶ c id status version db x db' e =
      let (o, found, listed, reached) = move_steps c id status version db x db' e in
      (o, found, transitions-⟶ o.status status listed, reached)

  -- An order that is cancelled or closed takes no further transition.
  move_terminal :
      (c : Context) (id : ℕ) (status : OrderStatus) (version : ℕ) (db : Db) (o : Order)
      → env.is_uuid c.tenant ≡ true
      → find (is_order c id) db.orders ≡ some o
      → (o.status ≡ cancelled) ⊎ (o.status ≡ closed)
      → Service.move env texts auth port c id status version db ≡ err (validation bad_transition)
  unfolding Service.move Repository.get_by_id
  move_terminal c id status version db o uuid found done = ground arith

⟶-transitions : {a b : OrderStatus} → a ⟶ b → member (same_status b) (transitions a) ≡ true
⟶-transitions confirm = refl
⟶-transitions drop = refl
⟶-transitions cancel = refl
⟶-transitions close = refl

-- The state after a transition that gives no stock back: the new status and version of the row,
-- and one more audit event.
unfoldable pub moved : Context → ℕ → OrderStatus → Db → Db
moved c id status db = record db {
  orders = update_first (is_order c id) (Repository.with_status status) db.orders;
  audit =
      record { tenant = c.tenant; actor = c.user; action = order_moved status; resource = id }
      ∷ db.audit;
}

-- Where no stock is to be given back, a transition along the diagram succeeds exactly if the
-- expected version is that of the row. It then writes the status, the version after it and an
-- audit event, and nothing else; with any other expected version it ends in a conflict.
move_version :
    (env : Env) (texts : Texts) (auth : Authorization) (port : Option InventoryPort) (c : Context)
    (id : ℕ) (status : OrderStatus) (version : ℕ) (db : Db) (o : Order)
    → env.is_uuid c.tenant ≡ true
    → find (is_order c id) db.orders ≡ some o
    → o.status ⟶ status
    → (status ≡ cancelled → o.is_reserved ≡ false)
    → Service.move env texts auth port c id status version db ≡ (
        if version == o.version
        then ok (Repository.with_status status o, moved c id status db)
        else err conflict)
unfolding Service.move Repository.get_by_id Repository.transition record_event moved
move_version env texts auth port c id status version db o uuid found edge unreserved =
    ground (arith, ⟶-transitions edge)

-- The authorization service of the application: `hasPermission` over the keys of a user.
abbrev pub service_authorization :
    (ℕ → ℕ → List String)
    → Option (ℕ → ℕ → ℕ → Bool)
    → Option (ℕ → ℕ → ℕ → Bool)
    → (ℕ → String → Bool)
    → Authorization
service_authorization keys branch year modules = record {
  has_permission = has_permission keys;
  has_branch_access = branch;
  has_year_access = year;
  is_module_enabled = modules;
}

transition_permission-none : (status : OrderStatus) → transition_permission status ≡ none
unfolding transition_permission
transition_permission-none draft = refl
transition_permission-none confirmed = refl
transition_permission-none cancelled = refl
transition_permission-none closed = refl

-- With the application's authorization service no order ever changes its status: whatever
-- permissions a user has, `transition` ends in an error, for every status and every version.
pub transition_refused :
    (env : Env) (texts : Texts) (keys : ℕ → ℕ → List String)
    (branch year : Option (ℕ → ℕ → ℕ → Bool)) (modules : ℕ → String → Bool)
    (port : Option InventoryPort) (c : Context) (id : ℕ) (status : OrderStatus) (version : ℕ)
    (db : Db) (x : Order) (db' : Db)
    → Service.transition env texts
        (service_authorization keys branch year modules)
        port
        c
        id
        status
        version
        db
      ≢ ok (x, db')
unfolding Service.transition authorize
transition_refused env texts keys branch year modules port c id status version db x db' e =
    ground (arith, transition_permission-none status, has_permission-none keys c.tenant c.user)
