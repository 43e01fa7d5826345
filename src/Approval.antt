-- ===== src/Approval.antt =====
-- `decide` of src/infrastructure/database/repositories/postgres-workflow-repository.ts and
-- `decideDocument` of src/application/services/workflow-service.ts, up to the handler of the
-- document. An instance is found by its primary key; a time is a number of milliseconds. The
-- JSON text of a result is left out of the row, since nothing reads it.
mod Tests
pub mod Decisions
use new_erp_final.Common.{
  ℕ, ◌+◌, Bool, true, false, not, ◌&&◌, ◌||◌, Option, none, some, List, [], ◌∷◌, ◌==◌, leb, find,
  member, update_first, if◌then◌else◌,
}
use new_erp_final.Transaction.{
  Tx, Result, ok, err, validation, conflict, runtime, no_instance, not_assigned, bad_delegation,
  ◌>>=◌, ◌>>◌, pure, throw, gets, modify, require, or_throw, with_tenant,
}
use new_erp_final.Environment.{Env}
use new_erp_final.Database.{Context}

pub data InstanceStatus : Type 0 where
  running completed rejected correction_requested cancelled : InstanceStatus

pub data TaskStatus : Type 0 where
  pending approved rejected correction_requested : TaskStatus

pub data Policy : Type 0 where
  any every : Policy

pub data Decision : Type 0 where
  approve reject correction : Decision

pub data DocumentStatus : Type 0 where
  approved rejected draft : DocumentStatus

pub record Instance : Type 0 where
  pub tenant : ℕ
  pub branch : ℕ
  pub document_type : ℕ
  pub document : ℕ
  pub document_version : ℕ
  pub status : InstanceStatus
  pub version : ℕ

pub record Level : Type 0 where
  pub id : ℕ
  pub instance_id : ℕ
  pub policy : Policy
  pub is_completed : Bool

pub record Task : Type 0 where
  pub id : ℕ
  pub tenant : ℕ
  pub instance_id : ℕ
  pub level : ℕ
  pub assigned : ℕ
  pub status : TaskStatus
  pub decided_by : Option ℕ

pub record Delegation : Type 0 where
  pub task : ℕ
  pub delegate : ℕ
  pub is_revoked : Bool
  pub valid_from : ℕ
  pub valid_to : ℕ

pub record Entry : Type 0 where
  pub tenant : ℕ
  pub instance_id : ℕ
  pub task : ℕ
  pub key : ℕ
  pub decision : Decision
  pub by : ℕ

pub record Flows : Type 0 where
  pub instances : ℕ → Option Instance
  pub levels : List Level
  pub tasks : List Task
  pub delegations : List Delegation
  pub decisions : List Entry

pub record Change : Type 0 where
  pub document_type : ℕ
  pub document : ℕ
  pub document_version : ℕ
  pub status : DocumentStatus

pub record Verdict : Type 0 where
  pub status : InstanceStatus
  pub change : Option Change

abbrev pub is_pending : TaskStatus → Bool
is_pending pending = true
is_pending _ = false

abbrev pub is_any : Policy → Bool
is_any any = true
is_any every = false

abbrev pub in_branch : Context → Option Instance → Option Instance
in_branch c none = none
in_branch c (some i) = if i.tenant == c.tenant && i.branch == c.branch then some i else none

unfoldable pub is_recorded : ℕ → ℕ → List Entry → Bool
is_recorded tenant key = member (λ d. d.tenant == tenant && d.key == key)

-- The conditions of the `SELECT` of the task.
unfoldable pub is_delegated : ℕ → ℕ → ℕ → List Delegation → Bool
is_delegated task user now = member (λ d.
    d.task == task
    && d.delegate == user
    && not d.is_revoked
    && leb d.valid_from now
    && leb now d.valid_to)

unfoldable pub may_decide : ℕ → ℕ → ℕ → ℕ → List Delegation → Task → Bool
may_decide instance_id task user now delegations t =
    t.id == task
    && t.instance_id == instance_id
    && (t.assigned == user || is_delegated t.id user now delegations)

unfoldable pub level_of : Task → List Level → Option Level
level_of t = find (λ l. l.id == t.level)

unfoldable pub waits_for : ℕ → List Task → Bool
waits_for level = member (λ t. t.level == level && is_pending t.status)

unfoldable pub is_incomplete : ℕ → List Level → Bool
is_incomplete instance_id = member (λ l. l.instance_id == instance_id && not l.is_completed)

unfoldable pub settle : Context → ℕ → TaskStatus → List Task → List Task
settle c task status =
    update_first (λ t. t.id == task && t.tenant == c.tenant)
      (λ t. record t { status = status; decided_by = some c.user })

unfoldable pub complete_level : ℕ → List Level → List Level
complete_level level = update_first (λ l. l.id == level) (λ l. record l { is_completed = true })

abbrev pub advance : Context → InstanceStatus → Option Instance → Option Instance
advance c status none = none
advance c status (some i) =
    if i.tenant == c.tenant
    then some (record i { status = status; version = i.version + 1 })
    else some i

abbrev pub set_instance : ℕ → Option Instance → (ℕ → Option Instance) → ℕ → Option Instance
set_instance id row table j = if j == id then row else table j

unfoldable pub update_instance : Context → ℕ → InstanceStatus → Tx Flows (Unit {0})
update_instance c id status = modify (λ db. record db {
  instances = set_instance id (advance c status (db.instances id)) db.instances;
})

unfoldable pub insert_decision : Context → ℕ → ℕ → Decision → ℕ → Tx Flows (Unit {0})
insert_decision c id task decision key = modify (λ db. record db {
  decisions =
      record {
        tenant = c.tenant;
        instance_id = id;
        task = task;
        key = key;
        decision = decision;
        by = c.user;
      }
      ∷ db.decisions;
})

abbrev pub change_of : Instance → DocumentStatus → Change
change_of i status = record {
  document_type = i.document_type;
  document = i.document;
  document_version = i.document_version;
  status = status;
}

-- The branch of a rejection or a correction, with the three words that it writes.
unfoldable pub stop :
    Context
    → ℕ
    → Instance
    → ℕ
    → Decision
    → ℕ
    → TaskStatus
    → InstanceStatus
    → DocumentStatus
    → Tx Flows Verdict
stop c id i task decision key task_status status document_status = do
  modify (λ db. record db { tasks = settle c task task_status db.tasks })
  update_instance c id status
  insert_decision c id task decision key
  pure (record { status = status; change = some (change_of i document_status) })

abbrev pub approved_verdict : Instance → Bool → Verdict
approved_verdict i true = record { status = running; change = none }
approved_verdict i false = record { status = completed; change = some (change_of i approved) }

unfoldable pub accept : Context → ℕ → Instance → ℕ → Level → ℕ → Tx Flows Verdict
accept c id i task l key = do
  modify (λ db. record db { tasks = settle c task approved db.tasks })
  waits ← gets (λ db. waits_for l.id db.tasks)
  modify (λ db. record db {
    levels = if is_any l.policy || not waits then complete_level l.id db.levels else db.levels;
  })
  left ← gets (λ db. is_incomplete id db.levels)
  update_instance c id (approved_verdict i left).status
  insert_decision c id task approve key
  pure (approved_verdict i left)

unfoldable pub settle_task : Context → ℕ → Instance → ℕ → Level → Decision → ℕ → Tx Flows Verdict
settle_task c id i task l approve key = accept c id i task l key
settle_task c id i task l reject key = stop c id i task reject key rejected rejected rejected
settle_task c id i task l correction key =
    stop c id i task correction key correction_requested correction_requested draft

-- `decide`. A decision that has the operation key already is read back with `JSON.parse`, which
-- throws: the column holds one of the bare words APPROVE, REJECT and CORRECTION.
unfoldable pub decide : Env → Context → ℕ → ℕ → Decision → ℕ → ℕ → ℕ → Tx Flows Verdict
decide env c id task decision expected_version key now = with_tenant env.is_uuid c.tenant (do
  seen ← gets (λ db. is_recorded c.tenant key db.decisions)
  require (not seen) runtime
  row ← gets (λ db. in_branch c (db.instances id))
  i ← or_throw row (validation no_instance)
  require (i.version == expected_version) conflict
  found ← gets (λ db. find (may_decide id task c.user now db.delegations) db.tasks)
  t ← or_throw found (validation not_assigned)
  level ← gets (λ db. level_of t db.levels)
  l ← or_throw level (validation not_assigned)
  require (is_pending t.status) conflict
  settle_task c id i task l decision key)
