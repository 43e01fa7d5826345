-- ===== src/Approval/Tests.antt =====
-- Concrete decisions: one instance with one level and one task.
use new_erp_final.Common.{
  ℕ, ◌+◌, ◌≡◌, refl, true, false, none, some, [], ◌∷◌, ◌==◌, ◌||◌, find, if◌then◌else◌,
}
use new_erp_final.Transaction.{Result, ok, err}
use new_erp_final.Example.{env, caller}
use new_erp_final.Approval.{
  Instance, InstanceStatus, Level, Task, Flows, Verdict, every, approve, decide, settle_task,
  accept, update_instance, insert_decision, is_recorded, may_decide, is_pending, level_of,
  is_incomplete, waits_for, is_delegated, settle, complete_level, approved_verdict, running,
  rejected, pending,
}
use new_erp_final.Approval.Decisions.{decide_versions, decide_authority, decide_succeeds}

abbrev instance_in : InstanceStatus → Instance
instance_in status = record {
  tenant = 1;
  branch = 2;
  document_type = 6;
  document = 70;
  document_version = 1;
  status = status;
  version = 3;
}

abbrev task : Task
task = record {
  id = 50;
  tenant = 1;
  instance_id = 40;
  level = 60;
  assigned = 4;
  status = pending;
  decided_by = none;
}

abbrev level : Level
level = record { id = 60; instance_id = 40; policy = every; is_completed = false }

abbrev flows : InstanceStatus → Flows
flows status = record {
  instances = λ i. if i == 40 then some (instance_in status) else none;
  levels = level ∷ [];
  tasks = task ∷ [];
  delegations = [];
  decisions = [];
}

abbrev verdict : Verdict
verdict = approved_verdict (instance_in running) false

abbrev state_of : Result (Verdict × Flows) → Flows
state_of (ok (v, db)) = db
state_of (err e) = flows running

abbrev decided : Flows
unfolding decide settle_task accept update_instance insert_decision is_recorded may_decide
    is_delegated level_of waits_for is_incomplete settle complete_level
decided = state_of (decide env caller 40 50 approve 3 9 100 (flows running))

approve_run : decide env caller 40 50 approve 3 9 100 (flows running) ≡ ok (verdict, decided)
unfolding decide settle_task accept update_instance insert_decision is_recorded may_decide
    is_delegated level_of waits_for is_incomplete settle complete_level
approve_run = refl

decide_authority_example :
    (t : Task) × (find (may_decide 40 50 4 100 []) (task ∷ []) ≡ some t)
    × (t.instance_id ≡ 40)
    × (is_pending t.status ≡ true)
    × (((t.assigned == 4) || is_delegated 50 4 100 []) ≡ true)
decide_authority_example =
    decide_authority env caller 40 50 approve 3 9 100 (flows running) {v = verdict} {db' = decided}
      approve_run

-- The instance has been rejected, and the task is decided all the same.
found_task : find (may_decide 40 50 4 100 []) (task ∷ []) ≡ some task
unfolding may_decide
found_task = refl

found_level : level_of task (level ∷ []) ≡ some level
unfolding level_of
found_level = refl

not_recorded : is_recorded 1 9 [] ≡ false
unfolding is_recorded
not_recorded = refl

decide_succeeds_example :
    (v : Verdict) × (db' : Flows) × (decide env caller 40 50 approve 3 9 100 (flows rejected)
      ≡ ok (v, db'))
decide_succeeds_example =
    decide_succeeds env caller 40 50 9 100 approve (flows rejected) (instance_in rejected) task
      level refl not_recorded refl found_task found_level refl

-- Two tasks of one level, decided one after the other.
abbrev two_tasks : Flows
two_tasks = record (flows running) { tasks = task ∷ record task { id = 51 } ∷ [] }

abbrev after_one : Flows
unfolding decide settle_task accept update_instance insert_decision is_recorded may_decide
    is_delegated level_of waits_for is_incomplete settle complete_level
after_one = state_of (decide env caller 40 50 approve 3 9 100 two_tasks)

abbrev after_two : Flows
unfolding decide settle_task accept update_instance insert_decision is_recorded may_decide
    is_delegated level_of waits_for is_incomplete settle complete_level
after_two = state_of (decide env caller 40 51 approve 4 10 100 after_one)

first_run :
    decide env caller 40 50 approve 3 9 100 two_tasks
    ≡ ok (approved_verdict (instance_in running) true, after_one)
unfolding decide settle_task accept update_instance insert_decision is_recorded may_decide
    is_delegated level_of waits_for is_incomplete settle complete_level
first_run = refl

second_run : decide env caller 40 51 approve 4 10 100 after_one ≡ ok (verdict, after_two)
unfolding decide settle_task accept update_instance insert_decision is_recorded may_decide
    is_delegated level_of waits_for is_incomplete settle complete_level after_one
second_run = refl

decide_versions_example : (3 ≡ (instance_in running).version) × ◌≡◌ {A = ℕ} 4 (3 + 1)
decide_versions_example =
    decide_versions env 40 caller caller 50 51 approve approve 3 4 9 10 100 100 two_tasks
      {db' = after_one} {db'' = after_two} {v = approved_verdict (instance_in running) true}
      {v' = verdict} (instance_in running) refl first_run second_run
