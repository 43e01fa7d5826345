-- ===== src/Approval/Decisions.antt =====
-- `decide` of src/infrastructure/database/repositories/postgres-workflow-repository.ts: who may
-- decide, how often, and what a decision does to its instance.
use new_erp_final.Common.{
  ℕ, ◌+◌, ◌≡◌, sym, true, false, ◌||◌, some, List, [], ◌∷◌, arith, ◌==◌, find, Option-cases,
  Bool-cases, inl, inr,
}
use new_erp_final.Transaction.{Result-cases, ok, err, runtime}
use new_erp_final.Environment.{Env}
use new_erp_final.Database.{Context}
use new_erp_final.Approval.{
  Delegation, pending, completed, Instance, Level, Task, Flows, Verdict, Decision, decide,
  settle_task, accept, stop, update_instance, insert_decision, is_recorded, may_decide, is_pending,
  level_of, in_branch, is_incomplete, is_delegated,
}

may_decide_fields :
    (id task user now : ℕ) (ds : List Delegation) (rows : List Task) {t : Task}
    → find (may_decide id task user now ds) rows ≡ some t
    → (t.instance_id ≡ id)
      × (t.id ≡ task)
      × (((t.assigned == user) || is_delegated task user now ds) ≡ true)
unfolding may_decide
may_decide_fields id task user now ds [] h = ground arith
may_decide_fields id task user now ds (x ∷ rows) {t} h =
    elim (Bool-cases (may_decide id task user now ds x)) [
      | inl b ↦ ground arith
      | inr b ↦ may_decide_fields id task user now ds rows {t = t} (ground arith)
    ]

module _ (env : Env) (c : Context) (id : ℕ) where
  -- What a decision that succeeds finds and leaves behind.
  decide_effect :
      (task : ℕ) (d : Decision) (version key now : ℕ) (db : Flows) {v : Verdict} {db' : Flows}
      (i : Instance)
      → decide env c id task d version key now db ≡ ok (v, db')
      → db.instances id ≡ some i
      → (i.version ≡ version)
        × (env.is_uuid c.tenant ≡ true)
        × (i.tenant ≡ c.tenant)
        × (i.branch ≡ c.branch)
        × (is_recorded c.tenant key db'.decisions ≡ true)
        × (db'.instances id ≡ some (record i { status = v.status; version = version + 1 }))
  unfolding decide settle_task accept stop update_instance insert_decision is_recorded
  decide_effect task d version key now db i e row = ground arith

  -- A decision is taken by the user to whom the task is assigned, or by one to whom it is
  -- delegated at that time, on a task of that instance that is still pending.
  pub decide_authority :
      (task : ℕ) (d : Decision) (version key now : ℕ) (db : Flows) {v : Verdict} {db' : Flows}
      → decide env c id task d version key now db ≡ ok (v, db')
      → (t : Task) × (find (may_decide id task c.user now db.delegations) db.tasks ≡ some t)
        × (t.instance_id ≡ id)
        × (is_pending t.status ≡ true)
        × (((t.assigned == c.user) || is_delegated task c.user now db.delegations) ≡ true)
  unfolding decide
  decide_authority task d version key now db e =
      elim (Option-cases (find (may_decide id task c.user now db.delegations) db.tasks)) [
        | inl h ↦ ground arith
        | inr (t, h) ↦
            let (a, b, p) = may_decide_fields id task c.user now db.delegations db.tasks h in
            (t, h, a, ground arith, p)
      ]

  -- An instance is completed by a decision only when all its levels are.
  decide_completed :
      (task : ℕ) (d : Decision) (version key now : ℕ) (db : Flows) {v : Verdict} {db' : Flows}
      → decide env c id task d version key now db ≡ ok (v, db')
      → v.status ≡ completed
      → is_incomplete id db'.levels ≡ false
  unfolding decide settle_task accept stop update_instance insert_decision
  decide_completed task d version key now db e done = ground arith

  decide_recorded :
      (task : ℕ) (d : Decision) (version key now : ℕ) (db : Flows)
      → env.is_uuid c.tenant ≡ true
      → is_recorded c.tenant key db.decisions ≡ true
      → decide env c id task d version key now db ≡ err runtime
  unfolding decide
  decide_recorded task d version key now db u k = ground arith

  -- The operation key of a decision that succeeded is spent: the same call again throws.
  decide_again :
      (task : ℕ) (d : Decision) (version key now : ℕ) (task' : ℕ) (d' : Decision)
      (version' now' : ℕ) (db : Flows) {v : Verdict} {db' : Flows} (i : Instance)
      → db.instances id ≡ some i
      → decide env c id task d version key now db ≡ ok (v, db')
      → decide env c id task' d' version' key now' db' ≡ err runtime
  decide_again task d version key now task' d' version' now' db {db' = db'} i row e =
      let (v, u, t, b, k, after) = decide_effect task d version key now db i e row in
      decide_recorded task' d' version' key now' db' u k

  -- A pending task of the user is decided whatever the status of the instance is, also when it
  -- has been rejected.
  pub decide_succeeds :
      (task key now : ℕ) (d : Decision) (db : Flows) (i : Instance) (t : Task) (l : Level)
      → env.is_uuid c.tenant ≡ true
      → is_recorded c.tenant key db.decisions ≡ false
      → in_branch c (db.instances id) ≡ some i
      → find (may_decide id task c.user now db.delegations) db.tasks ≡ some t
      → level_of t db.levels ≡ some l
      → t.status ≡ pending
      → (v : Verdict) × (db' : Flows) × (decide env c id task d i.version key now db ≡ ok (v, db'))
  unfolding decide settle_task accept stop update_instance insert_decision
  decide_succeeds task key now d db i t l u fresh row found level waiting =
      elim (Result-cases (decide env c id task d i.version key now db)) [
        | inl ((v, db'), h) ↦ (v, db', h)
        | inr (x, h) ↦ ground arith
      ]

module _ (env : Env) (id : ℕ) where
  -- Of two decisions on one instance the second succeeds only with the version that the first
  -- left: with the same expected version at most one of them does.
  pub decide_versions :
      (c e : Context) (task task' : ℕ) (d d' : Decision) (version version' key key' now now' : ℕ)
      (db : Flows) {db' db'' : Flows} {v v' : Verdict} (i : Instance)
      → db.instances id ≡ some i
      → decide env c id task d version key now db ≡ ok (v, db')
      → decide env e id task' d' version' key' now' db' ≡ ok (v', db'')
      → (version ≡ i.version) × (version' ≡ version + 1)
  decide_versions c e task task' d d' version version' key key' now now' db {db'} i row one two =
      let (v, u, t, b, k, after) = decide_effect env c id task d version key now db i one row in
      let (v', u', t', b', k', after') =
        decide_effect env e id task' d' version' key' now' db' _ two after in
      (sym v, sym v')
