-- ===== src/Workers.antt =====
-- src/application/services/scheduler-worker.ts over the table `scheduled_jobs` and the store of
-- src/infrastructure/database/repositories/postgres-operational-workers.ts. The rows stand in the
-- order in which they were created; times are milliseconds, the time zone and the payload are
-- left out. The tenant comes from a stored row, so that the guard of `withTenantContext` passes. The
-- handlers and the calculator of recurring runs are parameters.
mod Tests
pub mod Attempts
use new_erp_final.Common.{
  ℕ, ◌+◌, ◌-◌, ◌*◌, ◌^◌, Bool, true, false, ◌&&◌, ◌||◌, Option, none, some, List, [], ◌∷◌, ◌==◌,
  leb, ltb, min, max, update_first, if◌then◌else◌,
}
use new_erp_final.Transaction.{Tx, Result, ok, err, ◌>>=◌, ◌>>◌, pure, gets, modify}

pub data JobStatus : Type 0 where
  scheduled running completed failed : JobStatus

pub record Job : Type 0 where
  pub id : ℕ
  pub tenant : ℕ
  pub job_type : ℕ
  pub recurring : Bool
  pub cron : Option ℕ
  pub status : JobStatus
  pub next_run_at : ℕ
  pub lease_owner : Option ℕ
  pub lease_expires_at : Option ℕ
  pub attempt_count : ℕ
  pub max_attempts : ℕ
  pub last_error : Option ℕ

abbrev pub waits : JobStatus → Bool
waits scheduled = true
waits failed = true
waits _ = false

abbrev pub is_running : JobStatus → Bool
is_running running = true
is_running _ = false

abbrev pub lease_over : ℕ → Option ℕ → Bool
lease_over now none = true
lease_over now (some t) = leb t now

abbrev pub or_keep : Option ℕ → ℕ → ℕ
or_keep none t = t
or_keep (some t) _ = t

abbrev pub is_job : ℕ → ℕ → Job → Bool
is_job tenant id j = j.tenant == tenant && j.id == id

-- The condition of `claimDue`, and the row that its `ORDER BY` and `LIMIT 1` take.
unfoldable pub is_due : ℕ → ℕ → Job → Bool
is_due tenant now j =
    j.tenant == tenant
    && waits j.status
    && leb j.next_run_at now
    && lease_over now j.lease_expires_at
    && ltb j.attempt_count j.max_attempts

abbrev pub earlier : Job → Option Job → Job
earlier j none = j
earlier j (some k) = if leb j.next_run_at k.next_run_at then j else k

unfoldable pub candidate : ℕ → ℕ → List Job → Option Job
candidate tenant now [] = none
candidate tenant now (j ∷ js) =
    if is_due tenant now j
    then some (earlier j (candidate tenant now js))
    else candidate tenant now js

unfoldable pub claimed : ℕ → ℕ → ℕ → Job → Job
claimed worker now lease_seconds j = record j {
  status = running;
  lease_owner = some worker;
  lease_expires_at = some (now + lease_seconds * 1000);
  attempt_count = j.attempt_count + 1;
}

unfoldable pub finished : Option ℕ → Job → Job
finished next j = record j {
  status = elim next [ none ↦ completed | some t ↦ if j.recurring then scheduled else completed ];
  next_run_at = or_keep next j.next_run_at;
  lease_owner = none;
  lease_expires_at = none;
  last_error = none;
}

unfoldable pub put_back : ℕ → Option ℕ → Job → Job
put_back code retry j = record j {
  status = if leb j.max_attempts j.attempt_count then failed else scheduled;
  next_run_at = or_keep retry j.next_run_at;
  lease_owner = none;
  lease_expires_at = none;
  last_error = some code;
}

unfoldable pub claim_due : ℕ → ℕ → ℕ → ℕ → Tx (List Job) (Option Job)
claim_due tenant worker now lease_seconds rows = elim (candidate tenant now rows) [
  | none ↦ ok (none, rows)
  | some j ↦ ok (
    some (claimed worker now lease_seconds j),
    update_first (is_job tenant j.id) (claimed worker now lease_seconds) rows,
  )
]

unfoldable pub complete : ℕ → ℕ → Option ℕ → Tx (List Job) (Unit {0})
complete tenant id next =
    modify (update_first (λ j. is_job tenant id j && is_running j.status) (finished next))

unfoldable pub fail : ℕ → ℕ → ℕ → Option ℕ → Tx (List Job) (Unit {0})
fail tenant id code retry = modify (update_first (is_job tenant id) (put_back code retry))

-- `retryAt`
unfoldable pub retry_at : ℕ → ℕ → ℕ → ℕ
retry_at base now attempt_count = now + max 1 base * 2 ^ min (attempt_count - 1) 8 * 1000

-- What a handler returns: nothing, or the name of the error that it throws.
pub record Options : Type 0 where
  pub lease_seconds : ℕ
  pub retry_base_seconds : ℕ
  pub handlers : ℕ → Option (Job → Option ℕ)
  pub next_run : ℕ → ℕ → ℕ
  -- 'scheduled_job_handler_unavailable', and the name of an `Error`.
  pub unavailable : ℕ
  pub error_name : ℕ

-- `calculateNextRun`, which throws for a recurring job without an expression.
pub data NextRun : Type 0 where
  run_at : Option ℕ → NextRun
  throws : NextRun

unfoldable pub calculate_next_run : Options → ℕ → Job → NextRun
calculate_next_run o later j =
    if j.recurring
    then elim j.cron [ none ↦ throws | some cron ↦ run_at (some (o.next_run cron later)) ]
    else run_at none

unfoldable pub report_failure : Options → ℕ → Job → ℕ → Tx (List Job) (Unit {0})
report_failure o later j code = fail j.tenant j.id code (
    if leb j.max_attempts j.attempt_count
    then none
    else some (retry_at o.retry_base_seconds later j.attempt_count))

-- The `try` of `runNext`; the job has run when the clock shows `later`.
unfoldable pub execute : Options → ℕ → Job → (Job → Option ℕ) → Tx (List Job) (Unit {0})
execute o later j handler = elim (handler j) [
  | some code ↦ report_failure o later j code
  | none ↦ elim (calculate_next_run o later j) [
    | throws ↦ report_failure o later j o.error_name
    | run_at next ↦ complete j.tenant j.id next
  ]
]

unfoldable pub handle : Options → ℕ → Job → Tx (List Job) (Unit {0})
handle o later j = elim (o.handlers j.job_type) [
  | none ↦
      fail j.tenant j.id o.unavailable (some (retry_at o.retry_base_seconds later j.attempt_count))
  | some handler ↦ execute o later j handler
]

unfoldable pub run_next : Options → ℕ → ℕ → ℕ → ℕ → Tx (List Job) Bool
run_next o tenant worker now later = do
  job ← claim_due tenant worker now o.lease_seconds
  elim job [ none ↦ pure false | some j ↦ handle o later j >> pure true ]
