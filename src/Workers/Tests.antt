-- ===== src/Workers/Tests.antt =====
-- Concrete runs of the job store: one recurring job that may run twice.
use new_erp_final.Common.{ℕ, ◌+◌, ◌≤◌, ◌≡◌, refl, true, none, some, [], ◌∷◌, arith}
use new_erp_final.Transaction.{ok}
use new_erp_final.Workers.{Job, scheduled, is_due, candidate, claimed, finished, claim_due}
use new_erp_final.Workers.Attempts.{Life, Life-attempts}

abbrev job : ℕ → Job
job attempts = record {
  id = 1;
  tenant = 1;
  job_type = 4;
  recurring = true;
  cron = some 5;
  status = scheduled;
  next_run_at = 100;
  lease_owner = none;
  lease_expires_at = none;
  attempt_count = attempts;
  max_attempts = 2;
  last_error = none;
}

claim_run :
    claim_due 1 8 200 60 (job 1 ∷ [])
    ≡ ok (some (claimed 8 200 60 (job 1)), claimed 8 200 60 (job 1) ∷ [])
unfolding claim_due candidate is_due
claim_run = refl

-- Claimed, completed, and scheduled again for time 900.
abbrev ended : Job
ended = record (job 1) { next_run_at = 900 }

life : Life 1 (job 0) ended
unfolding is_due claimed finished
life = Life.claim 8 200 60 refl (Life.finish (some 900) Life.rest)

Life-attempts_example : (ended.attempt_count ≡ 0 + 1) × (0 + 1 ≤ 2)
Life-attempts_example = Life-attempts {n = 1} {j = job 0} {k = ended} life (ground arith)
