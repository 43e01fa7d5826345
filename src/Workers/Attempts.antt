-- ===== src/Workers/Attempts.antt =====
-- src/infrastructure/database/repositories/postgres-operational-workers.ts and
-- src/application/services/scheduler-worker.ts: how often a job runs, and when again.
use new_erp_final.Common.{
  ℕ, suc, ◌+◌, ◌-◌, ◌*◌, ◌^◌, ◌≤◌, ◌≡◌, true, Option, some, List, [], ◌∷◌, arith, min, inl, inr,
  Option-cases,
}
use native.Mathlib.Nat.{pow-le-pow_right, mul-le-mul_left}
use new_erp_final.Transaction.{ok}
use new_erp_final.Workers.{
  Job, running, is_due, candidate, claimed, finished, put_back, claim_due, retry_at,
}

pub candidate_due :
    (tenant now : ℕ) (rows : List Job) {j : Job}
    → candidate tenant now rows ≡ some j
    → is_due tenant now j ≡ true
unfolding candidate
candidate_due tenant now [] e = ground arith
candidate_due tenant now (k ∷ rows) {j} e = elim (Option-cases (candidate tenant now rows)) [
  | inl h ↦ ground arith
  | inr (i, h) ↦ ground (arith, candidate_due tenant now rows h)
]

-- A job that is claimed has an attempt left, and the claim uses one.
claim_due_within :
    (tenant worker now lease : ℕ) (rows : List Job) {j : Job} {rows' : List Job}
    → claim_due tenant worker now lease rows ≡ ok (some j, rows')
    → (j.status ≡ running) × (1 ≤ j.attempt_count) × (j.attempt_count ≤ j.max_attempts)
unfolding claim_due claimed is_due
claim_due_within tenant worker now lease rows {j} e =
    elim (Option-cases (candidate tenant now rows)) [
      | inl h ↦ ground arith
      | inr (i, h) ↦ ground (arith, candidate_due tenant now rows h)
    ]

-- The life of a row: the three `UPDATE`s in any order, the claim under its condition. The number
-- counts the claims.
pub data Life : ℕ → Job → Job → Type 0 where
  rest : {j : Job} → Life 0 j j
  claim :
      {n : ℕ} {j k : Job} (worker now lease : ℕ)
      → is_due j.tenant now j ≡ true
      → Life n (claimed worker now lease j) k
      → Life (suc n) j k
  finish : {n : ℕ} {j k : Job} (next : Option ℕ) → Life n (finished next j) k → Life n j k
  fail_back :
      {n : ℕ} {j k : Job} (code : ℕ) (retry : Option ℕ)
      → Life n (put_back code retry j) k
      → Life n j k

-- A job is claimed at most as often as it has attempts left, whether its runs succeed or fail.
pub Life-attempts :
    {n : ℕ} {j k : Job}
    → Life n j k
    → j.attempt_count ≤ j.max_attempts
    → (k.attempt_count ≡ j.attempt_count + n) × (j.attempt_count + n ≤ j.max_attempts)
unfolding claimed finished put_back is_due
Life-attempts rest h = ground arith
Life-attempts {n} {j} (claim w now l due life) h = ground (arith, Life-attempts life (ground arith))
Life-attempts {n} {j} (finish next life) h = Life-attempts life h
Life-attempts {n} {j} (fail_back c r life) h = Life-attempts life h

two_pow : (n : ℕ) → n ≤ 8 → (1 ≤ 2 ^ n) × (2 ^ n ≤ 256)
two_pow n h =
    (pow-le-pow_right (omega arith) {i = 0} {j = n} (omega arith), pow-le-pow_right (omega arith) h)

-- The delay after a failure is at least the base and at most 256 times the base, in seconds.
retry_at_bounds :
    (base now attempts : ℕ)
    → 1 ≤ base
    → (now + base * 1000 ≤ retry_at base now attempts)
      × (retry_at base now attempts ≤ now + base * 256000)
unfolding retry_at
retry_at_bounds base now attempts h =
    let (low, high) = two_pow (min (attempts - 1) 8) (ground arith) in
    let b = mul-le-mul_left base low in let t = mul-le-mul_left base high in ground (arith, b, t)
