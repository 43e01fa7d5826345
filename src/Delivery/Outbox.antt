-- ===== src/Delivery/Outbox.antt =====
-- src/application/services/outbox-dispatcher.ts over the outbox store of
-- src/infrastructure/database/repositories/postgres-operational-workers.ts. The rows stand in the
-- order of `occurred_at, id`; times are milliseconds. The tenant comes from a stored row, so that the
-- guard of `withTenantContext` passes. The transport is a parameter, and so is the
-- number that the last two hexadecimal digits of an identifier stand for.
use new_erp_final.Common.{
  ℕ, ◌+◌, ◌*◌, ◌%◌, Bool, true, false, ◌&&◌, not, Option, none, some, List, [], ◌∷◌, ◌==◌, leb, min,
  max, is_some, if◌then◌else◌, update_first, suc, zero,
}
use new_erp_final.Transaction.{Tx, ok, ◌>>=◌, ◌>>◌, pure, modify}

pub record Event : Type 0 where
  pub id : ℕ
  pub tenant : ℕ
  pub published_at : Option ℕ
  pub available_at : ℕ
  pub lease_owner : Option ℕ
  pub lease_expires_at : Option ℕ
  pub attempt_count : ℕ
  pub last_error : Option ℕ

abbrev pub lease_over : ℕ → Option ℕ → Bool
lease_over now none = true
lease_over now (some t) = leb t now

abbrev pub owned_by : ℕ → Option ℕ → Bool
owned_by worker none = false
owned_by worker (some w) = w == worker

unfoldable pub is_pending : ℕ → ℕ → Event → Bool
is_pending tenant now e =
    e.tenant == tenant
    && not (is_some e.published_at)
    && leb e.available_at now
    && lease_over now e.lease_expires_at

abbrev pub leased : ℕ → ℕ → Event → Event
leased worker until e = record e { lease_owner = some worker; lease_expires_at = some until }

-- The rows that `claimPending` returns, at most `n` of them, and the table with their leases.
unfoldable pub claim : ℕ → ℕ → ℕ → ℕ → ℕ → List Event → List Event × List Event
claim tenant worker now until zero rows = ([], rows)
claim tenant worker now until (suc n) [] = ([], [])
claim tenant worker now until (suc n) (e ∷ rows) =
    let more = claim tenant worker now until n rows in
    let less = claim tenant worker now until (suc n) rows in
    if is_pending tenant now e
    then (leased worker until e ∷ more.0, leased worker until e ∷ more.1)
    else (less.0, e ∷ less.1)

abbrev pub safe_batch_size : ℕ → ℕ
safe_batch_size n = max 1 (min n 200)

unfoldable pub claim_pending : ℕ → ℕ → ℕ → ℕ → ℕ → Tx (List Event) (List Event)
claim_pending tenant worker batch_size lease_seconds now rows =
    ok (claim tenant worker now (now + lease_seconds * 1000) (safe_batch_size batch_size) rows)

-- The condition of `markPublished` and `markFailed`.
abbrev pub is_held : ℕ → ℕ → ℕ → Event → Bool
is_held tenant id worker e =
    e.tenant == tenant
    && e.id == id
    && owned_by worker e.lease_owner
    && not (is_some e.published_at)

abbrev pub publish : ℕ → Event → Event
publish at e = record e {
  published_at = some at;
  last_error = none;
  lease_owner = none;
  lease_expires_at = none;
}

abbrev pub put_off : ℕ → ℕ → Event → Event
put_off code retry e = record e {
  attempt_count = e.attempt_count + 1;
  last_error = some code;
  available_at = retry;
  lease_owner = none;
  lease_expires_at = none;
}

unfoldable pub mark_published : ℕ → ℕ → ℕ → ℕ → Tx (List Event) (Unit {0})
mark_published tenant id worker at = modify (update_first (is_held tenant id worker) (publish at))

unfoldable pub mark_failed : ℕ → ℕ → ℕ → ℕ → ℕ → Tx (List Event) (Unit {0})
mark_failed tenant id worker code retry =
    modify (update_first (is_held tenant id worker) (put_off code retry))

-- `retryAt`; the suffix of an identifier is a byte.
unfoldable pub retry_at : (ℕ → ℕ) → ℕ → ℕ → ℕ → ℕ
retry_at suffix base now id = now + (max 1 base + suffix id % max 1 (max 1 base)) * 1000

pub record Dispatcher : Type 0 where
  pub batch_size : ℕ
  pub lease_seconds : ℕ
  pub retry_base_seconds : ℕ
  pub suffix : ℕ → ℕ
  -- `deliver`: nothing, or the name of the error that it throws.
  pub deliver : Event → Option ℕ

-- The body of the loop; the clock shows `now` throughout.
unfoldable pub dispatch_one : Dispatcher → ℕ → ℕ → ℕ → Event → Tx (List Event) (Unit {0})
dispatch_one d tenant worker now e = elim (d.deliver e) [
  | none ↦ mark_published tenant e.id worker now
  | some code ↦
      mark_failed tenant e.id worker code (retry_at d.suffix d.retry_base_seconds now e.id)
]

unfoldable pub dispatch_all : Dispatcher → ℕ → ℕ → ℕ → List Event → Tx (List Event) ℕ
dispatch_all d tenant worker now [] = pure 0
dispatch_all d tenant worker now (e ∷ events) = do
  dispatch_one d tenant worker now e
  processed ← dispatch_all d tenant worker now events
  pure (processed + 1)

unfoldable pub dispatch_batch : Dispatcher → ℕ → ℕ → ℕ → Tx (List Event) ℕ
dispatch_batch d tenant worker now = do
  events ← claim_pending tenant worker d.batch_size d.lease_seconds now
  dispatch_all d tenant worker now events
