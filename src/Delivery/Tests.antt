-- ===== src/Delivery/Tests.antt =====
-- A concrete batch: one event that is pending, and one that was published before.
use new_erp_final.Common.{ℕ, ◌≤◌, ◌≡◌, refl, Option, none, some, List, [], ◌∷◌, max}
use new_erp_final.Transaction.{ok}
use new_erp_final.Delivery.Outbox.{
  Event, is_pending, claim, claim_pending, mark_published, Dispatcher, dispatch_one, dispatch_all,
  dispatch_batch,
}
use new_erp_final.Delivery.Once.{dispatch_batch_total, Keeps, dispatch_batch-Keeps}

abbrev event : ℕ → Option ℕ → Event
event id published_at = record {
  id = id;
  tenant = 1;
  published_at = published_at;
  available_at = 10;
  lease_owner = none;
  lease_expires_at = none;
  attempt_count = 0;
  last_error = none;
}

abbrev rows : List Event
rows = event 1 none ∷ event 2 (some 15) ∷ []

abbrev dispatcher : Dispatcher
dispatcher = record {
  batch_size = 50;
  lease_seconds = 60;
  retry_base_seconds = 30;
  suffix = λ id. id;
  deliver = λ e. none;
}

batch_run :
    dispatch_batch dispatcher 1 8 20 rows ≡ ok (1, event 1 (some 20) ∷ event 2 (some 15) ∷ [])
unfolding dispatch_batch claim_pending claim is_pending dispatch_all dispatch_one mark_published
batch_run = refl

dispatch_batch_total_example :
    (n : ℕ) × (rows' : List Event) × (dispatch_batch dispatcher 1 8 20 rows ≡ ok (n, rows'))
    × (n ≤ max 1 50)
    × (n ≤ 200)
dispatch_batch_total_example = dispatch_batch_total dispatcher 1 8 20 rows

dispatch_batch-Keeps_example : Keeps rows (event 1 (some 20) ∷ event 2 (some 15) ∷ [])
dispatch_batch-Keeps_example =
    dispatch_batch-Keeps dispatcher 1 8 20 rows {n = 1}
      {rows' = event 1 (some 20) ∷ event 2 (some 15) ∷ []} batch_run
