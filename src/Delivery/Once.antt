-- ===== src/Delivery/Once.antt =====
-- What the dispatcher does to an event: src/application/services/outbox-dispatcher.ts and the
-- outbox store.
use new_erp_final.Common.{
  ℕ, suc, zero, ◌+◌, ◌*◌, ◌≤◌, ◌≡◌, refl, true, false, List, [], ◌∷◌, arith, length, max,
  update_first, is_some, Bool-cases, inl, inr, Option-cases, ap, ◌∙◌,
}
use mathlib.Core.Path.{subst}
use new_erp_final.Transaction.{ok, Result-cases}
use new_erp_final.Delivery.Outbox.{
  Event, is_pending, claim, claim_pending, safe_batch_size, mark_published, mark_failed, retry_at,
  Dispatcher, dispatch_one, dispatch_all, dispatch_batch, is_held, leased, publish, put_off,
}

length-claim :
    (tenant worker now until n : ℕ) (rows : List Event)
    → length (claim tenant worker now until n rows).0 ≤ n
unfolding claim
length-claim tenant worker now until zero rows = omega arith
length-claim tenant worker now until (suc n) [] = omega arith
length-claim tenant worker now until (suc n) (e ∷ rows) = ground (
  arith,
  length-claim tenant worker now until n rows,
  length-claim tenant worker now until (suc n) rows,
)

dispatch_one_total :
    (d : Dispatcher) (tenant worker now : ℕ) (e : Event) (rows : List Event)
    → (rows' : List Event) × (dispatch_one d tenant worker now e rows ≡ ok (tt, rows'))
unfolding dispatch_one mark_published mark_failed
dispatch_one_total d tenant worker now e rows =
    elim (Result-cases (dispatch_one d tenant worker now e rows)) [
      | inl ((u, t), h) ↦ (t, h)
      | inr (x, h) ↦ absurd (ground arith)
    ]

dispatch_all_total :
    (d : Dispatcher) (tenant worker now : ℕ) (events rows : List Event)
    → (rows' : List Event) × (dispatch_all d tenant worker now events rows
        ≡ ok (length events, rows'))
unfolding dispatch_all
dispatch_all_total d tenant worker now [] rows = (rows, refl)
dispatch_all_total d tenant worker now (e ∷ events) rows =
    let (t, one) = dispatch_one_total d tenant worker now e rows in
    let (u, all) = dispatch_all_total d tenant worker now events t in (u, ground (arith, one, all))

-- A batch always ends, whatever the transport throws, and counts the events that it has taken:
-- at most as many as the batch size asks for, and never more than 200.
pub dispatch_batch_total :
    (d : Dispatcher) (tenant worker now : ℕ) (rows : List Event)
    → (n : ℕ) × (rows' : List Event) × (dispatch_batch d tenant worker now rows ≡ ok (n, rows'))
      × (n ≤ max 1 d.batch_size)
      × (n ≤ 200)
unfolding dispatch_batch claim_pending
dispatch_batch_total d tenant worker now rows =
    let until = now + d.lease_seconds * 1000 in
    let taken = claim tenant worker now until (safe_batch_size d.batch_size) rows in
    let (u, all) = dispatch_all_total d tenant worker now taken.0 taken.1 in
    let few = length-claim tenant worker now until (safe_batch_size d.batch_size) rows in
    (length taken.0, u, all, ground (arith, few), ground (arith, few))

-- Row by row, the events are the same, and one that was published is unchanged.
pub data Keeps : List Event → List Event → Type 0 where
  none_left : Keeps [] []
  row :
      {e e' : Event} {rows rows' : List Event}
      → e'.id ≡ e.id
      → (is_some e.published_at ≡ true → e' ≡ e)
      → Keeps rows rows'
      → Keeps (e ∷ rows) (e' ∷ rows')

Keeps-refl : (rows : List Event) → Keeps rows rows
Keeps-refl [] = none_left
Keeps-refl (e ∷ rows) = row refl (λ p. refl) (Keeps-refl rows)

Keeps-trans : {a b c : List Event} → Keeps a b → Keeps b c → Keeps a c
Keeps-trans none_left none_left = none_left
Keeps-trans (row i p k) (row i' p' k') =
    row (i' ∙ i) (λ h. p' (ap (λ x. is_some (Event.published_at x)) (p h) ∙ h) ∙ p h)
      (Keeps-trans k k')

pending_unpublished :
    (tenant now : ℕ) (e : Event) → is_pending tenant now e ≡ true → is_some e.published_at ≡ false
unfolding is_pending
pending_unpublished tenant now e h = ground arith

claim-Keeps :
    (tenant worker now until n : ℕ) (rows : List Event)
    → Keeps rows (claim tenant worker now until n rows).1
unfolding claim
claim-Keeps tenant worker now until zero rows = Keeps-refl rows
claim-Keeps tenant worker now until (suc n) [] = none_left
claim-Keeps tenant worker now until (suc n) (e ∷ rows) =
    elim (Bool-cases (is_pending tenant now e)) [
      | inl p ↦ subst (Keeps (e ∷ rows)) (ground arith) (
          row {e = e} {e' = leased worker until e} refl
            (λ h. absurd (ground (arith, pending_unpublished tenant now e p)))
            (claim-Keeps tenant worker now until n rows))
      | inr p ↦
          subst (Keeps (e ∷ rows)) (ground arith) (
            row {e = e} {e' = e} refl (λ h. refl)
              (claim-Keeps tenant worker now until (suc n) rows))
    ]

update_held-Keeps :
    (tenant id worker : ℕ) (f : Event → Event)
    → ((e : Event) → (f e).id ≡ e.id)
    → (rows : List Event) → Keeps rows (update_first (is_held tenant id worker) f rows)
update_held-Keeps tenant id worker f same [] = none_left
update_held-Keeps tenant id worker f same (e ∷ rows) =
    elim (Bool-cases (is_held tenant id worker e)) [
      | inl p ↦
          subst (Keeps (e ∷ rows)) (ground arith)
            (row {e = e} {e' = f e} (same e) (λ h. absurd (ground arith)) (Keeps-refl rows))
      | inr p ↦
          subst (Keeps (e ∷ rows)) (ground arith)
            (row {e = e} {e' = e} refl (λ h. refl) (update_held-Keeps tenant id worker f same rows))
    ]

dispatch_one-Keeps :
    (d : Dispatcher) (tenant worker now : ℕ) (e : Event) (rows : List Event) {rows' : List Event}
    → dispatch_one d tenant worker now e rows ≡ ok (tt, rows')
    → Keeps rows rows'
unfolding dispatch_one mark_published mark_failed
dispatch_one-Keeps d tenant worker now e rows {rows'} h = elim (Option-cases (d.deliver e)) [
  | inl q ↦
      subst (Keeps rows) (ground arith)
        (update_held-Keeps tenant e.id worker (publish now) (λ x. refl) rows)
  | inr (code, q) ↦ subst (Keeps rows) (ground arith) (
      update_held-Keeps tenant e.id worker
        (put_off code (retry_at d.suffix d.retry_base_seconds now e.id)) (λ x. refl) rows)
]

dispatch_all-Keeps :
    (d : Dispatcher) (tenant worker now : ℕ) (events rows : List Event) {n : ℕ} {rows' : List Event}
    → dispatch_all d tenant worker now events rows ≡ ok (n, rows')
    → Keeps rows rows'
unfolding dispatch_all
dispatch_all-Keeps d tenant worker now [] rows {n} {rows'} h =
    subst (Keeps rows) (ground arith) (Keeps-refl rows)
dispatch_all-Keeps d tenant worker now (e ∷ events) rows {n} {rows'} h =
    let (t, one) = dispatch_one_total d tenant worker now e rows in
    let (u, all) = dispatch_all_total d tenant worker now events t in
    Keeps-trans (dispatch_one-Keeps d tenant worker now e rows one) (
      subst (Keeps t) (ground (arith, one, all))
        (dispatch_all-Keeps d tenant worker now events t all))

-- A batch neither adds nor removes an event, and an event that was published before is exactly as
-- it was: nothing is written to its row.
pub dispatch_batch-Keeps :
    (d : Dispatcher) (tenant worker now : ℕ) (rows : List Event) {n : ℕ} {rows' : List Event}
    → dispatch_batch d tenant worker now rows ≡ ok (n, rows')
    → Keeps rows rows'
unfolding dispatch_batch claim_pending
dispatch_batch-Keeps d tenant worker now rows h =
    let until = now + d.lease_seconds * 1000 in
    Keeps-trans (claim-Keeps tenant worker now until (safe_batch_size d.batch_size) rows)
      (dispatch_all-Keeps d tenant worker now _ _ h)
