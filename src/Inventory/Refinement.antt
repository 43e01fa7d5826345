-- ===== src/Inventory/Refinement.antt =====
-- What the inventory of src/infrastructure/database/repositories/postgres-inventory-repository.ts
-- promises, without rows, keys of operations or states of reservations: each operation comes to
-- events of the abstract ledger.
use new_erp_final.Common.{
  true, ℕ, ◌≡◌, refl, ◌<◌, none, some, find, Option-cases, List, [], ◌∷◌, ◌++◌, arith, ◌⊎◌, inl,
  inr,
}
use mathlib.Core.Path.{subst, sym}
use new_erp_final.Transaction.{ok, bind_ok}
use new_erp_final.Database.{
  MovementType, receipt, return, released, Reservation, Db, Context, same_self, same_comm,
}
use new_erp_final.Environment.{Env}
use new_erp_final.Inventory.Queries.{
  Request, has_id, stock_key, reservation_key, ensured, covers, set_status, from_source,
}
use new_erp_final.Inventory.Repository.{
  fulfill_reservation, fulfill_all, can_drop, can_issue, select_by_item,
}
use new_erp_final.Inventory.Ledger.{
  Ledger, Event, arrived, promised, given_up, left, Changes, Run, rest, step, levels, join_runs,
}
use new_erp_final.Inventory.Effects.{
  posted, reserving, releasing, issuing, receive_stock_effect, return_stock_effect,
  reserve_stock_effect, release_reservation_effect, fulfill_reservation_effect,
}
use new_erp_final.Inventory.Histories.{Step, Reach, fulfill_source_effect}

-- An operation that came to one event, or to none and changed nothing.
abbrev pub IsOnce : Db → Db → Event → List Event → Type 0
IsOnce db db' e es = ((es ≡ []) × (db' ≡ db)) ⊎ (es ≡ e ∷ [])

-- What a release came to: nothing for a reservation that is released already, or for a key that
-- has no stock row.
abbrev pub IsGivenUp : Db → Reservation → List Event → Type 0
IsGivenUp db r es =
    ((es ≡ []) × ((r.status ≡ released) ⊎ (db.stock (reservation_key r) ≡ none)))
    ⊎ (es ≡ given_up (reservation_key r) r.quantity ∷ [])

-- The reservations that are fulfilled one after the other: each is the row that then has the
-- identifier.
pub data Fulfilled : Db → List Reservation → List Event → Db → Type 0 where
  none_left : {db : Db} → Fulfilled db [] [] db
  one_more :
      {db t u : Db} {r : Reservation} {rows : List Reservation} {es fs : List Event}
      (x : Reservation)
      → find (has_id r.id) db.reservations ≡ some x
      → IsOnce db t (left (reservation_key x) x.quantity) es
      → Fulfilled t rows fs u
      → Fulfilled db (r ∷ rows) (es ++ fs) u

module _ (env : Env) (text : ℕ) where
  -- The events that a committed transaction stands for: those of its own request, key and
  -- quantity.
  unfoldable pub IsShown : {db db' : Db} → Step env text db db' → List Event → Type 0
  IsShown {db} {db'} (Step.receive c i s e) es =
      IsOnce db db' (arrived (stock_key c i) i.quantity) es
  IsShown {db} {db'} (Step.give_back c i m e) es =
      IsOnce db db' (arrived (stock_key c i) i.quantity) es
  IsShown {db} {db'} (Step.reserve c i r e) es =
      IsOnce db db' (promised (stock_key c i) i.quantity) es
  IsShown {db} {db'} (Step.release c id r e) es =
      (x : Reservation) × (find (has_id id) db.reservations ≡ some x) × IsGivenUp db x es
  IsShown {db} {db'} (Step.fulfill c id key r e) es =
      (x : Reservation) × (find (has_id id) db.reservations ≡ some x)
      × IsOnce db db' (left (reservation_key x) x.quantity) es
  IsShown {db} {db'} (Step.fulfill_source c source_type source key rs e) es =
      Fulfilled db (select_by_item (from_source c source_type source) db.reservations) es db'

  -- The events of a sequence of transactions, in their order.
  pub data Shows {db : Db} : (db' : Db) → Reach env text db db' → List Event → Type 0 where
    nothing : Shows db Reach.here []
    more :
        {t u : Db} {r : Reach env text db t} {st : Step env text t u} {es : List Event}
        (fs : List Event)
        → Shows t r es
        → IsShown st fs
        → Shows u (Reach.next r st) (es ++ fs)

still :
    {a : Ledger} {es : List Event} {db db' : Db}
    → db' ≡ db
    → Run a es (levels db)
    → Run a es (levels db')
still {a} {es} e r = subst (λ t. Run a es (levels t)) (sym e) r

posted-Run :
    (kind : MovementType) (c : Context) (i : Request) (db : Db)
    → 0 < i.quantity
    → Run (levels db) (arrived (stock_key c i) i.quantity ∷ []) (levels (posted kind c i db))
unfolding posted Changes
posted-Run kind c i db some_stock =
    step (arrived (stock_key c i) i.quantity)
      (
        some_stock,
        ground (arith, same_self (stock_key c i)),
        ground (arith, same_self (stock_key c i)),
      )
      (λ j other. ground (arith, same_comm (stock_key c i) j)) rest

reserving-Run :
    (env : Env) (c : Context) (i : Request) (db : Db)
    → covers i.quantity ((ensured (stock_key c i) db).stock (stock_key c i)) ≡ true
    → 0 < i.quantity
    → Run (levels db) (promised (stock_key c i) i.quantity ∷ []) (levels (reserving env c i db))
unfolding reserving Changes
reserving-Run env c i db room some_stock =
    step (promised (stock_key c i) i.quantity)
      (
        some_stock,
        ground (arith, same_self (stock_key c i)),
        ground (arith, same_self (stock_key c i)),
        ground (arith, same_self (stock_key c i)),
      )
      (λ j other. ground (arith, same_comm (stock_key c i) j)) rest

releasing-Run :
    (c : Context) (r : Reservation) (db : Db)
    → can_drop r.quantity (db.stock (reservation_key r)) ≡ true
    → (es : List Event) × IsGivenUp db r es × Run (levels db) es (levels (releasing c r db))
unfolding releasing set_status Changes
releasing-Run c r db room = elim (Option-cases (db.stock (reservation_key r))) [
  | inl absent ↦ ([], inl (refl, inr absent), subst (Run (levels db) []) (ground arith) rest)
  | inr (row, present) ↦ (
    given_up (reservation_key r) r.quantity ∷ [],
    inr refl,
    step (given_up (reservation_key r) r.quantity)
        (
          ground (arith, same_self (reservation_key r)),
          ground (arith, same_self (reservation_key r)),
        )
        (λ j other. ground (arith, same_comm (reservation_key r) j)) rest,
  )
]

issuing-Run :
    (text : ℕ) (c : Context) (r : Reservation) (key : ℕ) (db : Db)
    → can_issue r.quantity (db.stock (reservation_key r)) ≡ true
    → Run (levels db) (left (reservation_key r) r.quantity ∷ []) (levels (issuing text c r key db))
unfolding issuing set_status Changes
issuing-Run text c r key db room =
    step (left (reservation_key r) r.quantity)
      (ground (arith, same_self (reservation_key r)), ground (arith, same_self (reservation_key r)))
      (λ j other. ground (arith, same_comm (reservation_key r) j)) rest

-- One event, or none if the state is the same.
once :
    {db db' : Db} (e : Event)
    → (db' ≡ db) ⊎ Run (levels db) (e ∷ []) (levels db')
    → (es : List Event) × IsOnce db db' e es × Run (levels db) es (levels db')
once e (inl old) = ([], inl (refl, old), still old rest)
once e (inr new) = (e ∷ [], inr refl, new)

module _ (env : Env) (text : ℕ) where
  fulfill-Run :
      (c : Context) (id key : ℕ) (db : Db) {r : Reservation} {db' : Db}
      → fulfill_reservation env text c id key db ≡ ok (r, db')
      → (x : Reservation) × (find (has_id id) db.reservations ≡ some x)
        × ((es : List Event) × IsOnce db db' (left (reservation_key x) x.quantity) es
            × Run (levels db) es (levels db'))
  fulfill-Run c id key db e =
      let (r, found, tenant, how) = fulfill_reservation_effect env text c id key db e in
      (
        r,
        found,
        once (left (reservation_key r) r.quantity) (elim how [
          | inl old ↦ inl old
          | inr new ↦ inr (still new.0 (issuing-Run text c r key db new.2))
        ]),
      )

  fulfill_all-Run :
      (c : Context) (key : ℕ) (rows : List Reservation) (db : Db) {rs : List Reservation} {db' : Db}
      → fulfill_all env text c key rows db ≡ ok (rs, db')
      → (es : List Event) × Fulfilled db rows es db' × Run (levels db) es (levels db')
  unfolding fulfill_all
  fulfill_all-Run c key [] db {db'} e =
      let unchanged : db' ≡ db = ground arith in
      ([], subst (Fulfilled db [] []) (sym unchanged) Fulfilled.none_left, still unchanged rest)
  fulfill_all-Run c key (r ∷ rows) db {db'} e =
      let (x, t, one, others) =
        bind_ok (fulfill_reservation env text c r.id (env.join key r.id)) _ db e in
      let (xs, u, many, done) = bind_ok (fulfill_all env text c key rows) _ t others in
      let last : db' ≡ u = ground arith in
      let (y, found, all) = fulfill-Run c r.id (env.join key r.id) db one in
      let (es, shown, run) = all in
      let (fs, chain, runs) = fulfill_all-Run c key rows t many in
      (
        es ++ fs,
        subst (Fulfilled db (r ∷ rows) (es ++ fs)) (sym last)
            (Fulfilled.one_more y found shown chain),
        still last (join_runs run runs),
      )

  Step-Run :
      {db db' : Db} (st : Step env text db db')
      → (es : List Event) × IsShown env text st es × Run (levels db) es (levels db')
  unfolding IsShown
  Step-Run {db} (Step.receive c i s e) =
      once (arrived (stock_key c i) i.quantity) (elim (receive_stock_effect env c i db e) [
        | inl old ↦ inl old
        | inr new ↦ inr (still new.0 (posted-Run receipt c i db new.1))
      ])
  Step-Run {db} (Step.give_back c i m e) =
      once (arrived (stock_key c i) i.quantity) (elim (return_stock_effect env c i db e) [
        | inl old ↦ inl old
        | inr new ↦ inr (still new.0 (posted-Run return c i db new.1))
      ])
  Step-Run {db} (Step.reserve c i r e) =
      once (promised (stock_key c i) i.quantity) (elim (reserve_stock_effect env c i db e) [
        | inl old ↦ inl old.1.0
        | inr new ↦ inr (still new.0 (reserving-Run env c i db new.2 new.3))
      ])
  Step-Run {db} (Step.release c id r e) =
      let (x, found, tenant, how) = release_reservation_effect env c id db e in
      elim how [
        | inl old ↦ ([], (x, found, inl (refl, inl old.1.1)), still old.0 rest)
        | inr new ↦
            let (es, shown, run) = releasing-Run c x db new.2 in
            (es, (x, found, shown), still new.0 run)
      ]
  Step-Run {db} (Step.fulfill c id key r e) =
      let (x, found, all) = fulfill-Run c id key db e in
      let (es, shown, run) = all in (es, (x, found, shown), run)
  Step-Run {db} (Step.fulfill_source c source_type source key rs e) =
      fulfill_all-Run c key (select_by_item (from_source c source_type source) db.reservations) db
        (fulfill_source_effect env text c source_type source key db e)

  -- Every sequence of committed transactions of the inventory is a run of the abstract ledger whose
  -- events are those of the transactions, in their order. A receipt and a customer's return are an
  -- arrival of their quantity under their key, or nothing and change nothing; a reservation is a
  -- promise of its quantity that the free stock covers, or nothing and changes nothing; the release
  -- of a reservation gives its quantity up, unless it is released already or has no stock row; and
  -- a fulfilment, one by one for a source, lets the quantity of the reservation leave, or changes
  -- nothing. Each event changes the level of its key as it says, and no other level.
  pub Reach-Run :
      {db db' : Db} (r : Reach env text db db')
      → (es : List Event) × Shows env text db' r es × Run (levels db) es (levels db')
  Reach-Run Reach.here = ([], Shows.nothing, rest)
  Reach-Run (Reach.next r st) =
      let (es, shown, run) = Reach-Run r in
      let (fs, made, last) = Step-Run st in (es ++ fs, Shows.more fs shown made, join_runs run last)
