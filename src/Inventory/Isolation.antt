-- ===== src/Inventory/Isolation.antt =====
-- Tenants do not touch one another's rows: every query of
-- src/infrastructure/database/repositories/postgres-inventory-repository.ts names the tenant of
-- the caller.
use new_erp_final.Common.{
  ℕ, ◌≡◌, ◌≢◌, refl, List, [], ◌∷◌, ◌==◌, ◌∙◌, if◌then◌else◌, arith, update_first, inl, inr,
}
use mathlib.Core.Path.{subst, sym}
use new_erp_final.Transaction.{ok, bind_ok}
use new_erp_final.Database.{
  receipt, return, StockKey, Stock, Reservation, Movement, Db, same_ne_tenant, MovementType,
  Context, ReservationStatus,
}
use new_erp_final.Environment.{Env}
use new_erp_final.Inventory.Queries.{
  Request, from_source, has_id, restatus, reservation_key, movement_of, reservation_of, set_status,
  stock_key,
}
use new_erp_final.Inventory.Repository.{
  receive_stock, return_stock, reserve_stock, release_reservation, fulfill_reservation, issue_of,
  fulfill_all, select_by_item,
}
use new_erp_final.Inventory.Histories.{Step, fulfill_source_effect}
use new_erp_final.Inventory.Effects.{
  posted, reserving, releasing, issuing, receive_stock_effect, return_stock_effect,
  reserve_stock_effect, release_reservation_effect, fulfill_reservation_effect,
}

-- The rows of one tenant, in their order.
pub reservations_of : ℕ → List Reservation → List Reservation
reservations_of t [] = []
reservations_of t (r ∷ rs) =
    if r.tenant == t then r ∷ reservations_of t rs else reservations_of t rs

pub movements_of : ℕ → List Movement → List Movement
movements_of t [] = []
movements_of t (m ∷ ms) = if m.tenant == t then m ∷ movements_of t ms else movements_of t ms

-- Nothing that belongs to the tenant differs.
pub record IsUntouched (t : ℕ) (db db' : Db) : Type 0 where
  pub stock : (k : StockKey) → k.tenant ≡ t → db'.stock k ≡ db.stock k
  pub reservations : reservations_of t db'.reservations ≡ reservations_of t db.reservations
  pub movements : movements_of t db'.movements ≡ movements_of t db.movements

IsUntouched-refl : (t : ℕ) (db : Db) → IsUntouched t db db
IsUntouched-refl t db = record { stock = λ k e. refl; reservations = refl; movements = refl }

reservations_of-restatus :
    (t id : ℕ) (c : Context) (status : ReservationStatus) (rs : List Reservation)
    → c.tenant ≢ t
    → reservations_of t (update_first (has_id id) (restatus c status) rs) ≡ reservations_of t rs
unfolding reservations_of restatus
reservations_of-restatus t id c status [] h = refl
reservations_of-restatus t id c status (r ∷ rs) h =
    ground (arith, reservations_of-restatus t id c status rs h)

posted-IsUntouched :
    (t : ℕ) (kind : MovementType) (c : Context) (i : Request) (db : Db)
    → c.tenant ≢ t
    → IsUntouched t db (posted kind c i db)
unfolding posted movements_of movement_of
posted-IsUntouched t kind c i db h = record {
  stock = λ k e. ground (arith, same_ne_tenant k (stock_key c i));
  reservations = ground arith;
  movements = ground arith;
}

reserving-IsUntouched :
    (t : ℕ) (env : Env) (c : Context) (i : Request) (db : Db)
    → c.tenant ≢ t
    → IsUntouched t db (reserving env c i db)
unfolding reserving reservations_of reservation_of
reserving-IsUntouched t env c i db h = record {
  stock = λ k e. ground (arith, same_ne_tenant k (stock_key c i));
  reservations = ground arith;
  movements = ground arith;
}

releasing-IsUntouched :
    (t : ℕ) (c : Context) (r : Reservation) (db : Db)
    → c.tenant ≢ t
    → r.tenant ≡ c.tenant
    → IsUntouched t db (releasing c r db)
unfolding releasing set_status
releasing-IsUntouched t c r db h own = record {
  stock = λ k e. ground (arith, same_ne_tenant k (reservation_key r));
  reservations =
      ground
        (arith, reservations_of-restatus t r.id c ReservationStatus.released db.reservations h);
  movements = ground arith;
}

issuing-IsUntouched :
    (t text : ℕ) (c : Context) (r : Reservation) (key : ℕ) (db : Db)
    → c.tenant ≢ t
    → r.tenant ≡ c.tenant
    → IsUntouched t db (issuing text c r key db)
unfolding issuing set_status movements_of issue_of
issuing-IsUntouched t text c r key db h own = record {
  stock = λ k e. ground (arith, same_ne_tenant k (reservation_key r));
  reservations =
      ground
        (arith, reservations_of-restatus t r.id c ReservationStatus.fulfilled db.reservations h);
  movements = ground arith;
}

IsUntouched-trans : (t : ℕ) {a b d : Db} → IsUntouched t a b → IsUntouched t b d → IsUntouched t a d
IsUntouched-trans t p q = record {
  stock = λ k e. q.stock k e ∙ p.stock k e;
  reservations = q.reservations ∙ p.reservations;
  movements = q.movements ∙ p.movements;
}

module _ (env : Env) (t : ℕ) where
  receive-IsUntouched :
      (c : Context) (i : Request) (db : Db) {s : Stock} {db' : Db}
      → c.tenant ≢ t
      → receive_stock env c i db ≡ ok (s, db')
      → IsUntouched t db db'
  receive-IsUntouched c i db h e = elim (receive_stock_effect env c i db e) [
    | inl same_db ↦ subst (IsUntouched t db) (sym same_db) (IsUntouched-refl t db)
    | inr new ↦ subst (IsUntouched t db) (sym new.0) (posted-IsUntouched t receipt c i db h)
  ]

  return-IsUntouched :
      (c : Context) (i : Request) (db : Db) {m : Movement} {db' : Db}
      → c.tenant ≢ t
      → return_stock env c i db ≡ ok (m, db')
      → IsUntouched t db db'
  return-IsUntouched c i db h e = elim (return_stock_effect env c i db e) [
    | inl same_db ↦ subst (IsUntouched t db) (sym same_db) (IsUntouched-refl t db)
    | inr new ↦ subst (IsUntouched t db) (sym new.0) (posted-IsUntouched t return c i db h)
  ]

  reserve-IsUntouched :
      (c : Context) (i : Request) (db : Db) {r : Reservation} {db' : Db}
      → c.tenant ≢ t
      → reserve_stock env c i db ≡ ok (r, db')
      → IsUntouched t db db'
  reserve-IsUntouched c i db h e = elim (reserve_stock_effect env c i db e) [
    | inl old ↦ subst (IsUntouched t db) (sym old.1.0) (IsUntouched-refl t db)
    | inr new ↦ subst (IsUntouched t db) (sym new.0) (reserving-IsUntouched t env c i db h)
  ]

  release-IsUntouched :
      (c : Context) (id : ℕ) (db : Db) {r : Reservation} {db' : Db}
      → c.tenant ≢ t
      → release_reservation env c id db ≡ ok (r, db')
      → IsUntouched t db db'
  release-IsUntouched c id db h e =
      let (r, found, own, how) = release_reservation_effect env c id db e in
      elim how [
        | inl old ↦ subst (IsUntouched t db) (sym old.0) (IsUntouched-refl t db)
        | inr new ↦ subst (IsUntouched t db) (sym new.0) (releasing-IsUntouched t c r db h own)
      ]

  fulfill-IsUntouched :
      (text : ℕ) (c : Context) (id key : ℕ) (db : Db) {r : Reservation} {db' : Db}
      → c.tenant ≢ t
      → fulfill_reservation env text c id key db ≡ ok (r, db')
      → IsUntouched t db db'
  fulfill-IsUntouched text c id key db h e =
      let (r, found, own, how) = fulfill_reservation_effect env text c id key db e in
      elim how [
        | inl old ↦ subst (IsUntouched t db) (sym old) (IsUntouched-refl t db)
        | inr new ↦
            subst (IsUntouched t db) (sym new.0) (issuing-IsUntouched t text c r key db h own)
      ]

  fulfill_all-IsUntouched :
      (text : ℕ) (c : Context) (key : ℕ) (rows : List Reservation) (db : Db) {rs : List Reservation}
      {db' : Db}
      → c.tenant ≢ t
      → fulfill_all env text c key rows db ≡ ok (rs, db')
      → IsUntouched t db db'
  unfolding fulfill_all
  fulfill_all-IsUntouched text c key [] db h e =
      subst (IsUntouched t db) (ground arith) (IsUntouched-refl t db)
  fulfill_all-IsUntouched text c key (r ∷ rows) db h e =
      let (x, u, one, rest) =
        bind_ok (fulfill_reservation env text c r.id (env.join key r.id)) _ db e in
      let (xs, v, many, done) = bind_ok (fulfill_all env text c key rows) _ u rest in
      subst (IsUntouched t db) (ground arith) (
        IsUntouched-trans t (fulfill-IsUntouched text c r.id (env.join key r.id) db h one)
          (fulfill_all-IsUntouched text c key rows u h many))

-- The tenant of the caller of a transaction.
unfoldable pub step_tenant : (env : Env) (text : ℕ) {db db' : Db} → Step env text db db' → ℕ
step_tenant env text (Step.receive c i s e) = c.tenant
step_tenant env text (Step.give_back c i m e) = c.tenant
step_tenant env text (Step.reserve c i r e) = c.tenant
step_tenant env text (Step.release c id r e) = c.tenant
step_tenant env text (Step.fulfill c id key r e) = c.tenant
step_tenant env text (Step.fulfill_source c source_type source key rs e) = c.tenant

-- A committed transaction of one tenant leaves the stock rows, the reservations and the movements
-- of every other tenant as they were.
pub Step-IsUntouched :
    (env : Env) (text t : ℕ) (db db' : Db) (st : Step env text db db')
    → step_tenant env text st ≢ t
    → IsUntouched t db db'
unfolding step_tenant
Step-IsUntouched env text t db db' (Step.receive c i s e) h = receive-IsUntouched env t c i db h e
Step-IsUntouched env text t db db' (Step.give_back c i m e) h = return-IsUntouched env t c i db h e
Step-IsUntouched env text t db db' (Step.reserve c i r e) h = reserve-IsUntouched env t c i db h e
Step-IsUntouched env text t db db' (Step.release c id r e) h = release-IsUntouched env t c id db h e
Step-IsUntouched env text t db db' (Step.fulfill c id key r e) h =
    fulfill-IsUntouched env t text c id key db h e
Step-IsUntouched env text t db db' (Step.fulfill_source c source_type source key rs e) h =
    fulfill_all-IsUntouched env t text c key
      (select_by_item (from_source c source_type source) db.reservations) db h
      (fulfill_source_effect env text c source_type source key db e)
