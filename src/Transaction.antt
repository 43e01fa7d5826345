-- ===== src/Transaction.antt =====
-- src/domain/errors.ts, and the transactions of src/infrastructure/database/unit-of-work.ts and
-- tenant-context.ts: errors as values, and a state that is kept only if nothing is thrown.
use new_erp_final.Common.{ℕ, ◌≡◌, refl, Bool, true, false, Option, none, some, arith, ◌⊎◌, inl, inr}

-- The messages of the errors, one constructor for each check that throws.
pub data Reason : Type 0 where
  not_a_uuid bad_quantity bad_source_type bad_key bad_page bad_version : Reason
  bad_warehouse stale_warehouse no_active_warehouse no_sales_item : Reason
  other_quantity insufficient_stock no_reservation already_fulfilled already_released : Reason
  insufficient_reserved no_reservations : Reason
  module_disabled wrong_branch wrong_year no_permission : Reason
  bad_transition not_draft no_provider no_warehouse_context no_item_master : Reason
  not_accepted reservation_not_released reservation_not_updated : Reason
  no_instance not_assigned bad_delegation : Reason
  taken_key not_confirmed no_delivery_warehouse not_updated no_reservation_reference : Reason
  not_completed not_issued bad_lines not_processed no_return_references : Reason
  tax_failed finance_failed : Reason
  no_supplier no_approved_order exceeds_order foreign_item repeated_item blank_key bad_text : Reason

pub data Error : Type 0 where
  validation : Reason → Error
  forbidden : Reason → Error
  conflict unauthorized not_found tenant_context : Error
  -- What the database driver throws when a constraint of the schema fails.
  constraint : Error
  -- What it throws at a statement that the database refuses to read.
  bad_statement : Error
  -- A `TypeError` or `SyntaxError` of the language.
  runtime : Error

pub data Result (A : Type 0) : Type 0 where
  ok : A → Result A
  err : Error → Result A

-- The body of a transaction: the client's reads and writes go through the state, and an error
-- leaves none behind.
abbrev pub Tx : Type 0 → Type 0 → Type 0
Tx S A = S → Result (A × S)

infixl 5 ◌>>=◌ ◌>>◌
abbrev pub ◌>>=◌ : {S A B : Type 0} → Tx S A → (A → Tx S B) → Tx S B
◌>>=◌ m f s = elim (m s) [ ok (a, s') ↦ f a s' | err e ↦ err e ]

abbrev pub ◌>>◌ : {S A B : Type 0} → Tx S A → Tx S B → Tx S B
m >> k = m >>= λ _. k

abbrev pub pure : {S A : Type 0} → A → Tx S A
pure a s = ok (a, s)

abbrev pub throw : {S A : Type 0} → Error → Tx S A
throw e s = err e

abbrev pub gets : {S A : Type 0} → (S → A) → Tx S A
gets f s = ok (f s, s)

abbrev pub modify : {S : Type 0} → (S → S) → Tx S (Unit {0})
modify f s = ok (tt, f s)

-- `if (!test) throw e`
abbrev pub require : {S : Type 0} → Bool → Error → Tx S (Unit {0})
require true e s = ok (tt, s)
require false e s = err e

abbrev pub or_throw : {S A : Type 0} → Option A → Error → Tx S A
or_throw none e s = err e
or_throw (some a) e s = ok (a, s)

-- `UnitOfWork.runInTransaction` with no transaction around it: COMMIT keeps what the callback
-- wrote, ROLLBACK drops it. Inside another transaction the callback runs as it is.
unfoldable pub run_in_transaction : {S A : Type 0} → Tx S A → S → Result A × S
run_in_transaction body s = elim (body s) [ ok (a, s') ↦ (ok a, s') | err e ↦ (err e, s) ]

-- The guard of `withTenantContext`; the session settings that it makes feed the row-level
-- security of the database, which only narrows what the queries below name themselves.
abbrev pub with_tenant : {S A : Type 0} → (ℕ → Bool) → ℕ → Tx S A → Tx S A
with_tenant is_uuid tenant body = require (is_uuid tenant) tenant_context >> body

-- A transaction that throws leaves the state as it was.
pub run_in_transaction_rollback :
    {S A : Type 0} (body : Tx S A) (s : S) {e : Error}
    → (run_in_transaction body s).0 ≡ err e
    → (run_in_transaction body s).1 ≡ s
unfolding run_in_transaction
run_in_transaction_rollback body s h = ground arith

pub Result-cases :
    {A : Type 0} (r : Result A) → ((a : A) × (r ≡ ok a)) ⊎ ((e : Error) × (r ≡ err e))
Result-cases (ok a) = inl (a, refl)
Result-cases (err e) = inr (e, refl)

-- Inversion of a step that succeeds.
pub bind_ok :
    {S A B : Type 0} (m : Tx S A) (f : A → Tx S B) (s : S) {b : B} {u : S}
    → (m >>= f) s ≡ ok (b, u)
    → (a : A) × (t : S) × (m s ≡ ok (a, t)) × (f a t ≡ ok (b, u))
bind_ok m f s h = elim (Result-cases (m s)) [
  | inl ((a, t), e) ↦ (a, t, e, rw (e, ◌>>=◌) at h)
  | inr (x, e) ↦ cc (rw (e, ◌>>=◌) at h)
]
