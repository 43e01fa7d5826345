-- ===== src/Common/Lists.antt =====
-- Lists as the code's arrays and table rows: length, indexing, the first row that fits, and the
-- update of that row; what a search finds, also after an update.
use Prim.Native.Nat.{ℕ, zero, suc, ◌+◌}
use mathlib.Core.Path.{◌≡◌}
use mathlib.Core.Bool.{Bool, true, false, ◌||◌}
use mathlib.Core.Option.{Option, none, some}
use mathlib.Core.List.{List, [], ◌∷◌, ◌++◌}
use native.Mathlib.Omega.{arith}

module _ {ℓ} {A : Type ℓ} where
  abbrev pub length : List A → ℕ
  length [] = 0
  length (x ∷ xs) = suc (length xs)

  abbrev pub get_elem? : List A → ℕ → Option A
  get_elem? [] i = none
  get_elem? (x ∷ xs) zero = some x
  get_elem? (x ∷ xs) (suc i) = get_elem? xs i

  -- `Array.prototype.find`, and a `SELECT` of which the code reads the first row.
  abbrev pub find : (A → Bool) → List A → Option A
  find p [] = none
  find p (x ∷ xs) = elim (p x) [ true ↦ some x | false ↦ find p xs ]

  -- An `UPDATE` whose condition holds a primary key: at most one row fits.
  abbrev pub update_first : (A → Bool) → (A → A) → List A → List A
  update_first p f [] = []
  update_first p f (x ∷ xs) = elim (p x) [ true ↦ f x ∷ xs | false ↦ x ∷ update_first p f xs ]

  -- `Array.prototype.some`, and `EXISTS`.
  abbrev pub member : (A → Bool) → List A → Bool
  member p [] = false
  member p (x ∷ xs) = p x || member p xs

  pub append_length : (xs ys : List A) → length (xs ++ ys) ≡ length xs + length ys
  append_length [] ys = omega arith
  append_length (x ∷ xs) ys = omega (arith, append_length xs ys)

  pub find-update_first :
      (p : A → Bool) (f : A → A) (xs : List A) {a : A}
      → find p xs ≡ some a
      → p (f a) ≡ true
      → find p (update_first p f xs) ≡ some (f a)
  find-update_first p f [] found kept = cc
  find-update_first p f (x ∷ xs) {a} found kept = ground (arith, find-update_first p f xs {a = a})

  -- The row that a search finds fits.
  pub find_fits : (p : A → Bool) (xs : List A) {a : A} → find p xs ≡ some a → p a ≡ true
  find_fits p [] found = cc
  find_fits p (x ∷ xs) {a} found = ground (arith, find_fits p xs {a = a})
