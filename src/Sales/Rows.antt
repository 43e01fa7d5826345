-- ===== src/Sales/Rows.antt =====
-- What the queries of the four repositories of sales documents do to their table, for every
-- document: the lemmas that the proofs of the documents share.
use Prim.Native.String.{String}
use new_erp_final.Common.{
  ℕ, ◌≡◌, Bool, true, ◌&&◌, Option, some, arith, find, update_first, Option-cases, Bool-cases, inl,
  inr, ◌==◌, ==_sound,
}
use new_erp_final.Transaction.{ok}
use new_erp_final.Database.{Context}
use new_erp_final.Environment.{Env}
use new_erp_final.Authorization.{Authorization, authorize}
use new_erp_final.Sales.Books.{Document, Table, Books}
use new_erp_final.Sales.Documents
use new_erp_final.Sales.Documents.{
  is_document, is_prior, mutate, replay_or, get_by_id, check_id, with_status,
}

pub found_once {ℓ} : {A : Type ℓ} (o : Option A) {a b : A} → o ≡ some a → o ≡ some b → a ≡ b
found_once o p q = cc

module _ {S X : Type 0} (env : Env) (table : Table S X) where
  pub mutate_ok :
      (c : Context) (id : ℕ) (p : Document S X → Bool) (f : Document S X → Document S X) (s : Books)
      {x : Document S X} {t : Books}
      → mutate env table c id p f s ≡ ok (some x, t)
      → (d : Document S X) × (find (is_document c id) (table.rows s) ≡ some d)
        × (p d ≡ true)
        × (x ≡ f d)
        × (t ≡ table.put (update_first (is_document c id) f (table.rows s)) s)
  unfolding mutate
  mutate_ok c id p f s e = elim (Option-cases (find (is_document c id) (table.rows s))) [
    | inl absent ↦ ground arith
    | inr (d, found) ↦ elim (Bool-cases (env.is_uuid c.tenant && p d)) [
      | inl fits ↦ (d, found, ground arith, ground arith, ground arith)
      | inr refused ↦ ground arith
    ]
  ]

  -- The statement of each `transition`.
  pub transition_ok :
      (c : Context) (id : ℕ) (status : S) (version : ℕ) (s : Books) {x : Document S X} {t : Books}
      → mutate env table c id (λ d. d.version == version) (with_status status) s ≡ ok (some x, t)
      → (d : Document S X) × (find (is_document c id) (table.rows s) ≡ some d)
        × (d.version ≡ version)
        × (x ≡ with_status status d)
        × (t ≡ table.put (update_first (is_document c id) (with_status status) (table.rows s)) s)
  transition_ok c id status version s e =
      let (d, found, fits, after, stored) =
        mutate_ok c id (λ d. d.version == version) (with_status status) s e in
      (d, found, ==_sound d.version version fits, after, stored)

  pub get_ok :
      (auth : Authorization) (permission : String) (c : Context) (id : ℕ) (s : Books)
      {d : Document S X} {t : Books}
      → Documents.get env auth table permission c id s ≡ ok (d, t)
      → (t ≡ s) × (find (is_document c id) (table.rows s) ≡ some d)
  unfolding Documents.get get_by_id authorize check_id
  get_ok auth permission c id s e = ground arith

  -- A caller who has read a document reads it again in any later state.
  pub get_again :
      (auth : Authorization) (permission : String) (c : Context) (id : ℕ) (s : Books)
      {d : Document S X} {t : Books} (u : Books) {x : Document S X}
      → Documents.get env auth table permission c id s ≡ ok (d, t)
      → find (is_document c id) (table.rows u) ≡ some x
      → Documents.get env auth table permission c id u ≡ ok (x, u)
  unfolding Documents.get get_by_id authorize check_id
  get_again auth permission c id s u e found = ground arith
