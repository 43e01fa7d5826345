-- ===== src/Sales/Documents.antt =====
-- What the four repositories of sales documents have in common
-- (src/infrastructure/database/repositories/postgres-delivery-repository.ts,
-- postgres-sales-return-repository.ts, postgres-invoice-repository.ts and
-- postgres-credit-note-repository.ts), and the checks that the four services share.
use Prim.Native.String.{String}
use new_erp_final.Common.{
  ℕ, ◌+◌, Bool, not, ◌&&◌, ◌||◌, Option, none, some, ◌==◌, leb, if◌then◌else◌, find, update_first,
}
use new_erp_final.Transaction.{
  Tx, validation, not_found, ◌>>=◌, ◌>>◌, pure, gets, modify, require, or_throw, with_tenant,
  not_a_uuid, bad_key, bad_version, taken_key,
}
use new_erp_final.Database.{Context}
use new_erp_final.Environment.{Env}
use new_erp_final.Authorization.{Authorization, authorize}
use new_erp_final.Sales.Books.{Document, Table, Books}

-- The columns that every query of one document names.
unfoldable pub is_document : {S X : Type 0} → Context → ℕ → Document S X → Bool
is_document c id d = d.id == id && d.tenant == c.tenant && d.branch == c.branch && d.year == c.year

-- The row that a request to create a document finds: one with its key or its source.
unfoldable pub is_prior : {S X : Type 0} → Context → ℕ → ℕ → Document S X → Bool
is_prior c key source d =
    d.tenant == c.tenant
    && d.branch == c.branch
    && d.year == c.year
    && (d.key == key || d.source == source)

abbrev pub with_notes : {S X : Type 0} → ℕ → Document S X → Document S X
with_notes notes d = record d { notes = notes; version = d.version + 1 }

abbrev pub with_status : {S X : Type 0} → S → Document S X → Document S X
with_status status d = record d { status = status; version = d.version + 1 }

abbrev pub with_rest : {S X : Type 0} → (X → X) → Document S X → Document S X
with_rest f d = record d { rest = f d.rest; version = d.version + 1 }

module _ {S X : Type 0} (env : Env) (table : Table S X) where
  unfoldable pub get_by_id : Context → ℕ → Tx Books (Option (Document S X))
  get_by_id c id =
      with_tenant env.is_uuid c.tenant (gets (λ s. find (is_document c id) (table.rows s)))

  -- `UPDATE … WHERE` the primary key, the caller's context and a further condition: the row that
  -- was changed, if there is one.
  unfoldable pub mutate :
      Context
      → ℕ
      → (Document S X → Bool)
      → (Document S X → Document S X)
      → Tx Books (Option (Document S X))
  mutate c id p f = with_tenant env.is_uuid c.tenant (
      gets (λ s. find (is_document c id) (table.rows s)) >>= λ row. elim row [
        | none ↦ pure none
        | some d ↦
            if p d
            then modify (λ s. table.put (update_first (is_document c id) f (table.rows s)) s)
              >> pure (some (f d))
            else pure none
      ])

  -- The first query of each `create`: a row of an earlier request is returned to a caller who
  -- may read it, and nothing is created.
  unfoldable pub replay_or :
      Context → ℕ → ℕ → Bool → Tx Books (Document S X) → Tx Books (Document S X)
  replay_or c key source allow_replay body = with_tenant env.is_uuid c.tenant (
      gets (λ s. find (is_prior c key source) (table.rows s)) >>= λ prior. elim prior [
        | some d ↦ require allow_replay (validation taken_key) >> pure d
        | none ↦ body
      ])

-- The checks of the services.
unfoldable pub check_id : Env → ℕ → Tx Books (Unit {0})
check_id env id = require (env.is_uuid id) (validation not_a_uuid)

-- `Number.isInteger(version) && version >= 1`; a version that is no positive integer is 0.
unfoldable pub check_version : ℕ → Tx Books (Unit {0})
check_version version = require (leb 1 version) (validation bad_version)

-- `input.idempotencyKey?.trim()`, not empty and of at most 128 characters.
unfoldable pub trimmed_key : Env → ℕ → Tx Books ℕ
trimmed_key env key =
    require (not (env.is_blank key) && leb (env.text_length (env.trim key)) 128)
      (validation bad_key)
    >> pure (env.trim key)

-- `get` of each service.
unfoldable pub get :
    {S X : Type 0}
    → Env
    → Authorization
    → Table S X
    → String
    → Context
    → ℕ
    → Tx Books (Document S X)
get env auth table permission c id = do
  authorize env auth "sales" c (some permission)
  check_id env id
  row ← get_by_id env table c id
  or_throw row not_found
