-- ===== src/Authorization.antt =====
-- src/application/services/authorization-service.ts (`hasPermission`) and the `authorize` method
-- that each service of src/application/services has. A permission is its text; `none` stands for
-- `undefined`, which a look-up in a table of permissions may yield.
use Prim.Native.String.{String}
use text.Mathlib.Text.{◌==◌ as str_eq}
use new_erp_final.Common.{
  ℕ, ◌≡◌, refl, Bool, true, false, not, Option, none, some, List, [], ◌∷◌, member, arith,
}
use new_erp_final.Transaction.{
  Tx, validation, forbidden, unauthorized, ◌>>◌, require, not_a_uuid, module_disabled, wrong_branch,
  wrong_year, no_permission, ok,
}
use new_erp_final.Database.{Context}
use new_erp_final.Environment.{Env}

-- What the services ask of the authorization service and the module access service; the two
-- methods that a service calls only if they are there are options.
pub record Authorization : Type 0 where
  pub has_permission : ℕ → ℕ → Option String → Bool
  pub has_branch_access : Option (ℕ → ℕ → ℕ → Bool)
  pub has_year_access : Option (ℕ → ℕ → ℕ → Bool)
  pub is_module_enabled : ℕ → String → Bool

-- `entry.permissionKey === permissionKey`, where a stored key is never `undefined`.
abbrev pub is_key : Option String → String → Bool
is_key none entry = false
is_key (some p) entry = str_eq entry p

-- `AuthorizationService.hasPermission`, over the keys that the repository returns for a user.
unfoldable pub has_permission : (ℕ → ℕ → List String) → ℕ → ℕ → Option String → Bool
has_permission keys tenant user p = member (is_key p) (keys tenant user)

-- An optional method: absent, it does not refuse.
abbrev pub allows : Option (ℕ → ℕ → ℕ → Bool) → ℕ → ℕ → ℕ → Bool
allows none a b d = true
allows (some f) a b d = f a b d

-- The checks that precede every operation of a service, in the order of the code.
unfoldable pub authorize :
    {S : Type 0} → Env → Authorization → String → Context → Option String → Tx S (Unit {0})
authorize env auth code c p = do
  require (not (env.is_blank c.user)) unauthorized
  require (env.is_uuid c.tenant) (validation not_a_uuid)
  require (env.is_uuid c.branch) (validation not_a_uuid)
  require (env.is_uuid c.year) (validation not_a_uuid)
  require (env.is_uuid c.user) (validation not_a_uuid)
  require (auth.is_module_enabled c.tenant code) (forbidden module_disabled)
  require (allows auth.has_branch_access c.tenant c.user c.branch) (forbidden wrong_branch)
  require (allows auth.has_year_access c.tenant c.year c.branch) (forbidden wrong_year)
  require (auth.has_permission c.tenant c.user p) (forbidden no_permission)

-- What a caller who passes the checks is known to satisfy.
pub record IsAuthorized (env : Env) (auth : Authorization) (code : String) (c : Context)
    (p : Option String) : Type 0 where
  pub tenant : env.is_uuid c.tenant ≡ true
  pub branch : env.is_uuid c.branch ≡ true
  pub year : env.is_uuid c.year ≡ true
  pub user : env.is_uuid c.user ≡ true
  pub enabled : auth.is_module_enabled c.tenant code ≡ true
  pub branch_allowed : allows auth.has_branch_access c.tenant c.user c.branch ≡ true
  pub year_allowed : allows auth.has_year_access c.tenant c.year c.branch ≡ true
  pub permitted : auth.has_permission c.tenant c.user p ≡ true

-- The checks pass only for an identified user of an enabled module with the permission, in a
-- branch and a financial year of theirs, and they change nothing.
pub authorize_sound :
    {S : Type 0} (env : Env) (auth : Authorization) (code : String) (c : Context)
    (p : Option String) (s : S) {u : Unit {0}} {s' : S}
    → authorize env auth code c p s ≡ ok (u, s')
    → IsAuthorized env auth code c p × (s' ≡ s)
unfolding authorize
authorize_sound env auth code c p s h = ground arith

-- `undefined` is no key of any user.
pub has_permission-none :
    (keys : ℕ → ℕ → List String) (tenant user : ℕ) → has_permission keys tenant user none ≡ false
unfolding has_permission
has_permission-none keys tenant user = no_key (keys tenant user)
  where
    no_key : (ks : List String) → member (is_key none) ks ≡ false
    no_key [] = refl
    no_key (k ∷ ks) = no_key ks
