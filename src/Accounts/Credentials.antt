-- ===== src/Accounts/Credentials.antt =====
-- The credential of an identity and its lockout: the first queries of
-- src/infrastructure/database/repositories/postgres-platform-repository.ts.
use new_erp_final.Common.{
  ℕ, ◌+◌, ◌*◌, Bool, false, ◌&&◌, Option, none, some, ◌==◌, leb, ltb, if◌then◌else◌, find, is_some,
}
use new_erp_final.Accounts.Rows.{Identity, Credential, Accounts}

-- `maxFailedAttempts` and `lockoutMinutes`; the defaults are 5 and 15.
pub record LockoutOptions : Type 0 where
  pub max_failed : ℕ
  pub minutes : ℕ

abbrev pub default_lockout : LockoutOptions
default_lockout = record { max_failed = 5; minutes = 15 }

abbrev pub lockout_span : LockoutOptions → ℕ
lockout_span o = o.minutes * 60000

abbrev pub active_identity : Option Identity → Option Identity
active_identity none = none
active_identity (some i) = if i.active then some i else none

abbrev pub active_credential : Option Credential → Option Credential
active_credential none = none
active_credential (some c) = if c.active then some c else none

-- What `findLoginIdentity` returns of the three rows that it joins.
pub record LoginIdentity : Type 0 where
  pub identity : ℕ
  pub security_version : ℕ
  pub hash : ℕ
  pub failed_attempts : ℕ
  pub locked_until : Option ℕ

abbrev pub joined : ℕ → Option Identity → Option Credential → Option LoginIdentity
joined id (some i) (some c) = some (record {
  identity = id;
  security_version = i.security_version;
  hash = c.hash;
  failed_attempts = c.failed_attempts;
  locked_until = c.locked_until;
})
joined id _ _ = none

abbrev pub login_identity : Accounts → ℕ → Option LoginIdentity
login_identity s id =
    joined id (active_identity (s.identities id)) (active_credential (s.credentials id))

-- `findLoginIdentity`; an identifier is unique among those of its type.
unfoldable pub find_login_identity : ℕ → Accounts → Option LoginIdentity
find_login_identity identifier s =
    elim (find
      (λ i. i.identifier == identifier && i.active && is_some (login_identity s i.identity))
      s.identifiers) [ none ↦ none | some i ↦ login_identity s i.identity ]

abbrev pub put_credential : ℕ → Credential → Accounts → Accounts
put_credential id c s = record s { credentials = λ i. if i == id then some c else s.credentials i }

abbrev pub failed_credential : LockoutOptions → ℕ → Credential → Credential
failed_credential o now c = record c {
  failed_attempts = c.failed_attempts + 1;
  locked_until =
      if leb o.max_failed (c.failed_attempts + 1) then some (now + lockout_span o) else none;
}

-- `recordFailedIdentityLogin`: the new lock, if there is one.
unfoldable pub record_failed : LockoutOptions → ℕ → ℕ → Accounts → Option ℕ × Accounts
record_failed o id now s = elim (active_credential (s.credentials id)) [
  | none ↦ (none, s)
  | some c ↦
      ((failed_credential o now c).locked_until, put_credential id (failed_credential o now c) s)
]

-- `resetFailedIdentityLogin`
unfoldable pub reset_failed : ℕ → Accounts → Accounts
reset_failed id s = elim (active_credential (s.credentials id)) [
  | none ↦ s
  | some c ↦ put_credential id (record c { failed_attempts = 0; locked_until = none }) s
]

-- `lockedUntil && lockedUntil.getTime() > Date.now()`
abbrev pub is_locked : Option ℕ → ℕ → Bool
is_locked none now = false
is_locked (some until) now = ltb now until
