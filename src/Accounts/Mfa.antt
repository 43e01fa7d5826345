-- ===== src/Accounts/Mfa.antt =====
-- src/application/services/mfa-service.ts over
-- src/infrastructure/database/repositories/postgres-mfa-repository.ts. The one-time passwords, the
-- cipher of the secrets and SHA-256 are parameters; an error that is thrown leaves the tables as
-- they were. The address that an authenticator app reads is left out.
use new_erp_final.Common.{
  ℕ, zero, suc, ◌+◌, ◌*◌, Bool, true, false, not, ◌&&◌, Option, none, some, List, [], ◌∷◌, ◌==◌,
  ltb, if◌then◌else◌, find, update_first, map, member,
}
use new_erp_final.Transaction.{
  Tx, runtime, constraint, ◌>>=◌, ◌>>◌, pure, gets, modify, require, or_throw,
}
use new_erp_final.Accounts.Rows.{User, Enrollment, RecoveryCode, Accounts}
use new_erp_final.Accounts.Recovery.{is_user}

-- `TotpProvider`, `MfaSecretProtector`, the n-th recovery code, `hashRecoveryCode`, and the test
-- for six digits.
pub record SecondFactor : Type 0 where
  pub generate_secret : ℕ → ℕ
  pub totp_verify : ℕ → ℕ → ℕ → Bool
  pub encrypt : ℕ → ℕ
  pub decrypt : ℕ → ℕ
  pub recovery_code : ℕ → ℕ
  pub hash : ℕ → ℕ
  pub is_six_digits : ℕ → Bool

-- `enrollmentTtlMinutes` and `recoveryCodeCount`.
pub record MfaOptions : Type 0 where
  pub minutes : ℕ
  pub codes : ℕ

abbrev put_enrollment :
    ℕ → ℕ → Option Enrollment → (ℕ → ℕ → Option Enrollment) → ℕ → ℕ → Option Enrollment
put_enrollment tenant user e rows t u = if t == tenant && u == user then e else rows t u

-- `createEnrollment`
unfoldable pub create_enrollment : ℕ → ℕ → ℕ → ℕ → Tx Accounts (Unit {0})
create_enrollment tenant user secret expires = modify (λ s. record s {
  enrollments =
      put_enrollment tenant user (some (record { secret = secret; expires = expires }))
        s.enrollments;
})

abbrev enabled_user : ℕ → User → User
enabled_user secret u = record u {
  mfa_secret = some secret;
  mfa_enabled = true;
  version = u.version + 1;
}

abbrev is_hash : ℕ → ℕ → Bool
is_hash h x = x == h

abbrev new_codes :
    ℕ → ℕ → List ℕ → (ℕ → ℕ → ℕ → Option RecoveryCode) → ℕ → ℕ → ℕ → Option RecoveryCode
new_codes tenant user hashes rows t u h =
    if t == tenant && u == user
    then (if member (is_hash h) hashes then some (record { consumed = false }) else none)
    else rows t u h

-- Two equal hashes are refused by the unique key.
unfoldable pub has_repetition : List ℕ → Bool
has_repetition [] = false
has_repetition (x ∷ xs) =
    let rest = has_repetition xs in if member (is_hash x) xs then true else rest

-- The enrollment that `activateEnrollment` deletes: one that has not expired.
unfoldable pub live : ℕ → Option Enrollment → Option Enrollment
live now none = none
live now (some e) = if ltb now e.expires then some e else none

-- `activateEnrollment`
unfoldable pub activate : ℕ → ℕ → ℕ → List ℕ → ℕ → Tx Accounts (Unit {0})
activate tenant user secret hashes now = do
  e ← gets (λ s. live now (s.enrollments tenant user))
  or_throw e runtime
  u ← gets (λ s. find (is_user tenant user) s.users)
  or_throw u runtime
  require (not (has_repetition hashes)) constraint
  modify (λ s. record s {
    enrollments = put_enrollment tenant user none s.enrollments;
    users = update_first (is_user tenant user) (enabled_user secret) s.users;
    recovery_codes = new_codes tenant user hashes s.recovery_codes;
  })

abbrev enabled_secret : Option User → Option ℕ
enabled_secret none = none
enabled_secret (some u) = if u.mfa_enabled then u.mfa_secret else none

-- `getEnabledSecret`
unfoldable pub get_enabled_secret : ℕ → ℕ → Accounts → Option ℕ
get_enabled_secret tenant user s =
    enabled_secret (find (λ u. is_user tenant user u && u.mfa_enabled) s.users)

abbrev is_unused : Option RecoveryCode → Bool
is_unused none = false
is_unused (some c) = not c.consumed

abbrev used_code : ℕ → ℕ → ℕ → (ℕ → ℕ → ℕ → Option RecoveryCode) → ℕ → ℕ → ℕ → Option RecoveryCode
used_code tenant user hash rows t u h =
    if t == tenant && u == user && h == hash then some (record { consumed = true }) else rows t u h

-- `consumeRecoveryCode`
unfoldable pub consume_code : ℕ → ℕ → ℕ → Tx Accounts Bool
consume_code tenant user hash s =
    if is_unused (s.recovery_codes tenant user hash)
    then pure true (record s { recovery_codes = used_code tenant user hash s.recovery_codes })
    else pure false s

abbrev disabled_user : User → User
disabled_user u = record u { mfa_secret = none; mfa_enabled = false; version = u.version + 1 }

module _ (factor : SecondFactor) (options : MfaOptions) where
  -- The secret that the user is shown, and when the enrollment ends.
  unfoldable pub begin_enrollment : ℕ → ℕ → ℕ → Tx Accounts (ℕ × ℕ)
  begin_enrollment tenant user now = do
    drawn ← gets (λ s. s.drawn)
    modify (λ s. record s { drawn = suc s.drawn })
    let secret = factor.generate_secret drawn
    create_enrollment tenant user (factor.encrypt secret) (now + options.minutes * 60000)
    pure (secret, now + options.minutes * 60000)

  unfoldable pub recovery_codes_from : ℕ → ℕ → List ℕ
  recovery_codes_from zero n = []
  recovery_codes_from (suc k) n = factor.recovery_code n ∷ recovery_codes_from k (suc n)

  unfoldable pub confirm_enrollment : ℕ → ℕ → ℕ → ℕ → Tx Accounts (List ℕ)
  confirm_enrollment tenant user token now = do
    row ← gets (λ s. s.enrollments tenant user)
    e ← or_throw row runtime
    require (ltb now e.expires) runtime
    require (factor.totp_verify (factor.decrypt e.secret) token now) runtime
    drawn ← gets (λ s. s.drawn)
    modify (λ s. record s { drawn = s.drawn + options.codes })
    let codes = recovery_codes_from options.codes drawn
    activate tenant user e.secret (map factor.hash codes) now
    pure codes

  -- A code of six digits is tried as a one-time password first.
  unfoldable pub verify : ℕ → ℕ → ℕ → ℕ → Tx Accounts Bool
  verify tenant user code now = do
    secret ← gets (get_enabled_secret tenant user)
    elim secret [
      | none ↦ pure false
      | some x ↦
          if factor.is_six_digits code && factor.totp_verify (factor.decrypt x) code now
          then pure true
          else consume_code tenant user (factor.hash code)
    ]

  unfoldable pub disable : ℕ → ℕ → Tx Accounts (Unit {0})
  disable tenant user = modify (λ s. record s {
    users = update_first (is_user tenant user) disabled_user s.users;
    enrollments = put_enrollment tenant user none s.enrollments;
    recovery_codes = new_codes tenant user [] s.recovery_codes;
  })
