-- ===== src/Accounts/Tokens.antt =====
-- The two tables of tokens of src/application/services/account-security-service.ts over every
-- sequence of its operations.
use new_erp_final.Common.{
  ℕ, ◌+◌, ◌*◌, ◌≡◌, refl, Bool, Option, List, [], ◌∷◌, find, arith, ◌⊎◌, inl, inr, Option-cases,
}
use mathlib.Core.Path.{subst, sym}
use new_erp_final.Accounts.Rows.{User, Token, Accounts}
use new_erp_final.Accounts.Recovery.{
  RecoveryOptions, Secrets, Message, reset_table, create_token, valid_token, used, renewed,
  consume_token, is_user, consume_verification, consume_reset, sync_identifiers, find_candidates,
  find_user_by_identifier,
}
use new_erp_final.Accounts.Service.{
  send_token, send_resets, request_email_verification, verify_email, request_password_reset,
  reset_password,
}
use new_erp_final.Accounts.Single.{IsSingle, renewed-IsSingle, used-IsSingle}

-- Both tables.
pub record IsThrifty (s : Accounts) : Type 0 where
  pub resets : IsSingle s.reset_tokens
  pub verifications : IsSingle s.verification_tokens

-- What a consumption does to its table.
Used : ℕ → ℕ → ℕ → (ℕ → ℕ → Option Token) → (ℕ → ℕ → Option Token) → Type 0
Used tenant hash now rows rows' =
    (rows' ≡ rows) ⊎ ((k : Token) × (rows' ≡ used tenant hash now k rows))

Used-IsSingle :
    (tenant hash now : ℕ) (rows rows' : ℕ → ℕ → Option Token)
    → IsSingle rows
    → Used tenant hash now rows rows'
    → IsSingle rows'
unfolding Used
Used-IsSingle tenant hash now rows rows' h (inl same) = subst IsSingle (sym same) h
Used-IsSingle tenant hash now rows rows' h (inr (k, new)) =
    subst IsSingle (sym new) (used-IsSingle tenant hash now k rows h)

consume_reset_tables :
    (tenant hash password now : ℕ) (s t : Accounts) {found : Bool}
    → consume_reset tenant hash password now s ≡ (found, t)
    → (t.verification_tokens ≡ s.verification_tokens)
      × Used tenant hash now s.reset_tokens t.reset_tokens
unfolding consume_reset consume_token Used
consume_reset_tables tenant hash password now s t e =
    elim (Option-cases (valid_token now (s.reset_tokens tenant hash))) [
      | inl stale ↦ (ground (arith, stale, e), inl (ground (arith, stale, e)))
      | inr (k, valid) ↦ elim (Option-cases (find (is_user tenant k.user) s.users)) [
        | inl missing ↦
            (ground (arith, valid, missing, e), inr (k, ground (arith, valid, missing, e)))
        | inr (u, found) ↦
            (ground (arith, valid, found, e), inr (k, ground (arith, valid, found, e)))
      ]
    ]

consume_verification_tables :
    (tenant hash now : ℕ) (s t : Accounts) {found : Bool}
    → consume_verification tenant hash now s ≡ (found, t)
    → (t.reset_tokens ≡ s.reset_tokens)
      × Used tenant hash now s.verification_tokens t.verification_tokens
unfolding consume_verification consume_token sync_identifiers Used
consume_verification_tables tenant hash now s t e =
    elim (Option-cases (valid_token now (s.verification_tokens tenant hash))) [
      | inl stale ↦ (ground (arith, stale, e), inl (ground (arith, stale, e)))
      | inr (k, valid) ↦ elim (Option-cases (find (is_user tenant k.user) s.users)) [
        | inl missing ↦
            (ground (arith, valid, missing, e), inr (k, ground (arith, valid, missing, e)))
        | inr (u, found) ↦
            (ground (arith, valid, found, e), inr (k, ground (arith, valid, found, e)))
      ]
    ]

module _ (secrets : Secrets) (options : RecoveryOptions) where
  -- An operation of the service.
  pub data Step : Accounts → Accounts → Type 0 where
    request_verification :
        (tenant identifier now : ℕ) (s : Accounts)
        → Step s (request_email_verification secrets options tenant identifier now s).1
    verify :
        (tenant token now : ℕ) (s : Accounts)
        → Step s (verify_email secrets options tenant token now s).1
    request_reset :
        (identifier now : ℕ) (s : Accounts)
        → Step s (request_password_reset secrets options identifier now s).1
    reset :
        (tenant token password now : ℕ) (s : Accounts)
        → Step s (reset_password secrets options tenant token password now s).1

  pub data Reach : Accounts → Accounts → Type 0 where
    here : {s : Accounts} → Reach s s
    next : {s t u : Accounts} → Step s t → Reach t u → Reach s u

  send_reset-IsThrifty :
      (now : ℕ) (us : List User) (s : Accounts)
      → IsThrifty s
      → IsThrifty (send_resets secrets options now us s).1
  unfolding send_resets send_token create_token
  send_reset-IsThrifty now [] s h = h
  send_reset-IsThrifty now (u ∷ us) s h =
      send_reset-IsThrifty now us
        (send_token secrets options reset_table options.reset_minutes now u s).1
        (record {
          resets =
              renewed-IsSingle u.tenant u.id (secrets.sha (secrets.opaque_token s.drawn))
                (now + options.reset_minutes * 60000) now s.reset_tokens h.resets;
          verifications = h.verifications;
        })

  request_tables :
      (tenant identifier now : ℕ) (s t : Accounts) {ms : List Message}
      → request_email_verification secrets options tenant identifier now s ≡ (ms, t)
      → (t.reset_tokens ≡ s.reset_tokens)
        × ((t.verification_tokens ≡ s.verification_tokens)
            ⊎ ((u : User) × (t.verification_tokens
                  ≡ renewed u.tenant u.id
                      (secrets.sha (secrets.opaque_token s.drawn))
                      (now + options.verification_minutes * 60000)
                      now
                      s.verification_tokens)))
  unfolding request_email_verification send_token create_token
  request_tables tenant identifier now s t e =
      elim (Option-cases (find_user_by_identifier tenant (secrets.trim identifier) s)) [
        | inl absent ↦ (ground (arith, absent, e), inl (ground (arith, absent, e)))
        | inr (u, found) ↦ (ground (arith, found, e), inr (u, ground (arith, found, e)))
      ]

  Step-IsThrifty : {s t : Accounts} → IsThrifty s → Step s t → IsThrifty t
  unfolding request_email_verification verify_email request_password_reset reset_password
  Step-IsThrifty h (request_verification tenant identifier now s) =
      let (resets, verifications) =
        request_tables tenant identifier now s
          (request_email_verification secrets options tenant identifier now s).1 refl in
      record {
        resets = subst IsSingle (sym resets) h.resets;
        verifications = elim verifications [
          | inl same ↦ subst IsSingle (sym same) h.verifications
          | inr (u, new) ↦ subst IsSingle (sym new) (
              renewed-IsSingle u.tenant u.id (secrets.sha (secrets.opaque_token s.drawn))
                (now + options.verification_minutes * 60000) now s.verification_tokens
                h.verifications)
        ];
      }
  Step-IsThrifty h (verify tenant token now s) =
      let (resets, verifications) =
        consume_verification_tables tenant (secrets.sha token) now s
          (verify_email secrets options tenant token now s).1 refl in
      record {
        resets = subst IsSingle (sym resets) h.resets;
        verifications =
            Used-IsSingle tenant (secrets.sha token) now s.verification_tokens _ h.verifications
              verifications;
      }
  Step-IsThrifty h (request_reset identifier now s) =
      send_reset-IsThrifty now (find_candidates secrets (secrets.trim identifier) s) s h
  Step-IsThrifty h (reset tenant token password now s) =
      let (verifications, resets) =
        consume_reset_tables tenant (secrets.sha token) (secrets.hash password) now s
          (reset_password secrets options tenant token password now s).1 refl in
      record {
        resets = Used-IsSingle tenant (secrets.sha token) now s.reset_tokens _ h.resets resets;
        verifications = subst IsSingle (sym verifications) h.verifications;
      }

  -- After any sequence of requests a user has at most one password reset token and at most one
  -- email verification token that are not used up, if this was so at the start.
  pub Reach-IsThrifty : {s t : Accounts} → IsThrifty s → Reach s t → IsThrifty t
  Reach-IsThrifty h here = h
  Reach-IsThrifty h (next step rest) = Reach-IsThrifty (Step-IsThrifty h step) rest
