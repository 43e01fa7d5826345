-- ===== src/Accounts/Attempts.antt =====
-- What a login of src/application/services/unified-authentication-service.ts does to the credential
-- of an identity once it has found one.
use new_erp_final.Common.{
  ℕ, ◌≡◌, refl, ap, ◌∙◌, true, false, ◌&&◌, some, List, [], ◌∷◌, ◌==◌, find, is_some, arith, inl,
  inr, Bool-cases, Option-cases, ==_self,
}
use new_erp_final.Accounts.Rows.{
  Credential, LoginContext, tenant_context, platform_context, Accounts,
}
use new_erp_final.Accounts.Credentials.{
  LockoutOptions, LoginIdentity, login_identity, active_identity, active_credential,
  find_login_identity, record_failed, failed_credential, reset_failed,
}
use new_erp_final.Accounts.Contexts.{resolve, authorize_tenant, authorize_platform}
use new_erp_final.Accounts.Login.{
  Ports, open_tenant_session, open_platform_session, issue_context, challenge, enter, reject,
  settle,
}

joined_sound :
    (s : Accounts) (id : ℕ) (li : LoginIdentity)
    → login_identity s id ≡ some li
    → (c : Credential) × (s.credentials id ≡ some c)
      × (c.active ≡ true)
      × (li.identity ≡ id)
      × (li.hash ≡ c.hash)
      × (li.locked_until ≡ c.locked_until)
joined_sound s id li e = elim (Option-cases (s.credentials id)) [
  | inl absent ↦ elim (Option-cases (active_identity (s.identities id))) [
    | inl missing ↦ ground (arith, absent, missing, e)
    | inr (i, present) ↦ ground (arith, absent, present, e)
  ]
  | inr (c, held) ↦ elim (Option-cases (active_identity (s.identities id))) [
    | inl missing ↦ ground (arith, held, missing, e)
    | inr (i, present) ↦ elim (Bool-cases c.active) [
      | inr off ↦ ground (arith, held, present, off, e)
      | inl on ↦ (
        c,
        held,
        on,
        ground (arith, held, present, on, e),
        ground (arith, held, present, on, e),
        ground (arith, held, present, on, e),
      )
    ]
  ]
]

-- The credential that the login has found.
pub login_credential :
    (identifier : ℕ) (s : Accounts) (li : LoginIdentity)
    → find_login_identity identifier s ≡ some li
    → (c : Credential) × (s.credentials li.identity ≡ some c)
      × (c.active ≡ true)
      × (li.hash ≡ c.hash)
      × (li.locked_until ≡ c.locked_until)
unfolding find_login_identity
login_credential identifier s li e =
    elim (Option-cases (
      find (λ i. i.identifier == identifier && i.active && is_some (login_identity s i.identity))
        s.identifiers)) [
          | inl absent ↦ ground (arith, absent, e)
          | inr (i, found) ↦
              let (c, held, on, same, hash, lock) =
                joined_sound s i.identity li (ground (arith, found, e)) in
              (c, ap s.credentials same ∙ held, on, hash, lock)
        ]

module _ (ports : Ports) (lockout : LockoutOptions) where
  issue_credentials :
      (c : LoginContext) (now : ℕ) (s : Accounts)
      → (issue_context ports lockout c now s).1.credentials ≡ s.credentials
  unfolding issue_context open_tenant_session open_platform_session
  issue_credentials (tenant_context c) now s =
      elim (Option-cases (authorize_tenant c.identity c.membership c.tenant s)) [
        | inl missing ↦ ground (arith, missing)
        | inr ((d, b), present) ↦ ground (arith, present)
      ]
  issue_credentials (platform_context c) now s =
      elim (Option-cases (authorize_platform c.identity c.membership s)) [
        | inl missing ↦ ground (arith, missing)
        | inr (d, present) ↦ ground (arith, present)
      ]

  enter_credentials :
      (identity now version : ℕ) (cs : List LoginContext) (s : Accounts)
      → (enter ports lockout identity now
          (record { identity_version = version; contexts = cs })
          s).1.credentials
        ≡ s.credentials
  unfolding enter challenge
  enter_credentials identity now version [] s = refl
  enter_credentials identity now version (c ∷ []) s = issue_credentials c now s
  enter_credentials identity now version (c ∷ d ∷ ds) s = refl

  -- A login of another identity leaves the credential of `x`.
  pub settle_other :
      (x : ℕ) (li : LoginIdentity) (password now : ℕ) (s : Accounts)
      → (li.identity == x) ≡ false
      → (settle ports lockout li password now s).1.credentials x ≡ s.credentials x
  unfolding settle reset_failed reject record_failed
  settle_other x li password now s other =
      let away : (x == li.identity) ≡ false = ground (arith, other) in
      elim (Bool-cases (ports.verify password li.hash)) [
        | inl right ↦
            let entered =
              enter_credentials li.identity now
                (resolve li.identity (reset_failed li.identity s)).identity_version
                (resolve li.identity (reset_failed li.identity s)).contexts
                (reset_failed li.identity s) in
            elim (Option-cases (active_credential (s.credentials li.identity))) [
              | inl missing ↦ ground (arith, right, entered, missing, away)
              | inr (c, held) ↦ ground (arith, right, entered, held, away)
            ]
        | inr wrong ↦ elim (Option-cases (active_credential (s.credentials li.identity))) [
          | inl missing ↦ ground (arith, wrong, missing, away)
          | inr (c, held) ↦ ground (arith, wrong, held, away)
        ]
      ]

  -- A wrong password for `x` is counted in its credential.
  pub settle_wrong :
      (x : ℕ) (li : LoginIdentity) (password now : ℕ) (s : Accounts) (c : Credential)
      → li.identity ≡ x
      → ports.verify password li.hash ≡ false
      → s.credentials x ≡ some c
      → c.active ≡ true
      → (settle ports lockout li password now s).1.credentials x
        ≡ some (failed_credential lockout now c)
  unfolding settle reject record_failed
  settle_wrong x li password now s c here wrong at on =
      let held : s.credentials li.identity ≡ some c = ap s.credentials here ∙ at in
      let same : (x == li.identity) ≡ true = ap (λ i. x == i) here ∙ ==_self x in
      ground (arith, wrong, held, on, same)
