-- ===== src/Accounts/Entitled.antt =====
-- The rows that entitle an identity to a context that
-- src/application/services/unified-authentication-service.ts issues.
use new_erp_final.Common.{
  ℕ, ◌≡◌, ap, ◌∙◌, true, ◌&&◌, Option, some, ◌==◌, find, arith, inl, inr, Bool-cases, Option-cases,
  find_fits,
}
use mathlib.Core.Path.{subst, sym}
use new_erp_final.Accounts.Rows.{
  Identity, Membership, PlatformMembership, Tenant, User, TenantContext, PlatformContext,
  LoginContext, tenant_context, platform_context, Accounts,
}
use new_erp_final.Accounts.Credentials.{active_identity}
use new_erp_final.Accounts.Contexts.{
  membership_context, authorize_tenant, authorize_platform, is_held, is_platform_held,
  user_of_identity, open_tenant, has_credential, platform_context_of,
}

-- An active identity with an active password.
pub record IsIdentified (s : Accounts) (identity : ℕ) : Type 0 where
  pub row : Identity
  pub known : active_identity (s.identities identity) ≡ some row
  pub credential : has_credential s identity ≡ true

-- A membership that is held, of a tenant that is open, in which the identity has an active user;
-- the context has their identifiers and their versions.
pub record IsTenantEntitled (s : Accounts) (identity : ℕ) (c : TenantContext) : Type 0 where
  pub identified : IsIdentified s identity
  pub membership : Membership
  pub held : is_held identity membership ≡ true
  pub tenant : Tenant
  pub opened : open_tenant (s.tenants membership.tenant) ≡ some tenant
  pub user : User
  pub found : user_of_identity s membership.tenant identity ≡ some user
  pub context : c ≡ record {
    membership = membership.id;
    tenant = membership.tenant;
    identity = identity;
    user = user.id;
    identity_version = identified.row.security_version;
    membership_version = membership.security_version;
    tenant_version = tenant.version;
    user_version = user.version;
  }

pub record IsPlatformEntitled (s : Accounts) (identity : ℕ) (c : PlatformContext) : Type 0 where
  pub identified : IsIdentified s identity
  pub membership : PlatformMembership
  pub held : is_platform_held identity membership ≡ true
  pub context : c ≡ platform_context_of identity identified.row membership

abbrev pub IsEntitled : Accounts → ℕ → LoginContext → Type 0
IsEntitled s identity (tenant_context c) = IsTenantEntitled s identity c
IsEntitled s identity (platform_context c) = IsPlatformEntitled s identity c

context_sound :
    (s : Accounts) (identity : ℕ) (i : Identity) (m : Membership) (c : TenantContext)
    → active_identity (s.identities identity) ≡ some i
    → has_credential s identity ≡ true
    → membership_context s identity i m ≡ some c
    → IsTenantEntitled s identity c × (c.membership ≡ m.id)
unfolding membership_context
context_sound s identity i m c known credential e = elim (Bool-cases (is_held identity m)) [
  | inr away ↦ ground (arith, away, e)
  | inl held ↦ elim (Option-cases (open_tenant (s.tenants m.tenant))) [
    | inl shut ↦ ground (arith, held, shut, e)
    | inr (t, opened) ↦ elim (Option-cases (user_of_identity s m.tenant identity)) [
      | inl unknown ↦ ground (arith, held, opened, unknown, e)
      | inr (u, found) ↦ (
        record {
          identified = record { row = i; known = known; credential = credential };
          membership = m;
          held = held;
          tenant = t;
          opened = opened;
          user = u;
          found = found;
          context = ground (arith, held, opened, found, e);
        },
        ground (arith, held, opened, found, e),
      )
    ]
  ]
]

pub authorize_tenant_sound :
    (s : Accounts) (identity membership tenant : ℕ) (c : TenantContext) (branch : Option ℕ)
    → authorize_tenant identity membership tenant s ≡ some (c, branch)
    → IsTenantEntitled s identity c × (c.membership ≡ membership)
unfolding authorize_tenant
authorize_tenant_sound s identity membership tenant c branch e =
    elim (Option-cases (active_identity (s.identities identity))) [
      | inl unknown ↦ ground (arith, unknown, e)
      | inr (i, known) ↦ elim (Bool-cases (has_credential s identity)) [
        | inr without ↦ ground (arith, known, without, e)
        | inl credential ↦
            elim (Option-cases (
              find (λ m. m.id == membership && m.tenant == tenant && is_held identity m)
                s.memberships)) [
                  | inl missing ↦ ground (arith, known, credential, missing, e)
                  | inr (m, listed) ↦
                      let fits =
                        find_fits
                          (λ m. m.id == membership && m.tenant == tenant && is_held identity m)
                          s.memberships listed in
                      elim (Option-cases (membership_context s identity i m)) [
                        | inl refused ↦ ground (arith, known, credential, listed, refused, e)
                        | inr (d, allowed) ↦
                            elim (Option-cases (user_of_identity s m.tenant identity)) [
                              | inl nobody ↦
                                  ground (arith, known, credential, listed, allowed, nobody, e)
                              | inr (u, found) ↦
                                  let same : c ≡ d =
                                    ground (arith, known, credential, listed, allowed, found, e) in
                                  let (entitled, same_id) =
                                    context_sound s identity i m d known credential allowed in
                                  (
                                    subst (IsTenantEntitled s identity) (sym same) entitled,
                                    ap (λ x. x.membership) same ∙ same_id ∙ ground (arith, fits),
                                  )
                            ]
                      ]
                ]
      ]
    ]

pub authorize_platform_sound :
    (s : Accounts) (identity membership : ℕ) (c : PlatformContext)
    → authorize_platform identity membership s ≡ some c
    → IsPlatformEntitled s identity c × (c.membership ≡ membership)
unfolding authorize_platform
authorize_platform_sound s identity membership c e =
    elim (Option-cases (active_identity (s.identities identity))) [
      | inl unknown ↦ ground (arith, unknown, e)
      | inr (i, known) ↦ elim (Bool-cases (has_credential s identity)) [
        | inr without ↦ ground (arith, known, without, e)
        | inl credential ↦
            elim (Option-cases (
              find (λ m. m.id == membership && is_platform_held identity m)
                s.platform_memberships)) [
                  | inl missing ↦ ground (arith, known, credential, missing, e)
                  | inr (m, listed) ↦
                      let fits =
                        find_fits (λ m. m.id == membership && is_platform_held identity m)
                          s.platform_memberships listed in
                      (
                        record {
                          identified = record { row = i; known = known; credential = credential };
                          membership = m;
                          held = ground (arith, fits);
                          context = ground (arith, known, credential, listed, e);
                        },
                        ground (arith, known, credential, listed, e, fits),
                      )
                ]
      ]
    ]
