-- ===== src/Accounts/Contexts.antt =====
-- The contexts that an identity may work in: the queries of
-- src/infrastructure/database/repositories/postgres-platform-repository.ts, and the snapshot of
-- src/application/services/unified-authentication-service.ts that a challenge keeps.
use new_erp_final.Common.{
  ℕ, suc, Bool, true, false, not, ◌&&◌, Option, none, some, List, [], ◌∷◌, ◌==◌, leb, if◌then◌else◌,
  find, is_some, member,
}
use new_erp_final.Accounts.Rows.{
  Identity, Tenant, User, Membership, PlatformMembership, TenantContext, PlatformContext,
  LoginContext, tenant_context, platform_context, Offer, Snapshot, Accounts, is_active, is_open,
}
use new_erp_final.Accounts.Credentials.{active_identity, active_credential}

abbrev pub open_tenant : Option Tenant → Option Tenant
open_tenant none = none
open_tenant (some t) = if is_open t then some t else none

-- The user of an identity in a tenant, of whom there is at most one.
abbrev pub is_user_of : ℕ → ℕ → User → Bool
is_user_of tenant identity u =
    u.tenant == tenant && u.identity == identity && is_active u.status && not u.is_deleted

abbrev pub user_of_identity : Accounts → ℕ → ℕ → Option User
user_of_identity s tenant identity = find (is_user_of tenant identity) s.users

abbrev pub is_held : ℕ → Membership → Bool
is_held identity m = m.identity == identity && m.active && not m.revoked

abbrev pub is_platform_held : ℕ → PlatformMembership → Bool
is_platform_held identity m = m.identity == identity && m.active && not m.revoked

abbrev pub context_of :
    ℕ → Identity → Membership → Option Tenant → Option User → Option TenantContext
context_of identity i m (some t) (some u) = some (record {
  membership = m.id;
  tenant = m.tenant;
  identity = identity;
  user = u.id;
  identity_version = i.security_version;
  membership_version = m.security_version;
  tenant_version = t.version;
  user_version = u.version;
})
context_of identity i m _ _ = none

-- The context of a membership, if its tenant is open and the identity has an active user there.
unfoldable pub membership_context : Accounts → ℕ → Identity → Membership → Option TenantContext
membership_context s identity i m =
    if is_held identity m
    then context_of identity i m (open_tenant (s.tenants m.tenant))
        (user_of_identity s m.tenant identity)
    else none

abbrev pub platform_context_of : ℕ → Identity → PlatformMembership → PlatformContext
platform_context_of identity i m = record {
  membership = m.id;
  identity = identity;
  identity_version = i.security_version;
  membership_version = m.security_version;
}

unfoldable pub tenant_contexts : Accounts → ℕ → Identity → List Membership → List LoginContext
tenant_contexts s identity i [] = []
tenant_contexts s identity i (m ∷ ms) =
    let rest = tenant_contexts s identity i ms in
    elim (membership_context s identity i m) [ none ↦ rest | some c ↦ tenant_context c ∷ rest ]

unfoldable pub platform_contexts : ℕ → Identity → List PlatformMembership → List LoginContext
platform_contexts identity i [] = []
platform_contexts identity i (m ∷ ms) =
    let rest = platform_contexts identity i ms in
    if is_platform_held identity m
    then platform_context (platform_context_of identity i m) ∷ rest
    else rest

-- `compareUsableLoginContexts(left, right) <= 0`: 'platform' comes before 'tenant', and numbers
-- are in the order of the identifiers that they stand for.
abbrev pub precedes : LoginContext → LoginContext → Bool
precedes (platform_context a) (platform_context b) = leb a.membership b.membership
precedes (platform_context a) (tenant_context b) = true
precedes (tenant_context a) (platform_context b) = false
precedes (tenant_context a) (tenant_context b) = leb a.membership b.membership

-- `Array.prototype.sort`, which is stable.
unfoldable pub insert_context : LoginContext → List LoginContext → List LoginContext
insert_context c [] = c ∷ []
insert_context c (d ∷ ds) =
    let rest = insert_context c ds in if precedes c d then c ∷ d ∷ ds else d ∷ rest

unfoldable pub sort_contexts : List LoginContext → List LoginContext
sort_contexts [] = []
sort_contexts (c ∷ cs) = insert_context c (sort_contexts cs)

abbrev pub has_identifier : Accounts → ℕ → Bool
has_identifier s identity = member (λ i. i.identity == identity && i.active) s.identifiers

abbrev pub has_credential : Accounts → ℕ → Bool
has_credential s identity = is_some (active_credential (s.credentials identity))

abbrev pub concat : List LoginContext → List LoginContext → List LoginContext
concat [] ys = ys
concat (x ∷ xs) ys = x ∷ concat xs ys

pub record Usable : Type 0 where
  pub identity_version : ℕ
  pub contexts : List LoginContext

-- `resolveUsableLoginContexts`
unfoldable pub resolve : ℕ → Accounts → Usable
resolve identity s = elim (active_identity (s.identities identity)) [
  | none ↦ record { identity_version = 0; contexts = [] }
  | some i ↦
      if has_identifier s identity && has_credential s identity
      then record {
        identity_version = i.security_version;
        contexts = sort_contexts (
            concat (tenant_contexts s identity i s.memberships)
              (platform_contexts identity i s.platform_memberships));
      }
      else record { identity_version = 0; contexts = [] }
]

-- `authorizeTenantLoginContext`; the branch of the user is read with it.
unfoldable pub authorize_tenant : ℕ → ℕ → ℕ → Accounts → Option (TenantContext × Option ℕ)
authorize_tenant identity membership tenant s = elim (active_identity (s.identities identity)) [
  | none ↦ none
  | some i ↦
      if has_credential s identity
      then elim (find (λ m. m.id == membership && m.tenant == tenant && is_held identity m)
          s.memberships) [
            | none ↦ none
            | some m ↦ elim (membership_context s identity i m) [
              | none ↦ none
              | some c ↦ elim (user_of_identity s m.tenant identity) [
                | none ↦ none
                | some u ↦ some (c, u.default_branch)
              ]
            ]
          ]
      else none
]

-- `authorizePlatformLoginContext`
unfoldable pub authorize_platform : ℕ → ℕ → Accounts → Option PlatformContext
authorize_platform identity membership s = elim (active_identity (s.identities identity)) [
  | none ↦ none
  | some i ↦
      if has_credential s identity
      then elim (find (λ m. m.id == membership && is_platform_held identity m)
          s.platform_memberships) [ none ↦ none | some m ↦ some (platform_context_of identity i m) ]
      else none
]

-- `contextType === … && contextId === …`
abbrev pub same_context : LoginContext → LoginContext → Bool
same_context (tenant_context a) (tenant_context b) = a.membership == b.membership
same_context (platform_context a) (platform_context b) = a.membership == b.membership
same_context _ _ = false

-- The equality of two entries in the JSON text of a snapshot, which leaves out the identity.
abbrev pub same_entry : LoginContext → LoginContext → Bool
same_entry (tenant_context a) (tenant_context b) =
    a.membership == b.membership
    && a.tenant == b.tenant
    && a.user == b.user
    && a.identity_version == b.identity_version
    && a.membership_version == b.membership_version
    && a.tenant_version == b.tenant_version
    && a.user_version == b.user_version
same_entry (platform_context a) (platform_context b) =
    a.membership == b.membership
    && a.identity_version == b.identity_version
    && a.membership_version == b.membership_version
same_entry _ _ = false

unfoldable pub same_offers : List Offer → List Offer → Bool
same_offers [] [] = true
same_offers (a ∷ xs) (b ∷ ys) =
    let rest = same_offers xs ys in
    same_entry a.context b.context && a.reference == b.reference && rest
same_offers _ _ = false

-- `stableJson(a) === stableJson(b)`
unfoldable pub same_snapshot : Snapshot → Snapshot → Bool
same_snapshot a b = a.identity_version == b.identity_version && same_offers a.offers b.offers

abbrev reference_of : Option Offer → ℕ → ℕ
reference_of none random = random
reference_of (some o) random = o.reference

-- `makeSnapshot`: a context keeps the reference that it had, or gets a random one; `random n` is
-- the n-th that is drawn.
unfoldable pub make_offers : (ℕ → ℕ) → List Offer → ℕ → List LoginContext → List Offer
make_offers random existing n [] = []
make_offers random existing n (c ∷ cs) =
    record {
      context = c;
      reference = reference_of (find (λ o. same_context o.context c) existing) (random n);
    }
    ∷ make_offers random existing (suc n) cs

unfoldable pub make_snapshot : (ℕ → ℕ) → List Offer → ℕ → Usable → Snapshot
make_snapshot random existing n u = record {
  offers = make_offers random existing n (sort_contexts u.contexts);
  identity_version = u.identity_version;
}
