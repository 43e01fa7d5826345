-- ===== src/Accounts/Own.antt =====
-- The contexts that src/infrastructure/database/repositories/postgres-platform-repository.ts
-- resolves for an identity are of that identity.
use new_erp_final.Common.{
  ℕ, ◌≡◌, refl, Bool, false, not, ◌&&◌, some, List, [], ◌∷◌, ◌==◌, find, member, arith, inl, inr,
  Bool-cases, Option-cases, ==_self,
}
use new_erp_final.Accounts.Rows.{
  Identity, Membership, PlatformMembership, LoginContext, tenant_context, platform_context,
  Accounts,
}
use new_erp_final.Accounts.Credentials.{active_identity}
use new_erp_final.Accounts.Contexts.{
  resolve, membership_context, tenant_contexts, platform_contexts, insert_context, sort_contexts,
  concat, user_of_identity, open_tenant, has_credential, has_identifier,
}

-- The identity that a context is of.
abbrev pub identity_of : LoginContext → ℕ
identity_of (tenant_context c) = c.identity
identity_of (platform_context c) = c.identity

abbrev pub is_other : ℕ → LoginContext → Bool
is_other identity c = not (identity_of c == identity)

insert_other :
    (identity : ℕ) (c : LoginContext) (cs : List LoginContext)
    → is_other identity c ≡ false
    → member (is_other identity) cs ≡ false
    → member (is_other identity) (insert_context c cs) ≡ false
unfolding insert_context
insert_other identity c [] own h = ground arith
insert_other identity c (d ∷ ds) own h = ground (arith, insert_other identity c ds)

sort_other :
    (identity : ℕ) (cs : List LoginContext)
    → member (is_other identity) cs ≡ false
    → member (is_other identity) (sort_contexts cs) ≡ false
unfolding sort_contexts
sort_other identity [] h = h
sort_other identity (c ∷ cs) h =
    insert_other identity c (sort_contexts cs) (ground (arith, h))
      (sort_other identity cs (ground (arith, h)))

concat_other :
    (identity : ℕ) (xs ys : List LoginContext)
    → member (is_other identity) xs ≡ false
    → member (is_other identity) ys ≡ false
    → member (is_other identity) (concat xs ys) ≡ false
concat_other identity [] ys h k = k
concat_other identity (x ∷ xs) ys h k = ground (arith, concat_other identity xs ys)

tenant_other :
    (s : Accounts) (identity : ℕ) (i : Identity) (ms : List Membership)
    → member (is_other identity) (tenant_contexts s identity i ms) ≡ false
unfolding tenant_contexts membership_context
tenant_other s identity i [] = refl
tenant_other s identity i (m ∷ ms) =
    let rest = tenant_other s identity i ms in
    elim (Option-cases (open_tenant (s.tenants m.tenant))) [
      | inl shut ↦ ground (arith, shut, rest)
      | inr (t, opened) ↦ elim (Option-cases (user_of_identity s m.tenant identity)) [
        | inl unknown ↦ ground (arith, opened, unknown, rest)
        | inr (u, found) ↦ ground (arith, opened, found, rest, ==_self identity)
      ]
    ]

platform_other :
    (identity : ℕ) (i : Identity) (ms : List PlatformMembership)
    → member (is_other identity) (platform_contexts identity i ms) ≡ false
unfolding platform_contexts
platform_other identity i [] = refl
platform_other identity i (m ∷ ms) = ground (arith, platform_other identity i ms, ==_self identity)

-- The contexts of an identity are its own.
resolve_other :
    (identity : ℕ) (s : Accounts) → member (is_other identity) (resolve identity s).contexts ≡ false
unfolding resolve
resolve_other identity s = elim (Option-cases (active_identity (s.identities identity))) [
  | inl unknown ↦ ground (arith, unknown)
  | inr (i, known) ↦
      let own =
        sort_other identity
          (concat (tenant_contexts s identity i s.memberships)
            (platform_contexts identity i s.platform_memberships))
          (concat_other identity (tenant_contexts s identity i s.memberships)
            (platform_contexts identity i s.platform_memberships)
            (tenant_other s identity i s.memberships)
            (platform_other identity i s.platform_memberships)) in
      elim (Bool-cases (has_identifier s identity && has_credential s identity)) [
        | inl whole ↦ ground (arith, known, whole, own)
        | inr part ↦ ground (arith, known, part)
      ]
]

own_of_list :
    (identity : ℕ) (p : LoginContext → Bool) (cs : List LoginContext) {c : LoginContext}
    → member (is_other identity) cs ≡ false
    → find p cs ≡ some c
    → identity_of c ≡ identity
own_of_list identity p [] h found = cc
own_of_list identity p (d ∷ ds) {c} h found = ground (arith, own_of_list identity p ds {c = c})

pub resolve_own :
    (identity : ℕ) (p : LoginContext → Bool) (s : Accounts) {c : LoginContext}
    → find p (resolve identity s).contexts ≡ some c
    → identity_of c ≡ identity
resolve_own identity p s found =
    own_of_list identity p (resolve identity s).contexts (resolve_other identity s) found
