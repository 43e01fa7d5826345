-- ===== src/Accounts/Selection.antt =====
-- What the choice of a context in
-- src/application/services/unified-authentication-service.ts gives, and to whom.
use new_erp_final.Common.{
  ℕ, ◌≤◌, ◌≡◌, ap, ◌∙◌, true, Option, none, some, ◌∷◌, ◌==◌, find, arith, inl, inr, Bool-cases,
  Option-cases, find_fits, ==_self,
}
use mathlib.Core.Path.{subst, sym}
use new_erp_final.Accounts.Rows.{
  LoginContext, tenant_context, platform_context, Offer, Challenge, Session, Accounts,
}
use new_erp_final.Accounts.Credentials.{LockoutOptions}
use new_erp_final.Accounts.Contexts.{
  resolve, tenant_contexts, membership_context, authorize_tenant, authorize_platform, same_context,
  same_snapshot, make_snapshot,
}
use new_erp_final.Accounts.Login.{
  Ports, Resolution, nothing, direct, Issued, open_tenant_session, open_platform_session,
  issue_context, tenant_session, platform_session, choose, select_context, is_pending, pending,
  spend,
}
use new_erp_final.Accounts.Entitled.{
  IsTenantEntitled, IsPlatformEntitled, IsEntitled, authorize_tenant_sound,
  authorize_platform_sound,
}
use new_erp_final.Accounts.Own.{identity_of, resolve_own}

module _ (ports : Ports) (lockout : LockoutOptions) where
  -- The session of a context.
  abbrev pub session_for : LoginContext → Option ℕ → ℕ → ℕ → Session
  session_for (tenant_context c) branch id now = tenant_session ports lockout c branch id now
  session_for (platform_context c) branch id now = platform_session ports lockout c id now

  -- An answer that has made one session, of a context to which its identity is entitled.
  pub record IsIssued (s : Accounts) (identity now : ℕ) (c : LoginContext) (i : Issued)
      (t : Accounts) : Type 0 where
    pub entitled : IsEntitled s identity c
    pub branch : Option ℕ
    pub session : t.sessions ≡ session_for c branch i.session now ∷ s.sessions
    pub owner : identity_of c ≡ identity
    pub token : i.refresh_token ≡ ports.refresh_token identity i.session

  pub issue_sound :
      (c d : LoginContext) (now : ℕ) (s t : Accounts) (i : Issued)
      → issue_context ports lockout c now s ≡ (direct d i, t)
      → IsIssued s (identity_of c) now d i t × (same_context d c ≡ true)
  unfolding issue_context open_tenant_session open_platform_session
  issue_sound (tenant_context c) (tenant_context d) now s t i e =
      elim (Option-cases (authorize_tenant c.identity c.membership c.tenant s)) [
        | inl refused ↦ ground (arith, refused, e)
        | inr ((x, b), allowed) ↦
            let (entitled, member) =
              authorize_tenant_sound s c.identity c.membership c.tenant x b allowed in
            let same : d ≡ x = ground (arith, allowed, e) in
            let own : d.identity ≡ c.identity =
              ap (λ y. y.identity) same ∙ ap (λ y. y.identity) entitled.context in
            (
              record {
                entitled = subst (IsTenantEntitled s c.identity) (sym same) entitled;
                branch = b;
                session = ground (arith, allowed, e);
                owner = own;
                token = ground (arith, allowed, e, own, same);
              },
              ground (arith, same, member),
            )
      ]
  issue_sound (tenant_context c) (platform_context d) now s t i e =
      elim (Option-cases (authorize_tenant c.identity c.membership c.tenant s)) [
        | inl refused ↦ ground (arith, refused, e)
        | inr ((x, b), allowed) ↦ ground (arith, allowed, e)
      ]
  issue_sound (platform_context c) (tenant_context d) now s t i e =
      elim (Option-cases (authorize_platform c.identity c.membership s)) [
        | inl refused ↦ ground (arith, refused, e)
        | inr (x, allowed) ↦ ground (arith, allowed, e)
      ]
  issue_sound (platform_context c) (platform_context d) now s t i e =
      elim (Option-cases (authorize_platform c.identity c.membership s)) [
        | inl refused ↦ ground (arith, refused, e)
        | inr (x, allowed) ↦
            let (entitled, member) = authorize_platform_sound s c.identity c.membership x allowed in
            let same : d ≡ x = ground (arith, allowed, e) in
            let own : d.identity ≡ c.identity =
              ap (λ y. y.identity) same ∙ ap (λ y. y.identity) entitled.context in
            (
              record {
                entitled = subst (IsPlatformEntitled s c.identity) (sym same) entitled;
                branch = none;
                session = ground (arith, allowed, e);
                owner = own;
                token = ground (arith, allowed, e, own, same);
              },
              ground (arith, same, member),
            )
      ]

  issue_challenges :
      (c : LoginContext) (now : ℕ) (s : Accounts)
      → (issue_context ports lockout c now s).1.challenges ≡ s.challenges
  unfolding issue_context open_tenant_session open_platform_session
  issue_challenges (tenant_context c) now s =
      elim (Option-cases (authorize_tenant c.identity c.membership c.tenant s)) [
        | inl refused ↦ ground (arith, refused)
        | inr ((d, b), allowed) ↦ ground (arith, allowed)
      ]
  issue_challenges (platform_context c) now s =
      elim (Option-cases (authorize_platform c.identity c.membership s)) [
        | inl refused ↦ ground (arith, refused)
        | inr (d, allowed) ↦ ground (arith, allowed)
      ]

  choose_challenges :
      (c : Challenge) (reference now : ℕ) (s : Accounts)
      → (choose ports lockout c reference now s).1.challenges ≡ s.challenges
  unfolding choose
  choose_challenges c reference now s =
      elim (Option-cases (find (λ o. o.reference == reference) c.snapshot.offers)) [
        | inl absent ↦ ground (arith, absent)
        | inr (o, offered) ↦
            elim (Option-cases
              (find (λ x. same_context x o.context) (resolve c.identity s).contexts)) [
                | inl gone ↦ ground (arith, offered, gone)
                | inr (x, there) ↦ ground (arith, offered, there, issue_challenges x now s)
              ]
      ]

  -- A challenge token is good for one attempt: whatever came of it, a later attempt with any
  -- reference yields nothing and changes nothing.
  pub select_once :
      (id secret reference again now later : ℕ) (s t : Accounts) (r : Resolution)
      → now ≤ later
      → select_context ports lockout (some (id, secret)) reference now s ≡ (r, t)
      → select_context ports lockout (some (id, secret)) again later t ≡ (nothing, t)
  unfolding select_context
  select_once id secret reference again now later s t r order e =
      elim (Option-cases (s.challenges id)) [
        | inl unknown ↦ ground (arith, unknown, e)
        | inr (c, stored) ↦ elim (Bool-cases (is_pending ports lockout (ports.sha secret) now c)) [
          | inr stale ↦ ground (arith, stored, stale, order, e)
          | inl fresh ↦
              let kept = choose_challenges c reference now (spend ports lockout id c s) in
              let spent : t.challenges id ≡ some (record c { consumed = true }) =
                ground (arith, stored, fresh, e, kept, ==_self id) in
              ground (arith, spent)
        ]
      ]

  -- What a choice that gives a context has read and written.
  pub record IsSelected (id secret reference now : ℕ) (s : Accounts) (c : LoginContext) (i : Issued)
      (t : Accounts) : Type 0 where
    pub challenge : Challenge
    pub stored : s.challenges id ≡ some challenge
    pub pending : is_pending ports lockout (ports.sha secret) now challenge ≡ true
    pub spent : t.challenges id ≡ some (record challenge { consumed = true })
    pub offer : Offer
    pub offered : find (λ o. o.reference == reference) challenge.snapshot.offers ≡ some offer
    pub chosen : same_context c offer.context ≡ true
    pub unchanged :
        same_snapshot
          (make_snapshot ports.random challenge.snapshot.offers s.drawn
            (resolve challenge.identity s))
          challenge.snapshot
        ≡ true
    pub issue : IsIssued (spend ports lockout id challenge s) challenge.identity now c i t

  same_context_trans :
      (a b d : LoginContext)
      → same_context a b ≡ true
      → same_context b d ≡ true
      → same_context a d ≡ true
  same_context_trans a b d = ground arith

  pending_sound :
      (secret_hash now : ℕ) (o : Option Challenge) (c : Challenge)
      → pending ports lockout secret_hash now o ≡ some c
      → (o ≡ some c) × (is_pending ports lockout secret_hash now c ≡ true)
  pending_sound secret_hash now none c live = ground (arith, live)
  pending_sound secret_hash now (some x) c live =
      elim (Bool-cases (is_pending ports lockout secret_hash now x)) [
        | inl yes_it_is ↦ (ground (arith, live, yes_it_is), ground (arith, live, yes_it_is))
        | inr closed ↦ ground (arith, live, closed)
      ]

  -- A choice that gives a context has used up the challenge of the token, which was open and in
  -- time. The context is the one that the challenge offers under the reference, and everything
  -- that the challenge offers is what its identity may use now, at the same versions. The
  -- identity is entitled to the context by rows that hold now, and one session of it is made.
  pub select_context-IsSelected :
      (id secret reference now : ℕ) (s t : Accounts) (d : LoginContext) (i : Issued)
      → select_context ports lockout (some (id, secret)) reference now s ≡ (direct d i, t)
      → IsSelected id secret reference now s d i t
  unfolding select_context choose resolve tenant_contexts membership_context
  select_context-IsSelected id secret reference now s t d i e =
      elim (Option-cases (pending ports lockout (ports.sha secret) now (s.challenges id))) [
        | inl closed ↦ ground (arith, closed, e)
        | inr (c, live) ↦
            let w = spend ports lockout id c s in
            elim (Option-cases (find (λ o. o.reference == reference) c.snapshot.offers)) [
              | inl unoffered ↦ ground (arith, live, unoffered, e)
              | inr (o, offered) ↦
                  elim (Option-cases
                    (find (λ x. same_context x o.context) (resolve c.identity w).contexts)) [
                      | inl gone ↦ ground (arith, live, offered, gone, e)
                      | inr (x, there) ↦
                          let (stored, open_yet) =
                            pending_sound (ports.sha secret) now (s.challenges id) c live in
                          let given : (issue_context ports lockout x now w ≡ (direct d i, t))
                              × (same_snapshot
                                    (make_snapshot ports.random c.snapshot.offers w.drawn
                                      (resolve c.identity w))
                                    c.snapshot
                                  ≡ true) =
                            ground (arith, live, offered, there, e) in
                          let (issue, same) = issue_sound x d now w t i given.0 in
                          let own =
                            resolve_own c.identity (λ x. same_context x o.context) w there in
                          let fits =
                            find_fits (λ x. same_context x o.context)
                              (resolve c.identity w).contexts there in
                          let kept = issue_challenges x now w in
                          record {
                            challenge = c;
                            stored = stored;
                            pending = open_yet;
                            spent = ground (arith, kept, given, ==_self id);
                            offer = o;
                            offered = offered;
                            chosen = same_context_trans d x o.context same fits;
                            unchanged = given.1;
                            issue = subst (λ y. IsIssued w y now d i t) own issue;
                          }
                    ]
            ]
      ]
