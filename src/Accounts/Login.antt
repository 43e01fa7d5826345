-- ===== src/Accounts/Login.antt =====
-- src/application/services/unified-authentication-service.ts, and `authenticateTenantContext` of
-- src/application/services/authentication-service.ts: each query commits by itself. A challenge
-- token is the pair of its two parts, `none` where the text does not have the form of one; the
-- names in the answer are left out.
use new_erp_final.Common.{
  ℕ, suc, ◌+◌, Bool, true, false, not, ◌&&◌, Option, none, some, List, [], ◌∷◌, ◌==◌, ltb,
  if◌then◌else◌, find,
}
use new_erp_final.Accounts.Rows.{
  TenantContext, PlatformContext, LoginContext, tenant_context, platform_context, Offer, Snapshot,
  Challenge, user_of, platform_of, Session, Accounts,
}
use new_erp_final.Accounts.Credentials.{
  LoginIdentity, LockoutOptions, find_login_identity, record_failed, reset_failed, is_locked,
}
use new_erp_final.Accounts.Contexts.{
  Usable, resolve, authorize_tenant, authorize_platform, same_context, same_snapshot, make_snapshot,
}

-- What the services are given: `PasswordHasher.verify`, SHA-256, the n-th random value, the
-- refresh token of an identity and a session, `validateBranchAccess`, `trim`, and the pattern of
-- a reference.
pub record Ports : Type 0 where
  pub verify : ℕ → ℕ → Bool
  pub sha : ℕ → ℕ
  pub random : ℕ → ℕ
  pub refresh_token : ℕ → ℕ → ℕ
  pub branch_access : ℕ → ℕ → ℕ → Bool
  pub trim : ℕ → ℕ
  pub is_reference : ℕ → Bool

-- The session that a login has made and its refresh token.
pub record Issued : Type 0 where
  pub session : ℕ
  pub refresh_token : ℕ

-- An entry of `contexts` in the answer.
pub record Choice : Type 0 where
  pub is_platform : Bool
  pub reference : ℕ

-- `ZERO` with the tenant of the failure and whether the reason is `ACCOUNT_LOCKED`, `DIRECT`, or
-- `SELECT` with the challenge token.
pub data Resolution : Type 0 where
  zero_contexts : Option ℕ → Bool → Resolution
  direct : LoginContext → Issued → Resolution
  select : List Choice → ℕ → ℕ → Resolution

abbrev pub nothing : Resolution
nothing = zero_contexts none false

abbrev pub is_tenant : LoginContext → Option ℕ
is_tenant (tenant_context c) = some c.tenant
is_tenant (platform_context c) = none

-- `contexts.find((context) => context.contextType === 'tenant')?.tenantId`
unfoldable pub first_tenant : List LoginContext → Option ℕ
first_tenant [] = none
first_tenant (c ∷ cs) = elim (is_tenant c) [ none ↦ first_tenant cs | some t ↦ some t ]

abbrev pub is_platform : LoginContext → Bool
is_platform (tenant_context c) = false
is_platform (platform_context c) = true

unfoldable pub descriptors : List Offer → List Choice
descriptors [] = []
descriptors (o ∷ os) =
    record { is_platform = is_platform o.context; reference = o.reference } ∷ descriptors os

-- `8 * 60 * 60 * 1000` and `CHALLENGE_TTL_MS`.
abbrev pub session_span : ℕ
session_span = 28800000

abbrev pub challenge_span : ℕ
challenge_span = 300000

module _ (ports : Ports) (lockout : LockoutOptions) where
  abbrev pub add_session : Session → Accounts → Accounts
  add_session x s = record s { sessions = x ∷ s.sessions; drawn = suc s.drawn }

  abbrev granted_branch : TenantContext → Option ℕ → Option ℕ
  granted_branch c none = none
  granted_branch c (some b) = if ports.branch_access c.tenant c.user b then some b else none

  abbrev pub tenant_session : TenantContext → Option ℕ → ℕ → ℕ → Session
  tenant_session c branch id now = record {
    id = id;
    holder = user_of c.tenant c.user (some c.membership);
    identity = c.identity;
    branch = granted_branch c branch;
    hash = ports.sha (ports.refresh_token c.identity id);
    active = true;
    revoked_at = none;
    expires = now + session_span;
    security_version = c.membership_version;
  }

  abbrev pub platform_session : PlatformContext → ℕ → ℕ → Session
  platform_session c id now = record {
    id = id;
    holder = platform_of c.membership;
    identity = c.identity;
    branch = none;
    hash = ports.sha (ports.refresh_token c.identity id);
    active = true;
    revoked_at = none;
    expires = now + session_span;
    security_version = c.membership_version;
  }

  abbrev pub issued : ℕ → ℕ → Issued
  issued identity id = record { session = id; refresh_token = ports.refresh_token identity id }

  -- `authenticateTenantContext`
  unfoldable pub open_tenant_session :
      TenantContext → Option ℕ → ℕ → Accounts → Resolution × Accounts
  open_tenant_session c branch now s =
      let id = ports.random s.drawn in
      (
        direct (tenant_context c) (issued c.identity id),
        add_session (tenant_session c branch id now) s,
      )

  -- `issuePlatformContext`
  unfoldable pub open_platform_session : PlatformContext → ℕ → Accounts → Resolution × Accounts
  open_platform_session c now s =
      let id = ports.random s.drawn in
      (
        direct (platform_context c) (issued c.identity id),
        add_session (platform_session c id now) s,
      )

  -- `issueContext`: the context is authorized again before its session is made.
  unfoldable pub issue_context : LoginContext → ℕ → Accounts → Resolution × Accounts
  issue_context (tenant_context c) now s =
      elim (authorize_tenant c.identity c.membership c.tenant s) [
        | none ↦ (nothing, s)
        | some (d, branch) ↦ open_tenant_session d branch now s
      ]
  issue_context (platform_context c) now s = elim (authorize_platform c.identity c.membership s) [
    | none ↦ (nothing, s)
    | some d ↦ open_platform_session d now s
  ]

  abbrev challenge_of : ℕ → Snapshot → ℕ → ℕ → Challenge
  challenge_of identity snapshot secret now = record {
    identity = identity;
    secret_hash = ports.sha secret;
    snapshot = snapshot;
    expires = now + challenge_span;
    consumed = false;
  }

  abbrev count_drawn : List LoginContext → ℕ → ℕ
  count_drawn [] n = n
  count_drawn (c ∷ cs) n = count_drawn cs (suc n)

  abbrev pub put_challenge : ℕ → Challenge → (ℕ → Option Challenge) → ℕ → Option Challenge
  put_challenge id c challenges i = if i == id then some c else challenges i

  -- A challenge for an identity with several contexts: `createPendingLoginChallenge`.
  unfoldable pub challenge : ℕ → Usable → ℕ → Accounts → Resolution × Accounts
  challenge identity u now s =
      let id = ports.random s.drawn in
      let secret = ports.random (s.drawn + 1) in
      let snapshot = make_snapshot ports.random [] (s.drawn + 2) u in
      (
        select (descriptors snapshot.offers) id secret,
        record s {
          challenges = put_challenge id (challenge_of identity snapshot secret now) s.challenges;
          drawn = count_drawn u.contexts (s.drawn + 2);
        },
      )

  -- What follows a valid password.
  unfoldable pub enter : ℕ → ℕ → Usable → Accounts → Resolution × Accounts
  enter identity now u s = elim u.contexts [
    | [] ↦ (nothing, s)
    | c ∷ cs ↦ elim cs [ [] ↦ issue_context c now s | d ∷ ds ↦ challenge identity u now s ]
  ]

  -- What follows a wrong password.
  unfoldable pub reject : ℕ → ℕ → Accounts → Resolution × Accounts
  reject identity now s =
      let (lock, t) = record_failed lockout identity now s in
      (zero_contexts (first_tenant (resolve identity t).contexts) (is_locked lock now), t)

  -- What a login does once it has found an identity that is not locked. The password is compared
  -- with the hash that was read then; the statements on the credential are each atomic.
  unfoldable pub settle : LoginIdentity → ℕ → ℕ → Accounts → Resolution × Accounts
  settle c password now s =
      if ports.verify password c.hash
      then enter c.identity now (resolve c.identity (reset_failed c.identity s))
          (reset_failed c.identity s)
      else reject c.identity now s

  -- `authenticate`, of a login that no other falls into: the query of the identity and what follows
  -- it commit one by one. The lockout is about logins that overlap.
  unfoldable pub authenticate : ℕ → ℕ → ℕ → Accounts → Resolution × Accounts
  authenticate identifier password now s = elim (find_login_identity (ports.trim identifier) s) [
    | none ↦ (nothing, s)
    | some c ↦
        if is_locked c.locked_until now
        then (zero_contexts (first_tenant (resolve c.identity s).contexts) false, s)
        else settle c password now s
  ]

  -- `consumePendingLoginChallenge`
  abbrev pub is_pending : ℕ → ℕ → Challenge → Bool
  is_pending secret_hash now c = c.secret_hash == secret_hash && not c.consumed && ltb now c.expires

  abbrev pub pending : ℕ → ℕ → Option Challenge → Option Challenge
  pending secret_hash now none = none
  pending secret_hash now (some c) = if is_pending secret_hash now c then some c else none

  abbrev pub spend : ℕ → Challenge → Accounts → Accounts
  spend id c s = record s {
    challenges = put_challenge id (record c { consumed = true }) s.challenges;
  }

  -- What follows the consumption of a challenge.
  unfoldable pub choose : Challenge → ℕ → ℕ → Accounts → Resolution × Accounts
  choose c reference now s =
      let u = resolve c.identity s in
      if ports.is_reference reference
      then elim (find (λ o. o.reference == reference) c.snapshot.offers) [
        | none ↦ (nothing, s)
        | some o ↦ elim (find (λ x. same_context x o.context) u.contexts) [
          | none ↦ (nothing, s)
          | some x ↦
              if same_snapshot (make_snapshot ports.random c.snapshot.offers s.drawn u) c.snapshot
              then issue_context x now s
              else (nothing, s)
        ]
      ]
      else (nothing, s)

  unfoldable pub select_context : Option (ℕ × ℕ) → ℕ → ℕ → Accounts → Resolution × Accounts
  select_context none reference now s = (nothing, s)
  select_context (some (id, secret)) reference now s =
      elim (pending (ports.sha secret) now (s.challenges id)) [
        | none ↦ (nothing, s)
        | some c ↦ choose c reference now (spend id c s)
      ]
