-- ===== src/Accounts/Recovery.antt =====
-- src/infrastructure/database/repositories/postgres-account-security-repository.ts: each function
-- is one transaction.
use new_erp_final.Common.{
  ℕ, ◌+◌, Bool, true, false, not, ◌&&◌, ◌||◌, Option, none, some, List, [], ◌∷◌, ◌==◌, ltb,
  if◌then◌else◌, map, find, update_first, is_some, member,
}
use new_erp_final.Accounts.Rows.{
  User, UserStatus, active, pending_verification, Holder, user_of, platform_of, Session, Token,
  LoginIdentifier, Accounts, Query, is_active,
}

pub record RecoveryOptions : Type 0 where
  pub verification_minutes : ℕ
  pub reset_minutes : ℕ

-- `createOpaqueToken`, at its n-th call, `hashOpaqueToken`, `PasswordHasher.hash`, `trim` and the
-- test for an empty text.
pub record Secrets : Type 0 where
  pub opaque_token : ℕ → ℕ
  pub sha : ℕ → ℕ
  pub hash : ℕ → ℕ
  pub trim : ℕ → ℕ
  pub is_blank : ℕ → Bool

-- A message to a user with a token.
pub record Message : Type 0 where
  pub tenant : ℕ
  pub user : ℕ
  pub email : ℕ
  pub token : ℕ
  pub expires : ℕ

-- One of the two tables of tokens.
pub record TokenTable : Type 0 where
  pub rows : Accounts → ℕ → ℕ → Option Token
  pub put : (ℕ → ℕ → Option Token) → Accounts → Accounts

abbrev pub verification_table : TokenTable
verification_table = record {
  rows = λ s. s.verification_tokens;
  put = λ rows s. record s { verification_tokens = rows };
}

abbrev pub reset_table : TokenTable
reset_table = record {
  rows = λ s. s.reset_tokens;
  put = λ rows s. record s { reset_tokens = rows };
}

abbrev pub is_open_token : ℕ → Token → Bool
is_open_token user k = k.user == user && not (is_some k.consumed_at)

abbrev pub close : ℕ → ℕ → Option Token → Option Token
close user now none = none
close user now (some k) =
    if is_open_token user k then some (record k { consumed_at = some now }) else some k

-- The rows after the two statements of `createEmailVerificationToken` and of
-- `createPasswordResetToken`: the open tokens of the user are used up, and a new one is added,
-- whose hash is that of a random token.
abbrev pub renewed : ℕ → ℕ → ℕ → ℕ → ℕ → (ℕ → ℕ → Option Token) → ℕ → ℕ → Option Token
renewed tenant user hash expires now rows t h =
    if t == tenant
    then (if h == hash
        then some (record { user = user; expires = expires; consumed_at = none })
        else close user now (rows t h))
    else rows t h

unfoldable pub create_token : TokenTable → ℕ → ℕ → ℕ → ℕ → ℕ → Accounts → Accounts
create_token table tenant user hash expires now s =
    table.put (renewed tenant user hash expires now (table.rows s)) s

abbrev pub valid_token : ℕ → Option Token → Option Token
valid_token now none = none
valid_token now (some k) = if not (is_some k.consumed_at) && ltb now k.expires then some k else none

abbrev pub used : ℕ → ℕ → ℕ → Token → (ℕ → ℕ → Option Token) → ℕ → ℕ → Option Token
used tenant hash now k rows t h =
    if t == tenant && h == hash then some (record k { consumed_at = some now }) else rows t h

-- `consumeToken`: the user of the token.
unfoldable pub consume_token : TokenTable → ℕ → ℕ → ℕ → Query (Option ℕ)
consume_token table tenant hash now s = elim (valid_token now (table.rows s tenant hash)) [
  | none ↦ (none, s)
  | some k ↦ (some k.user, table.put (used tenant hash now k (table.rows s)) s)
]

-- The users of the `WHERE` clauses, of which there is at most one.
abbrev pub is_user : ℕ → ℕ → User → Bool
is_user tenant user u = u.tenant == tenant && u.id == user && not u.is_deleted

abbrev pub first_of : Option ℕ → ℕ → Option ℕ
first_of none now = some now
first_of (some t) now = some t

abbrev pub verified_status : UserStatus → UserStatus
verified_status pending_verification = active
verified_status x = x

abbrev pub verified_user : ℕ → User → User
verified_user now u = record u {
  email_verified_at = first_of u.email_verified_at now;
  status = verified_status u.status;
  version = u.version + 1;
}

abbrev pub has_identifier : Bool → ℕ → LoginIdentifier → Bool
has_identifier is_email identifier i =
    (if is_email then i.is_email else not i.is_email) && i.identifier == identifier

abbrev owned : User → LoginIdentifier → LoginIdentifier
owned u i = record i { tenant = u.tenant; user = u.id; identity = u.identity; active = true }

abbrev identifier_of : Bool → ℕ → User → LoginIdentifier
identifier_of is_email identifier u = record {
  is_email = is_email;
  identifier = identifier;
  identity = u.identity;
  user = u.id;
  tenant = u.tenant;
  active = true;
}

-- `INSERT … ON CONFLICT (identifier_type, identifier) DO UPDATE`
unfoldable pub put_identifier : Bool → ℕ → User → List LoginIdentifier → List LoginIdentifier
put_identifier is_email identifier u rows =
    if member (has_identifier is_email identifier) rows
    then update_first (has_identifier is_email identifier) (owned u) rows
    else identifier_of is_email identifier u ∷ rows

abbrev disable_identifier : User → LoginIdentifier → LoginIdentifier
disable_identifier u i = if i.user == u.id then record i { active = false } else i

-- `sync_auth_login_identifiers`, the trigger of a statement that writes the status of a user.
unfoldable pub sync_identifiers : User → Accounts → Accounts
sync_identifiers u s = record s {
  identifiers =
      if not u.is_deleted && is_active u.status
      then put_identifier false u.username u (put_identifier true u.email u s.identifiers)
      else map (disable_identifier u) s.identifiers;
}

-- `consumeEmailVerificationToken`
unfoldable pub consume_verification : ℕ → ℕ → ℕ → Query Bool
consume_verification tenant hash now s =
    let (user, t) = consume_token verification_table tenant hash now s in
    elim user [
      | none ↦ (false, t)
      | some id ↦ elim (find (is_user tenant id) t.users) [
        | none ↦ (false, t)
        | some u ↦ (
          true,
          sync_identifiers (verified_user now u)
              (record t { users = update_first (is_user tenant id) (verified_user now) t.users }),
        )
      ]
    ]

-- The columns of a user that a reset writes.
abbrev pub reset_user : ℕ → User → User
reset_user hash u = record u {
  password_hash = hash;
  failed_logins = 0;
  locked_until = none;
  version = u.version + 1;
}

abbrev pub is_session_of : ℕ → ℕ → Holder → Bool
is_session_of tenant user (user_of t u m) = t == tenant && u == user
is_session_of tenant user (platform_of m) = false

abbrev pub end_session : ℕ → ℕ → ℕ → Session → Session
end_session tenant user now x =
    if is_session_of tenant user x.holder && x.active
    then record x { active = false; revoked_at = first_of x.revoked_at now }
    else x

-- `consumePasswordResetToken`: a new password ends the user's sessions. No trigger of the table of
-- users is about the columns that it writes.
unfoldable pub consume_reset : ℕ → ℕ → ℕ → ℕ → Query Bool
consume_reset tenant hash password_hash now s =
    let (user, t) = consume_token reset_table tenant hash now s in
    elim user [
      | none ↦ (false, t)
      | some id ↦ elim (find (is_user tenant id) t.users) [
        | none ↦ (false, t)
        | some u ↦ (
          true,
          record t {
            users = update_first (is_user tenant id) (reset_user password_hash) t.users;
            sessions = map (end_session tenant id now) t.sessions;
          },
        )
      ]
    ]

-- `findUserByIdentifier`
unfoldable pub find_user_by_identifier : ℕ → ℕ → Accounts → Option User
find_user_by_identifier tenant identifier s =
    find
      (λ u.
        u.tenant == tenant
        && not u.is_deleted
        && (u.email == identifier || u.username == identifier))
      s.users

-- `SELECT DISTINCT i.user_id, i.tenant_id`: the pairs, each once.
abbrev pub same_account : LoginIdentifier → LoginIdentifier → Bool
same_account i j = i.user == j.user && i.tenant == j.tenant

unfoldable pub candidates : ℕ → List LoginIdentifier → List LoginIdentifier
candidates identifier [] = []
candidates identifier (i ∷ is) =
    let rest = candidates identifier is in
    if i.identifier == identifier && i.active && not (is_some (find (same_account i) rest))
    then i ∷ rest
    else rest

unfoldable pub accounts_of : List LoginIdentifier → List User → List User
accounts_of [] users = []
accounts_of (i ∷ is) users =
    let rest = accounts_of is users in
    elim (find (is_user i.tenant i.user) users) [ none ↦ rest | some u ↦ u ∷ rest ]

-- `findAccountCandidates`
unfoldable pub find_candidates : Secrets → ℕ → Accounts → List User
find_candidates secrets identifier s =
    if secrets.is_blank identifier
    then []
    else accounts_of (candidates (secrets.trim identifier) s.identifiers) s.users
