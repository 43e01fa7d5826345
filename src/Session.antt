-- ===== src/Session.antt =====
-- src/application/services/refresh-token-rotation-service.ts over the tables `user_sessions`,
-- `users` and `refresh_token_history`. The tables are functions of their primary keys and the
-- history a list; the tokens are made, read and hashed by the token service, a parameter. The
-- profile of the user in the result is left out. A time is a number of milliseconds.
mod Tests
pub mod Rotation
use new_erp_final.Common.{
  ℕ, ◌+◌, ◌*◌, Bool, true, false, not, ◌&&◌, ◌||◌, Option, none, some, List, [], ◌∷◌, ◌==◌, leb,
  is_some, find, if◌then◌else◌,
}
use new_erp_final.Transaction.{
  Tx, Result, ok, err, unauthorized, runtime, ◌>>=◌, ◌>>◌, pure, throw, gets, modify, require,
  run_in_transaction, with_tenant,
}

pub record Session : Type 0 where
  pub user : ℕ
  pub identity : Option ℕ
  pub hash : ℕ
  pub active : Bool
  pub expires : ℕ
  pub revoked : Option ℕ
  pub is_reused : Bool
  pub last_activity : ℕ
  pub version : ℕ

pub record User : Type 0 where
  pub identity : Option ℕ
  pub active : Bool

pub record Consumed : Type 0 where
  pub tenant : ℕ
  pub session : ℕ
  pub user : ℕ
  pub hash : ℕ
  pub replaced_by : ℕ
  pub at : ℕ

pub record Store : Type 0 where
  pub sessions : ℕ → ℕ → Option Session
  pub users : ℕ → ℕ → Option User
  pub history : List Consumed

-- What `verifyRefreshToken` returns; a tenant that is missing or empty is `none`.
pub record Claims : Type 0 where
  pub sub : ℕ
  pub tenant : Option ℕ
  pub session : ℕ
  pub is_platform : Bool

pub record Tokens : Type 0 where
  -- At a time, since a token expires.
  pub verify_refresh : ℕ → ℕ → Option Claims
  pub hash : ℕ → ℕ
  -- The user, the identity, the tenant, the session and the time of issue.
  pub create_refresh : ℕ → Option ℕ → ℕ → ℕ → ℕ → ℕ
  pub create_access : ℕ → ℕ → ℕ → ℕ → ℕ
  -- `validate` of the package `uuid`.
  pub is_uuid : ℕ → Bool

pub record Rotated : Type 0 where
  pub access_token : ℕ
  pub refresh_token : ℕ
  pub expires : ℕ
  pub user : ℕ
  pub tenant : ℕ
  pub session : ℕ

pub data Outcome : Type 0 where
  rotated : Rotated → Outcome
  reused invalid : Outcome

abbrev pub or_else : Option ℕ → Option ℕ → Option ℕ
or_else none b = b
or_else (some a) b = some a

abbrev pub or_value : Option ℕ → ℕ → ℕ
or_value none b = b
or_value (some a) b = a

-- `session.identity_id ?? session.user_id`, the identity being that of the session or the user.
abbrev pub owner : Session → User → ℕ
owner s u = or_value (or_else s.identity u.identity) s.user

unfoldable pub is_consumed : ℕ → ℕ → ℕ → List Consumed → Bool
is_consumed tenant session hash h =
    is_some (find (λ x. x.tenant == tenant && x.session == session && x.hash == hash) h)

-- The unique key of the history.
unfoldable pub clashes : ℕ → ℕ → List Consumed → Bool
clashes tenant hash h = is_some (find (λ x. x.tenant == tenant && x.hash == hash) h)

abbrev pub put : ℕ → ℕ → Session → (ℕ → ℕ → Option Session) → ℕ → ℕ → Option Session
put tenant id s f t i = if t == tenant && i == id then some s else f t i

abbrev pub revoked_session : ℕ → Session → Session
revoked_session now s = record s {
  active = false;
  revoked = or_else s.revoked (some now);
  is_reused = true;
  version = s.version + 1;
}

unfoldable pub revoke : ℕ → ℕ → Session → ℕ → Tx Store Outcome
revoke tenant id s now = do
  modify (λ db. record db { sessions = put tenant id (revoked_session now s) db.sessions })
  pure reused

module _ (tokens : Tokens) where
  abbrev rotation : ℕ → ℕ → Session → ℕ → ℕ → Rotated
  rotation tenant id s token now = record {
    access_token = tokens.create_access s.user tenant id now;
    refresh_token = token;
    expires = now + 3600 * 1000;
    user = s.user;
    tenant = tenant;
    session = id;
  }

  abbrev entry : ℕ → ℕ → Session → ℕ → ℕ → Consumed
  entry tenant id s token now = record {
    tenant = tenant;
    session = id;
    user = s.user;
    hash = s.hash;
    replaced_by = tokens.hash token;
    at = now;
  }

  abbrev renewed : Session → ℕ → ℕ → Session
  renewed s token now = record s {
    hash = tokens.hash token;
    last_activity = now;
    version = s.version + 1;
  }

  -- The `UPDATE` that puts the new hash in the place of the old, and its condition.
  unfoldable pub is_held : Session → Option Session → Bool
  is_held s none = false
  is_held s (some r) = r.user == s.user && r.hash == s.hash && r.active

  unfoldable pub advance : ℕ → ℕ → Session → ℕ → ℕ → Tx Store Outcome
  advance tenant id s token now = do
    modify (λ db. record db { history = entry tenant id s token now ∷ db.history })
    row ← gets (λ db. db.sessions tenant id)
    require (is_held s row) runtime
    modify (λ db. record db { sessions = put tenant id (renewed s token now) db.sessions })
    pure (rotated (rotation tenant id s token now))

  -- The tail of the callback.
  unfoldable pub consume : ℕ → ℕ → Session → ℕ → ℕ → Tx Store Outcome
  consume tenant id s token now = do
    clash ← gets (λ db. clashes tenant s.hash db.history)
    (if clash then revoke tenant id s now else advance tenant id s token now)

  abbrev replacement : ℕ → ℕ → Session → User → ℕ → ℕ
  replacement tenant id s u now =
      tokens.create_refresh s.user (or_else s.identity u.identity) tenant id now

  unfoldable pub rotate_session : ℕ → ℕ → Session → User → ℕ → ℕ → ℕ → Tx Store Outcome
  rotate_session tenant id s u sub hash now = do
    used ← gets (λ db. is_consumed tenant id hash db.history)
    (if not (owner s u == sub)
        then pure invalid
        else (if not (s.hash == hash)
            then (if used then revoke tenant id s now else pure invalid)
            else (if not s.active || leb s.expires now || not u.active
                then pure invalid
                else consume tenant id s (replacement tenant id s u now) now)))

  abbrev found : ℕ → Claims → ℕ → ℕ → Option Session → Store → Result (Outcome × Store)
  found tenant c hash now none db = ok (invalid, db)
  found tenant c hash now (some s) db = elim (db.users tenant s.user) [
    | none ↦ ok (invalid, db)
    | some u ↦ rotate_session tenant c.session s u c.sub hash now db
  ]

  -- The transaction of `withTenantContext`.
  unfoldable pub attempt : ℕ → Claims → ℕ → ℕ → Tx Store Outcome
  attempt tenant c hash now =
      with_tenant tokens.is_uuid tenant
        (λ db. found tenant c hash now (db.sessions tenant c.session) db)

  abbrev answer : Result Outcome → Result Rotated
  answer (ok (rotated r)) = ok r
  answer (ok _) = err unauthorized
  answer (err e) = err e

  -- `rotate`: what is thrown after the transaction does not undo it.
  unfoldable pub rotate : ℕ → ℕ → Store → Result Rotated × Store
  rotate token now db = elim (tokens.verify_refresh token now) [
    | none ↦ (err unauthorized, db)
    | some c ↦ elim c.tenant [
      | none ↦ (err unauthorized, db)
      | some tenant ↦ if c.is_platform then (err unauthorized, db) else (
        answer (run_in_transaction (attempt tenant c (tokens.hash token) now) db).0,
        (run_in_transaction (attempt tenant c (tokens.hash token) now) db).1,
      )
    ]
  ]
