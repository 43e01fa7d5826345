-- ===== src/Session/Rotation.antt =====
-- src/application/services/refresh-token-rotation-service.ts: what a refresh token is good for.
use new_erp_final.Common.{
  ℕ, suc, ◌≤◌, ◌+◌, ◌≡◌, ◌≢◌, true, false, Option, none, some, ◌⊎◌, inl, inr, arith, List, [], ◌∷◌,
  ap, ◌∙◌, refl,
}
use new_erp_final.Transaction.{ok, err, unauthorized, run_in_transaction}
use new_erp_final.Session.{
  Session, User, Store, Claims, Tokens, Rotated, Consumed, owner, is_consumed, clashes,
  revoked_session, revoke, advance, is_held, consume, rotate_session, attempt, rotate,
}

module _ (tokens : Tokens) (c : Claims) (tenant : ℕ) (s : Session) where
  -- A session that is not active gives out no tokens: a token of it that the token service accepts,
  -- in a tenant whose identifier is a UUID, is refused.
  rotate_revoked :
      (token now : ℕ) (db : Store)
      → tokens.verify_refresh token now ≡ some c
      → c.tenant ≡ some tenant
      → tokens.is_uuid tenant ≡ true
      → db.sessions tenant c.session ≡ some s
      → s.active ≡ false
      → (rotate tokens token now db).0 ≡ err unauthorized
  unfolding rotate attempt rotate_session revoke run_in_transaction
  rotate_revoked token now db v t uuid at off = ground arith

  -- A token of a session that the history has, and that is not the session's current one, is
  -- refused, and it revokes the session; the token names a tenant with a UUID and the owner of the
  -- session.
  rotate_reuse :
      (token now : ℕ) (u : User) (db : Store)
      → tokens.verify_refresh token now ≡ some c
      → c.tenant ≡ some tenant
      → c.is_platform ≡ false
      → tokens.is_uuid tenant ≡ true
      → db.sessions tenant c.session ≡ some s
      → db.users tenant s.user ≡ some u
      → owner s u ≡ c.sub
      → s.hash ≢ tokens.hash token
      → is_consumed tenant c.session (tokens.hash token) db.history ≡ true
      → ((rotate tokens token now db).0 ≡ err unauthorized)
        × ((rotate tokens token now db).1.sessions tenant c.session ≡ some (revoked_session now s))
  unfolding rotate attempt rotate_session revoke run_in_transaction
  rotate_reuse token now u db v t p uuid at user own other used = ground arith

  -- A rotation that succeeds was asked with the current token of a session that is active and not
  -- expired; the history has the old hash, and the session the hash of the new token.
  rotate_effect :
      (token now : ℕ) (db : Store) {r : Rotated}
      → tokens.verify_refresh token now ≡ some c
      → c.tenant ≡ some tenant
      → db.sessions tenant c.session ≡ some s
      → (rotate tokens token now db).0 ≡ ok r
      → (c.is_platform ≡ false)
        × (tokens.is_uuid tenant ≡ true)
        × (s.hash ≡ tokens.hash token)
        × (s.active ≡ true)
        × (suc now ≤ s.expires)
        × (clashes tenant (tokens.hash token) db.history ≡ false)
        × ((rotate tokens token now db).1.sessions tenant c.session
            ≡ some (record s {
              hash = tokens.hash r.refresh_token;
              last_activity = now;
              version = s.version + 1;
            }))
        × (is_consumed tenant c.session (tokens.hash token) (rotate tokens token now db).1.history
            ≡ true)
        × ((rotate tokens token now db).1.users ≡ db.users)
  unfolding rotate attempt rotate_session revoke run_in_transaction consume advance is_held
      is_consumed
  rotate_effect token now db {r} v t at e = ground arith

  rotate_clash :
      (token now : ℕ) (db : Store)
      → tokens.verify_refresh token now ≡ some c
      → c.tenant ≡ some tenant
      → tokens.is_uuid tenant ≡ true
      → db.sessions tenant c.session ≡ some s
      → s.hash ≡ tokens.hash token
      → clashes tenant (tokens.hash token) db.history ≡ true
      → (rotate tokens token now db).0 ≡ err unauthorized
  unfolding rotate attempt rotate_session revoke run_in_transaction consume
  rotate_clash token now db v t uuid at same clash = ground arith

consumed_clash :
    (tenant id hash : ℕ) (rows : List Consumed)
    → is_consumed tenant id hash rows ≡ true
    → clashes tenant hash rows ≡ true
unfolding is_consumed clashes
consumed_clash tenant id hash [] h = ground arith
consumed_clash tenant id hash (x ∷ rows) h = ground (arith, consumed_clash tenant id hash rows)

module _ (tokens : Tokens) (c : Claims) (tenant : ℕ) where
  -- A token that is not accepted changes nothing.
  expired :
      (token now : ℕ) (db : Store)
      → tokens.verify_refresh token now ≡ none
      → ((rotate tokens token now db).0 ≡ err unauthorized) × ((rotate tokens token now db).1 ≡ db)
  unfolding rotate
  expired token now db gone = ground arith

  -- A refresh token is good for one rotation: when its successor has another hash, a second use
  -- is refused at any later time. If the token service still accepts the token then, the session is
  -- revoked; if the token has expired, nothing changes. The token service gives at no time other
  -- claims for the token.
  pub rotate_once :
      (s : Session) (token now later : ℕ) (u : User) (db : Store) {r : Rotated}
      → ((time : ℕ)
          → (tokens.verify_refresh token time ≡ none) ⊎ (tokens.verify_refresh token time ≡ some c))
      → c.tenant ≡ some tenant
      → db.sessions tenant c.session ≡ some s
      → db.users tenant s.user ≡ some u
      → owner s u ≡ c.sub
      → (rotate tokens token now db).0 ≡ ok r
      → tokens.hash r.refresh_token ≢ tokens.hash token
      → ((rotate tokens token later (rotate tokens token now db).1).0 ≡ err unauthorized)
        × (((tokens.verify_refresh token later ≡ none)
              × ((rotate tokens token later (rotate tokens token now db).1).1
                  ≡ (rotate tokens token now db).1))
            ⊎ ((tokens.verify_refresh token later ≡ some c)
                × ((t : Session) × ((rotate tokens token later
                          (rotate tokens token now db).1).1.sessions
                        tenant c.session
                      ≡ some t)
                    × (t.active ≡ false))))
  rotate_once s token now later u db {r} steady t at user own e other = elim (steady now) [
    | inl gone ↦ ground (arith, (expired token now db gone).0, e)
    | inr v ↦ elim (steady later) [
      | inl gone ↦
          let (refused, same) = expired token later (rotate tokens token now db).1 gone in
          (refused, inl (gone, same))
      | inr w ↦
          let (p, uuid, held, on, fresh, clear, row, used, users) =
            rotate_effect tokens c tenant s token now db v t at e in
          let s' = record s {
            hash = tokens.hash r.refresh_token;
            last_activity = now;
            version = s.version + 1;
          } in
          let (refused, gone) =
            rotate_reuse tokens c tenant s' token later u (rotate tokens token now db).1 w t p uuid
              row (ap (λ (f : ℕ → ℕ → Option User). f tenant s.user) users ∙ user) own other used in
          (refused, inr (w, (revoked_session later s', gone, refl)))
    ]
  ]

  -- A successor with the same hash, as two tokens of one session that are issued in the same
  -- second have, is not good for any rotation.
  rotate_same_hash :
      (s : Session) (token now later : ℕ) (db : Store) {r : Rotated}
      → tokens.verify_refresh token now ≡ some c
      → tokens.verify_refresh token later ≡ some c
      → c.tenant ≡ some tenant
      → db.sessions tenant c.session ≡ some s
      → (rotate tokens token now db).0 ≡ ok r
      → tokens.hash r.refresh_token ≡ tokens.hash token
      → (rotate tokens token later (rotate tokens token now db).1).0 ≡ err unauthorized
  rotate_same_hash s token now later db {r} v w t at e same =
      let (p, uuid, held, on, fresh, clear, row, used, users) =
        rotate_effect tokens c tenant s token now db v t at e in
      let s' = record s {
        hash = tokens.hash r.refresh_token;
        last_activity = now;
        version = s.version + 1;
      } in
      rotate_clash tokens c tenant s' token later (rotate tokens token now db).1 w t uuid row same
        (consumed_clash tenant c.session (tokens.hash token) _ used)
