-- ===== src/Session/Tests.antt =====
-- Concrete runs of the rotation: one session, and tokens that are their own hashes and that expire
-- at the time 100.
use new_erp_final.Common.{
  ℕ, ◌+◌, ◌≡◌, refl, Bool, true, false, ◌&&◌, none, some, List, [], ◌∷◌, ◌==◌, ltb, ◌⊎◌, arith,
  if◌then◌else◌,
}
use new_erp_final.Transaction.{ok, err, unauthorized, run_in_transaction}
use new_erp_final.Session.{
  Session, Store, Claims, Tokens, Rotated, Consumed, rotate, attempt, rotate_session, revoke,
  consume, advance, is_held, is_consumed, clashes,
}
use new_erp_final.Session.Rotation.{rotate_once}

abbrev claims : Claims
claims = record { sub = 4; tenant = some 1; session = 9; is_platform = false }

abbrev tokens : (ℕ → ℕ) → Tokens
tokens next = record {
  verify_refresh = λ t now. if ltb now 100 then some claims else none;
  hash = λ t. t;
  create_refresh = λ u i t s now. next now;
  create_access = λ u t s now. 7;
  is_uuid = λ t. true;
}

abbrev session : ℕ → Bool → Session
session hash active = record {
  user = 4;
  identity = none;
  hash = hash;
  active = active;
  expires = 1000;
  revoked = none;
  is_reused = false;
  last_activity = 1;
  version = 1;
}

abbrev store : Session → List Consumed → Store
store s history = record {
  sessions = λ t i. if t == 1 && i == 9 then some s else none;
  users = λ t i. some (record { identity = none; active = true });
  history = history;
}

abbrev old : Consumed
old = record { tenant = 1; session = 9; user = 4; hash = 3; replaced_by = 5; at = 2 }

abbrev fresh : Tokens
fresh = tokens (λ now. 5000 + now)

abbrev result : Rotated
result = record {
  access_token = 7;
  refresh_token = 5020;
  expires = 3600020;
  user = 4;
  tenant = 1;
  session = 9;
}

rotation_run : (rotate fresh 5 20 (store (session 5 true) [])).0 ≡ ok result
unfolding rotate attempt rotate_session revoke consume advance is_held is_consumed clashes
    run_in_transaction
rotation_run = refl

three_consumed : is_consumed 1 9 3 (old ∷ []) ≡ true
unfolding is_consumed
three_consumed = refl

accepted_or_expired :
    (time : ℕ) → (fresh.verify_refresh 5 time ≡ none) ⊎ (fresh.verify_refresh 5 time ≡ some claims)
accepted_or_expired time = ground arith

rotate_once_example :
    ((rotate fresh 5 60 (rotate fresh 5 20 (store (session 5 true) [])).1).0 ≡ err unauthorized)
    × (((fresh.verify_refresh 5 60 ≡ none)
          × ((rotate fresh 5 60 (rotate fresh 5 20 (store (session 5 true) [])).1).1
              ≡ (rotate fresh 5 20 (store (session 5 true) [])).1))
        ⊎ ((fresh.verify_refresh 5 60 ≡ some claims)
            × ((t : Session) × ((rotate fresh 5 60
                      (rotate fresh 5 20 (store (session 5 true) [])).1).1.sessions
                    1 9
                  ≡ some t)
                × (t.active ≡ false))))
rotate_once_example =
    rotate_once fresh claims 1 (session 5 true) 5 20 60 (record { identity = none; active = true })
      (store (session 5 true) []) {r = result} accepted_or_expired refl refl refl refl rotation_run
      (ground arith)

-- The second of issue decides what a token is: here the successor is the token itself.
same_run :
    (rotate (tokens (λ now. 5)) 5 20 (store (session 5 true) [])).0
    ≡ ok (record result { refresh_token = 5 })
unfolding rotate attempt rotate_session revoke consume advance is_held is_consumed clashes
    run_in_transaction
same_run = refl
