-- ===== src/Accounts/Resets.antt =====
-- What the tokens of src/application/services/account-security-service.ts are good for, and what a
-- password reset does.
use new_erp_final.Common.{
  ℕ, ◌≡◌, refl, ap, ◌∙◌, Bool, true, false, ◌&&◌, Option, none, some, List, [], ◌∷◌, ltb, map, find,
  update_first, member, arith, inl, inr, Option-cases,
}
use mathlib.Core.Path.{subst, sym}
use new_erp_final.Accounts.Rows.{User, Session, Token, Accounts}
use new_erp_final.Accounts.Credentials.{find_login_identity}
use new_erp_final.Accounts.Recovery.{
  RecoveryOptions, Secrets, valid_token, used, consume_token, is_user, reset_user, is_session_of,
  end_session, consume_reset,
}
use new_erp_final.Accounts.Service.{reset_password}

-- No open session of a user is left.
pub ended :
    (tenant user now : ℕ) (xs : List Session)
    → member
        (λ x. is_session_of tenant user x.holder && x.active)
        (map (end_session tenant user now) xs)
      ≡ false
ended tenant user now [] = refl
ended tenant user now (x ∷ xs) = ground (arith, ended tenant user now xs)

valid_token_sound :
    (now : ℕ) (k : Token) {x : Token}
    → valid_token now (some k) ≡ some x
    → (k.consumed_at ≡ none) × (ltb now k.expires ≡ true) × (x ≡ k)
valid_token_sound now k valid = elim (Option-cases k.consumed_at) [
  | inl open_yet ↦ (open_yet, ground (arith, valid), ground (arith, valid))
  | inr (at, gone) ↦ ground (arith, valid, gone)
]

used_here :
    (tenant hash now : ℕ) (k : Token) (rows : ℕ → ℕ → Option Token)
    → used tenant hash now k rows tenant hash ≡ some (record k { consumed_at = some now })
used_here tenant hash now k rows = ground arith

-- What a reset that succeeds has read and written.
pub record IsReset (tenant hash password now : ℕ) (s t : Accounts) : Type 0 where
  pub token : Token
  pub held : s.reset_tokens tenant hash ≡ some token
  pub unused : token.consumed_at ≡ none
  pub in_time : ltb now token.expires ≡ true
  pub user : User
  pub found : find (is_user tenant token.user) s.users ≡ some user
  pub users : t.users ≡ update_first (is_user tenant token.user) (reset_user password) s.users
  pub sessions : t.sessions ≡ map (end_session tenant token.user now) s.sessions
  pub ended_all :
      member (λ x. is_session_of tenant token.user x.holder && x.active) t.sessions ≡ false
  pub tokens : t.reset_tokens ≡ used tenant hash now token s.reset_tokens

module _ (secrets : Secrets) (options : RecoveryOptions) where
  -- A reset that succeeds has found a token that was not used up and had not expired. It uses the
  -- token up, writes the new password of the token's user and ends all sessions of that user.
  pub reset_password-IsReset :
      (tenant token password now : ℕ) (s t : Accounts)
      → reset_password secrets options tenant token password now s ≡ (true, t)
      → IsReset tenant (secrets.sha token) (secrets.hash password) now s t
  unfolding reset_password consume_reset consume_token
  reset_password-IsReset tenant token password now s t e =
      elim (Option-cases (s.reset_tokens tenant (secrets.sha token))) [
        | inl absent ↦ ground (arith, absent, e)
        | inr (k, held) ↦ elim (Option-cases (valid_token now (some k))) [
          | inl stale ↦ ground (arith, held, stale, e)
          | inr (k', valid) ↦ elim (Option-cases (find (is_user tenant k.user) s.users)) [
            | inl missing ↦ ground (arith, held, valid, missing, e)
            | inr (u, found) ↦
                let ending : t.sessions ≡ map (end_session tenant k.user now) s.sessions =
                  ground (arith, held, valid, found, e) in
                record {
                  token = k;
                  held = held;
                  unused = (valid_token_sound now k valid).0;
                  in_time = (valid_token_sound now k valid).1;
                  user = u;
                  found = found;
                  users = ground (arith, held, valid, found, e);
                  sessions = ending;
                  ended_all =
                      subst
                        (λ xs.
                          member (λ x. is_session_of tenant k.user x.holder && x.active) xs ≡ false)
                        (sym ending) (ended tenant k.user now s.sessions);
                  tokens = ground (arith, held, valid, found, e);
                }
          ]
        ]
      ]

  -- The token of a reset that has succeeded resets nothing again, at any time and for any
  -- password.
  reset_once :
      (tenant token password now again later : ℕ) (s t : Accounts)
      → reset_password secrets options tenant token password now s ≡ (true, t)
      → reset_password secrets options tenant token again later t ≡ (false, t)
  unfolding reset_password consume_reset consume_token
  reset_once tenant token password now again later s t e =
      let done = reset_password-IsReset tenant token password now s t e in
      let rows = done.tokens in
      let here : t.reset_tokens tenant (secrets.sha token)
          ≡ some (record done.token { consumed_at = some now }) =
        ap (λ f. f tenant (secrets.sha token)) rows
        ∙ used_here tenant (secrets.sha token) now done.token s.reset_tokens in
      ground (arith, here)

  reset_leaves :
      (tenant token password now : ℕ) (s t : Accounts) {found : Bool}
      → reset_password secrets options tenant token password now s ≡ (found, t)
      → t ≡ record s { users = t.users; sessions = t.sessions; reset_tokens = t.reset_tokens }
  unfolding reset_password consume_reset consume_token
  reset_leaves tenant token password now s t e =
      elim (Option-cases (valid_token now (s.reset_tokens tenant (secrets.sha token)))) [
        | inl stale ↦ ground (arith, stale, e)
        | inr (k, valid) ↦ elim (Option-cases (find (is_user tenant k.user) s.users)) [
          | inl missing ↦ ground (arith, valid, missing, e)
          | inr (u, found) ↦ ground (arith, valid, found, e)
        ]
      ]

  -- Whether a password reset succeeds or not, what the login reads of every identity afterwards
  -- is what it has read before: the hash that a password is compared with, the failed attempts
  -- and the lock.
  pub reset_keeps_login :
      (tenant token password now identifier : ℕ) (s t : Accounts) {found : Bool}
      → reset_password secrets options tenant token password now s ≡ (found, t)
      → find_login_identity identifier t ≡ find_login_identity identifier s
  unfolding find_login_identity
  reset_keeps_login tenant token password now identifier s t e =
      ap (find_login_identity identifier) (reset_leaves tenant token password now s t e)
