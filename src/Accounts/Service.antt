-- ===== src/Accounts/Service.antt =====
-- src/application/services/account-security-service.ts. The messages that carry a token to its user
-- are values. SHA-256 and the random tokens are parameters.
use new_erp_final.Common.{ℕ, suc, ◌+◌, ◌*◌, Bool, none, some, List, [], ◌∷◌}
use new_erp_final.Accounts.Rows.{User, Accounts, Query}
use new_erp_final.Accounts.Recovery.{
  TokenTable, verification_table, reset_table, create_token, consume_verification, consume_reset,
  find_user_by_identifier, find_candidates, RecoveryOptions, Secrets, Message,
}

module _ (secrets : Secrets) (options : RecoveryOptions) where
  abbrev draw : Accounts → Accounts
  draw s = record s { drawn = suc s.drawn }

  abbrev message_to : User → ℕ → ℕ → Message
  message_to u token expires = record {
    tenant = u.tenant;
    user = u.id;
    email = u.email;
    token = token;
    expires = expires;
  }

  -- A token for a user that lives for some minutes, and the message with it.
  unfoldable pub send_token : TokenTable → ℕ → ℕ → User → Query Message
  send_token table minutes now u s =
      let token = secrets.opaque_token s.drawn in
      let expires = now + minutes * 60000 in
      (
        message_to u token expires,
        create_token table u.tenant u.id (secrets.sha token) expires now (draw s),
      )

  unfoldable pub request_email_verification : ℕ → ℕ → ℕ → Query (List Message)
  request_email_verification tenant identifier now s =
      elim (find_user_by_identifier tenant (secrets.trim identifier) s) [
        | none ↦ ([], s)
        | some u ↦
            let (m, t) = send_token verification_table options.verification_minutes now u s in
            (m ∷ [], t)
      ]

  unfoldable pub verify_email : ℕ → ℕ → ℕ → Query Bool
  verify_email tenant token now = consume_verification tenant (secrets.sha token) now

  unfoldable pub send_resets : ℕ → List User → Query (List Message)
  send_resets now [] s = ([], s)
  send_resets now (u ∷ us) s =
      let (m, t) = send_token reset_table options.reset_minutes now u s in
      let (ms, w) = send_resets now us t in (m ∷ ms, w)

  unfoldable pub request_password_reset : ℕ → ℕ → Query (List Message)
  request_password_reset identifier now s =
      send_resets now (find_candidates secrets (secrets.trim identifier) s) s

  unfoldable pub reset_password : ℕ → ℕ → ℕ → ℕ → Query Bool
  reset_password tenant token password now =
      consume_reset tenant (secrets.sha token) (secrets.hash password) now
