-- ===== src/Accounts/Factors.antt =====
-- What the second factor of src/application/services/mfa-service.ts accepts.
use new_erp_final.Common.{
  ℕ, ◌≡◌, true, false, ◌&&◌, some, arith, ◌⊎◌, inl, inr, Bool-cases, Option-cases, ==_self,
}
use new_erp_final.Transaction.{ok}
use new_erp_final.Accounts.Rows.{Accounts}
use new_erp_final.Accounts.Mfa.{SecondFactor, MfaOptions, get_enabled_secret, consume_code, verify}

module _ (factor : SecondFactor) (options : MfaOptions) where
  -- A code that is accepted is the one-time password of the enabled secret, or an unused recovery
  -- code, which is used up.
  pub record IsAccepted (tenant user code now : ℕ) (s t : Accounts) : Type 0 where
    pub secret : ℕ
    pub enabled : get_enabled_secret tenant user s ≡ some secret
    pub how :
        ((factor.totp_verify (factor.decrypt secret) code now ≡ true) × (t ≡ s))
        ⊎ ((s.recovery_codes tenant user (factor.hash code) ≡ some (record { consumed = false }))
            × (t.recovery_codes tenant user (factor.hash code) ≡ some (record { consumed = true })))

  verify-IsAccepted :
      (tenant user code now : ℕ) (s t : Accounts)
      → verify factor options tenant user code now s ≡ ok (true, t)
      → IsAccepted tenant user code now s t
  unfolding verify consume_code
  verify-IsAccepted tenant user code now s t e =
      elim (Option-cases (get_enabled_secret tenant user s)) [
        | inl off ↦ ground (arith, off, e)
        | inr (x, enabled) ↦ record {
          secret = x;
          enabled = enabled;
          how =
              elim (Bool-cases
                (factor.is_six_digits code && factor.totp_verify (factor.decrypt x) code now)) [
                  | inl password ↦
                      inl (ground (arith, password), ground (arith, enabled, password, e))
                  | inr other ↦
                      elim (Option-cases (s.recovery_codes tenant user (factor.hash code))) [
                        | inl unknown ↦ ground (arith, enabled, other, unknown, e)
                        | inr (c, known) ↦ inr (
                          ground (arith, enabled, other, known, e),
                          ground (arith, enabled, other, known, e, ==_self tenant, ==_self user),
                        )
                      ]
                ];
        }
      ]

  -- A recovery code that has been accepted, and is no one-time password, is not accepted again.
  pub recovery_code_once :
      (tenant user code now later : ℕ) (s t : Accounts)
      → verify factor options tenant user code now s ≡ ok (true, t)
      → factor.is_six_digits code ≡ false
      → verify factor options tenant user code later t ≡ ok (false, t)
  unfolding verify consume_code
  recovery_code_once tenant user code now later s t e digits =
      elim (Option-cases (get_enabled_secret tenant user s)) [
        | inl off ↦ ground (arith, off, e)
        | inr (x, enabled) ↦ elim (Option-cases (s.recovery_codes tenant user (factor.hash code))) [
          | inl unknown ↦ ground (arith, enabled, digits, unknown, e)
          | inr (c, known) ↦
              let spent : t.recovery_codes tenant user (factor.hash code)
                  ≡ some (record { consumed = true }) =
                ground (arith, enabled, digits, known, e, ==_self tenant, ==_self user) in
              elim (Option-cases (get_enabled_secret tenant user t)) [
                | inl off ↦ ground (arith, off)
                | inr (y, still) ↦ ground (arith, still, digits, spent)
              ]
        ]
      ]
