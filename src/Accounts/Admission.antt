-- ===== src/Accounts/Admission.antt =====
-- What a login of src/application/services/unified-authentication-service.ts gives, and to whom.
use new_erp_final.Common.{
  ℕ, ◌≡◌, refl, true, false, some, List, [], ◌∷◌, arith, inl, inr, Bool-cases, Option-cases,
}
use mathlib.Core.Path.{subst}
use new_erp_final.Accounts.Rows.{LoginContext, Accounts}
use new_erp_final.Accounts.Credentials.{
  LockoutOptions, LoginIdentity, find_login_identity, reset_failed, is_locked,
}
use new_erp_final.Accounts.Contexts.{Usable, resolve, same_context}
use new_erp_final.Accounts.Login.{
  Ports, direct, Issued, issue_context, enter, challenge, reject, settle, authenticate,
}
use new_erp_final.Accounts.Own.{resolve_own}
use new_erp_final.Accounts.Selection.{IsIssued, issue_sound}

module _ (ports : Ports) (lockout : LockoutOptions) where
  -- What a login that gives a context has found and made.
  pub record IsAdmitted (identifier password now : ℕ) (s : Accounts) (c : LoginContext) (i : Issued)
      (t : Accounts) : Type 0 where
    pub account : LoginIdentity
    pub found : find_login_identity (ports.trim identifier) s ≡ some account
    pub free : is_locked account.locked_until now ≡ false
    pub matched : ports.verify password account.hash ≡ true
    pub only : LoginContext
    pub single : (resolve account.identity (reset_failed account.identity s)).contexts ≡ only ∷ []
    pub chosen : same_context c only ≡ true
    pub issue : IsIssued ports lockout (reset_failed account.identity s) account.identity now c i t

  entered :
      (identity now : ℕ) (u : Usable) (cs : List LoginContext) (s t : Accounts) (d : LoginContext)
      (i : Issued)
      → u.contexts ≡ cs
      → enter ports lockout identity now u s ≡ (direct d i, t)
      → (c : LoginContext) × (cs ≡ c ∷ []) × (issue_context ports lockout c now s ≡ (direct d i, t))
  unfolding enter challenge
  entered identity now u [] s t d i at e = ground (arith, at, e)
  entered identity now u (c ∷ []) s t d i at e = (c, refl, ground (arith, at, e))
  entered identity now u (c ∷ x ∷ xs) s t d i at e = ground (arith, at, e)

  -- A login gives a context at once only to who knows the password of an active identity that is
  -- not locked. The context is the only one that the identity has, the identity is entitled to it
  -- by rows that hold now, and one session of it is made.
  pub authenticate-IsAdmitted :
      (identifier password now : ℕ) (s t : Accounts) (d : LoginContext) (i : Issued)
      → authenticate ports lockout identifier password now s ≡ (direct d i, t)
      → IsAdmitted identifier password now s d i t
  unfolding authenticate settle reject
  authenticate-IsAdmitted identifier password now s t d i e =
      elim (Option-cases (find_login_identity (ports.trim identifier) s)) [
        | inl unknown ↦ ground (arith, unknown, e)
        | inr (li, found) ↦ elim (Bool-cases (is_locked li.locked_until now)) [
          | inl locked ↦ ground (arith, found, locked, e)
          | inr free ↦ elim (Bool-cases (ports.verify password li.hash)) [
            | inr wrong ↦ ground (arith, found, free, wrong, e)
            | inl right ↦
                let w = reset_failed li.identity s in
                let u = resolve li.identity w in
                let (x, single, given) =
                  entered li.identity now u u.contexts w t d i refl
                    (ground (arith, found, free, right, e)) in
                let (issue, same) = issue_sound ports lockout x d now w t i given in
                let own = resolve_own li.identity (λ y. true) w {c = x} (ground (arith, single)) in
                record {
                  account = li;
                  found = found;
                  free = free;
                  matched = right;
                  only = x;
                  single = single;
                  chosen = same;
                  issue = subst (λ y. IsIssued ports lockout w y now d i t) own issue;
                }
          ]
        ]
      ]
