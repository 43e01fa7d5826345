-- ===== src/Accounts/Tests.antt =====
-- Concrete logins, resets and codes: one identity with two tenants, a user in each of them.
use new_erp_final.Common.{
  ℕ, ◌+◌, ◌*◌, ◌≤◌, ◌≡◌, refl, true, false, none, some, List, [], ◌∷◌, ◌==◌, ◌&&◌, if◌then◌else◌,
  arith, inr,
}
use new_erp_final.Transaction.{ok}
use new_erp_final.Accounts.Rows
use new_erp_final.Accounts.Rows.{
  Identity, Credential, LoginIdentifier, Membership, Tenant, User, LoginContext, tenant_context,
  Accounts, Session,
}
use new_erp_final.Accounts.Credentials.{
  LoginIdentity, default_lockout, lockout_span, find_login_identity, reset_failed,
}
use new_erp_final.Accounts.Contexts.{
  resolve, membership_context, tenant_contexts, platform_contexts, insert_context, sort_contexts,
  authorize_tenant, same_offers, same_snapshot, make_offers, make_snapshot,
}
use new_erp_final.Accounts.Login.{
  Ports, nothing, direct, descriptors, open_tenant_session, issue_context, challenge, enter, settle,
  authenticate, choose, select_context,
}
use new_erp_final.Accounts.Selection.{IsSelected, select_once, select_context-IsSelected}
use new_erp_final.Accounts.Admission.{IsAdmitted, authenticate-IsAdmitted}
use new_erp_final.Accounts.Lockout.{Client, Guessing, guesses_bound}
use new_erp_final.Accounts.Recovery.{
  RecoveryOptions, Secrets, candidates, accounts_of, find_candidates, create_token, consume_token,
  consume_reset,
}
use new_erp_final.Accounts.Service.{send_token, send_resets, request_password_reset, reset_password}
use new_erp_final.Accounts.Resets.{IsReset, reset_password-IsReset, reset_keeps_login}
use new_erp_final.Accounts.Tokens
use new_erp_final.Accounts.Tokens.{IsThrifty, Reach-IsThrifty}
use new_erp_final.Accounts.Mfa.{SecondFactor, MfaOptions, verify, get_enabled_secret, consume_code}
use new_erp_final.Accounts.Factors.{recovery_code_once}

abbrev ports : Ports
ports = record {
  verify = λ password hash. password + 1000 == hash;
  sha = λ x. x + 5000;
  random = λ n. 100 + n;
  refresh_token = λ identity session. session + 7000;
  branch_access = λ tenant user branch. true;
  trim = λ x. x;
  is_reference = λ x. true;
}

abbrev user : ℕ → ℕ → User
user id tenant = record {
  id = id;
  tenant = tenant;
  identity = 1;
  email = 61;
  username = 62;
  status = Rows.UserStatus.active;
  is_deleted = false;
  default_branch = some 9;
  password_hash = 1003;
  failed_logins = 0;
  locked_until = none;
  email_verified_at = none;
  mfa_secret = some 44;
  mfa_enabled = true;
  version = 1;
}

abbrev membership : ℕ → ℕ → Membership
membership id tenant = record {
  id = id;
  identity = 1;
  tenant = tenant;
  active = true;
  revoked = false;
  security_version = 1;
}

-- The password is 3.
abbrev accounts : List Membership → Accounts
accounts memberships = record {
  identities = λ i. some (record { active = true; security_version = 1 });
  credentials =
      λ i. some (record { active = true; hash = 1003; failed_attempts = 0; locked_until = none });
  identifiers =
      record {
        is_email = true;
        identifier = 61;
        identity = 1;
        user = 41;
        tenant = 31;
        active = true;
      }
      ∷ [];
  memberships = memberships;
  platform_memberships = [];
  tenants =
      λ t. some (record { status = Rows.TenantStatus.active; is_deleted = false; version = 1 });
  users = user 41 31 ∷ user 42 32 ∷ [];
  challenges = λ i. none;
  sessions = [];
  reset_tokens = λ t h. none;
  verification_tokens = λ t h. none;
  enrollments = λ t u. none;
  recovery_codes = λ t u h. some (record { consumed = false });
  drawn = 0;
}

abbrev one : Accounts
one = accounts (membership 21 31 ∷ [])

abbrev both : Accounts
both = accounts (membership 21 31 ∷ membership 22 32 ∷ [])

abbrev entered : Accounts
entered = (authenticate ports default_lockout 61 3 50 one).1

abbrev context : LoginContext
context = tenant_context (record {
  membership = 21;
  tenant = 31;
  identity = 1;
  user = 41;
  identity_version = 1;
  membership_version = 1;
  tenant_version = 1;
  user_version = 1;
})

login_run :
    authenticate ports default_lockout 61 3 50 one
    ≡ (direct context (record { session = 100; refresh_token = 7100 }), entered)
unfolding authenticate settle find_login_identity reset_failed enter resolve tenant_contexts
    platform_contexts membership_context sort_contexts insert_context issue_context authorize_tenant
    open_tenant_session
login_run = refl

authenticate-IsAdmitted_example :
    IsAdmitted ports default_lockout 61 3 50 one context
      (record { session = 100; refresh_token = 7100 })
      entered
authenticate-IsAdmitted_example =
    authenticate-IsAdmitted ports default_lockout 61 3 50 one entered context
      (record { session = 100; refresh_token = 7100 }) login_run

-- With two tenants the login offers both, with the references 102 and 103.
abbrev asked : Accounts
asked = (authenticate ports default_lockout 61 3 50 both).1

abbrev chosen : Accounts
chosen = (select_context ports default_lockout (some (100, 101)) 102 60 asked).1

select_run :
    select_context ports default_lockout (some (100, 101)) 102 60 asked
    ≡ (direct context (record { session = 104; refresh_token = 7104 }), chosen)
unfolding authenticate settle find_login_identity reset_failed enter resolve tenant_contexts
    platform_contexts membership_context sort_contexts insert_context issue_context authorize_tenant
    open_tenant_session challenge make_snapshot make_offers descriptors select_context choose
    same_snapshot same_offers
select_run = refl

select_context-IsSelected_example :
    IsSelected ports default_lockout 100 101 102 60 asked context
      (record { session = 104; refresh_token = 7104 })
      chosen
select_context-IsSelected_example =
    select_context-IsSelected ports default_lockout 100 101 102 60 asked chosen context
      (record { session = 104; refresh_token = 7104 }) select_run

select_once_example :
    select_context ports default_lockout (some (100, 101)) 103 70 chosen ≡ (nothing, chosen)
select_once_example =
    select_once ports default_lockout 100 101 102 103 60 70 asked chosen
      (direct context (record { session = 104; refresh_token = 7104 })) (omega arith) select_run

-- A wrong password of a client, between whose statements another client fails.
abbrev found_row : LoginIdentity
found_row = record {
  identity = 1;
  security_version = 1;
  hash = 1003;
  failed_attempts = 0;
  locked_until = none;
}

abbrev after_other : Accounts
after_other = (settle ports default_lockout found_row 5 51 one).1

abbrev after_both : Accounts
after_both = (settle ports default_lockout found_row 4 53 after_other).1

guess_run : Guessing ports default_lockout 1 50 60 1 Client.idle 53 after_both
unfolding find_login_identity
guess_run =
    Guessing.finish found_row 4 53
      (Guessing.compare found_row 4 52
        (Guessing.other found_row 5 51
          (Guessing.read found_row 61 50 Guessing.start (omega arith) refl refl) (omega arith)
          (inr (refl, refl)))
        (omega arith) (omega arith) refl refl)
      (omega arith)

guesses_bound_example :
    50 + 1 * lockout_span default_lockout ≤ 60 + 5 * lockout_span default_lockout
guesses_bound_example =
    guesses_bound ports default_lockout 1 50 60 1 Client.idle 53 after_both (omega arith)
      (omega arith) guess_run

abbrev secrets : Secrets
secrets = record {
  opaque_token = λ n. 300 + n;
  sha = λ x. x + 5000;
  hash = λ x. x + 1000;
  trim = λ x. x;
  is_blank = λ x. false;
}

abbrev options : RecoveryOptions
options = record { verification_minutes = 1440; reset_minutes = 30 }

-- The user asks for a reset and changes the password to 8.
abbrev requested : Accounts
requested = (request_password_reset secrets options 61 50 one).1

abbrev renewed : Accounts
renewed = (reset_password secrets options 31 300 8 60 requested).1

reset_run : reset_password secrets options 31 300 8 60 requested ≡ (true, renewed)
unfolding request_password_reset find_candidates candidates accounts_of send_resets send_token
    create_token reset_password consume_reset consume_token
reset_run = refl

reset_password-IsReset_example : IsReset 31 5300 1008 60 requested renewed
reset_password-IsReset_example =
    reset_password-IsReset secrets options 31 300 8 60 requested renewed reset_run

reset_keeps_login_example : find_login_identity 61 renewed ≡ find_login_identity 61 requested
reset_keeps_login_example =
    reset_keeps_login secrets options 31 300 8 60 61 requested renewed reset_run

one-IsThrifty : IsThrifty one
one-IsThrifty = record {
  resets = record { single = λ tenant a b k l at_a at_b open_k open_l same. cc };
  verifications = record { single = λ tenant a b k l at_a at_b open_k open_l same. cc };
}

Reach-IsThrifty_example : IsThrifty renewed
Reach-IsThrifty_example = Reach-IsThrifty secrets options one-IsThrifty (
    Tokens.Reach.next (Tokens.Step.request_reset 61 50 one)
      (Tokens.Reach.next (Tokens.Step.reset 31 300 8 60 requested) Tokens.Reach.here))

abbrev factor : SecondFactor
factor = record {
  generate_secret = λ n. n;
  totp_verify = λ secret token now. secret + now == token;
  encrypt = λ x. x;
  decrypt = λ x. x;
  recovery_code = λ n. n;
  hash = λ x. x + 5000;
  is_six_digits = λ x. false;
}

abbrev mfa_options : MfaOptions
mfa_options = record { minutes = 10; codes = 8 }

abbrev spent : Accounts
spent = record one {
  recovery_codes = λ t u h.
      if t == 31 && u == 41 && h == 5700
      then some (record { consumed = true })
      else some (record { consumed = false });
}

code_run : verify factor mfa_options 31 41 700 50 one ≡ ok (true, spent)
unfolding verify get_enabled_secret consume_code
code_run = refl

recovery_code_once_example : verify factor mfa_options 31 41 700 90 spent ≡ ok (false, spent)
recovery_code_once_example =
    recovery_code_once factor mfa_options 31 41 700 50 90 one spent code_run refl
