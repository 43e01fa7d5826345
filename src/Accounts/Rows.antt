-- ===== src/Accounts/Rows.antt =====
-- The rows that the login, the recovery of an account and the second factor read and write
-- (src/infrastructure/database/repositories/postgres-platform-repository.ts,
-- postgres-account-security-repository.ts and postgres-mfa-repository.ts). A table that is looked
-- up by its primary or unique key is a function of it. Names, and the columns that record who
-- wrote a row and when, are left out. Identifiers that PostgreSQL compares as `citext` are equal
-- numbers where they differ in case only. Times are in milliseconds.
use new_erp_final.Common.{ℕ, Bool, true, false, Option, List}

pub record Identity : Type 0 where
  pub active : Bool
  pub security_version : ℕ

-- The row of an identity whose provider is 'local' and whose type is 'password', of which there
-- is at most one.
pub record Credential : Type 0 where
  pub active : Bool
  pub hash : ℕ
  pub failed_attempts : ℕ
  pub locked_until : Option ℕ

-- The type is 'email' or 'username'; there is at most one row of a type and an identifier.
pub record LoginIdentifier : Type 0 where
  pub is_email : Bool
  pub identifier : ℕ
  pub identity : ℕ
  pub user : ℕ
  pub tenant : ℕ
  pub active : Bool

-- The status is `active` or another one.
pub record Membership : Type 0 where
  pub id : ℕ
  pub identity : ℕ
  pub tenant : ℕ
  pub active : Bool
  pub revoked : Bool
  pub security_version : ℕ

pub record PlatformMembership : Type 0 where
  pub id : ℕ
  pub identity : ℕ
  pub active : Bool
  pub revoked : Bool
  pub security_version : ℕ

pub data TenantStatus : Type 0 where
  active trial other : TenantStatus

pub record Tenant : Type 0 where
  pub status : TenantStatus
  pub is_deleted : Bool
  pub version : ℕ

pub data UserStatus : Type 0 where
  active pending_verification other : UserStatus

pub record User : Type 0 where
  pub id : ℕ
  pub tenant : ℕ
  pub identity : ℕ
  pub email : ℕ
  pub username : ℕ
  pub status : UserStatus
  pub is_deleted : Bool
  pub default_branch : Option ℕ
  pub password_hash : ℕ
  pub failed_logins : ℕ
  pub locked_until : Option ℕ
  pub email_verified_at : Option ℕ
  pub mfa_secret : Option ℕ
  pub mfa_enabled : Bool
  pub version : ℕ

-- A context that an identity may work in: `TenantLoginContext` or `PlatformLoginContext`, whose
-- `contextId` is the membership and whose `platformSecurityVersion` is that of the membership.
pub record TenantContext : Type 0 where
  pub membership : ℕ
  pub tenant : ℕ
  pub identity : ℕ
  pub user : ℕ
  pub identity_version : ℕ
  pub membership_version : ℕ
  pub tenant_version : ℕ
  pub user_version : ℕ

pub record PlatformContext : Type 0 where
  pub membership : ℕ
  pub identity : ℕ
  pub identity_version : ℕ
  pub membership_version : ℕ

pub data LoginContext : Type 0 where
  tenant_context : TenantContext → LoginContext
  platform_context : PlatformContext → LoginContext

-- An entry of the snapshot, with the reference by which the client names it.
pub record Offer : Type 0 where
  pub context : LoginContext
  pub reference : ℕ

pub record Snapshot : Type 0 where
  pub offers : List Offer
  pub identity_version : ℕ

pub record Challenge : Type 0 where
  pub identity : ℕ
  pub secret_hash : ℕ
  pub snapshot : Snapshot
  pub expires : ℕ
  pub consumed : Bool

-- A session belongs to a user of a tenant, or to a platform membership.
pub data Holder : Type 0 where
  user_of : ℕ → ℕ → Option ℕ → Holder
  platform_of : ℕ → Holder

pub record Session : Type 0 where
  pub id : ℕ
  pub holder : Holder
  pub identity : ℕ
  pub branch : Option ℕ
  pub hash : ℕ
  pub active : Bool
  pub revoked_at : Option ℕ
  pub expires : ℕ
  pub security_version : ℕ

-- A row of `email_verification_tokens` or of `password_reset_tokens`, whose unique key is the
-- tenant and the hash.
pub record Token : Type 0 where
  pub user : ℕ
  pub expires : ℕ
  pub consumed_at : Option ℕ

-- A user has at most one enrollment: the statement that adds one comes after the deletion of all.
pub record Enrollment : Type 0 where
  pub secret : ℕ
  pub expires : ℕ

-- The unique key of a recovery code is its tenant, its user and its hash.
pub record RecoveryCode : Type 0 where
  pub consumed : Bool

pub record Accounts : Type 0 where
  pub identities : ℕ → Option Identity
  pub credentials : ℕ → Option Credential
  pub identifiers : List LoginIdentifier
  pub memberships : List Membership
  pub platform_memberships : List PlatformMembership
  pub tenants : ℕ → Option Tenant
  pub users : List User
  pub challenges : ℕ → Option Challenge
  pub sessions : List Session
  pub reset_tokens : ℕ → ℕ → Option Token
  pub verification_tokens : ℕ → ℕ → Option Token
  pub enrollments : ℕ → ℕ → Option Enrollment
  pub recovery_codes : ℕ → ℕ → ℕ → Option RecoveryCode
  -- How many random values have been drawn.
  pub drawn : ℕ

-- A query of the pool: each one commits by itself.
abbrev pub Query : Type 0 → Type 0
Query A = Accounts → A × Accounts

abbrev pub is_active : UserStatus → Bool
is_active active = true
is_active _ = false

-- `t.is_deleted = false AND t.status IN ('active', 'trial')`
abbrev pub is_open : Tenant → Bool
is_open t = elim t.is_deleted [
  | true ↦ false
  | false ↦ elim t.status [ active ↦ true | trial ↦ true | other ↦ false ]
]
