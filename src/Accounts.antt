-- ===== src/Accounts.antt =====
-- The accounts: identities and their credentials, the login and the choice of a context, the
-- tokens of the account's owner and the second factor.
pub mod Rows
pub mod Credentials
pub mod Contexts
pub mod Login
pub mod Entitled
pub mod Own
pub mod Selection
pub mod Admission
pub mod Recovery
pub mod Service
pub mod Resets
pub mod Single
pub mod Tokens
pub mod Attempts
pub mod Counting
pub mod Lockout
pub mod Mfa
pub mod Factors
mod Tests
