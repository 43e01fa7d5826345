-- ===== src/Totp.antt =====
-- The one-time passwords and the Base32 of their secrets.
pub mod Base32
pub mod RoundTrip
pub mod Secrets
pub mod Codes
pub mod Window
mod Tests
