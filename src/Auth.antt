-- ===== src/Auth.antt =====
-- rust/crates/mr-config/src/auth.rs: the login limiter, sessions and one-time codes.
pub mod Limiter
pub mod Base32
pub mod Totp
pub mod Password
pub mod Sessions
