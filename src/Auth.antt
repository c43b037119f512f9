-- ===== src/Auth.antt =====
-- apps/api/src/auth: passwords, second factors, sessions, API tokens and the guard of the API.
pub mod Base32
pub mod Totp
pub mod TwoFactor
pub mod Bearer
pub mod Reset
pub mod Tokens
pub mod Tests
