-- ===== src/Auth.antt =====
-- internal/auth: sign-in, the attempt limiter, the second factor and the role check.
pub mod Limiter
pub mod Totp
pub mod SignIn
