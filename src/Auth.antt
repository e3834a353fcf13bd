-- ===== src/Auth.antt =====
-- internal/auth: accounts, and sessions held by opaque refresh tokens.
pub mod Email
pub mod Refresh
pub mod Service
pub mod Signup
