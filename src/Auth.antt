-- ===== src/Auth.antt =====
-- src/auth: accounts, sessions and password resets.
pub mod Deps
pub mod Service
