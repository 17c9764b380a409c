-- ===== src/Access.antt =====
-- internal/infrastructure/security: who calls, and what the caller may do
pub mod Authenticator
pub mod Gate
