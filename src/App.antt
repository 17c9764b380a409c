-- ===== src/App.antt =====
-- internal/app: what the server is built from, how it starts and ends, and how it says that it is
-- ready
pub mod Settings
pub mod Bootstrap
pub mod Health
pub mod Lifecycle
