-- ===== src/World/Returns.antt =====
-- What holds when an action returns: one rule for each way to build an action. A proof about a
-- service follows its statements, and collects what each successful one tells.
mod Rules
mod Tolerant
pub use Rules.*
pub use Tolerant.*
