-- ===== src/Daemon/Threads/Invariant.antt =====
-- What holds in every state that the process comes to: true at the start, and kept by every step.
mod Defs
pub mod Control
pub mod Readiness
pub use Defs.*
