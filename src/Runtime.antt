-- ===== src/Runtime.antt =====
-- runtime/: the shutdown signals, one round of the daemon and the daemon's loop.
pub mod Shutdown
pub mod Log
pub mod Lifecycle
pub mod Observations
pub mod Peers
pub mod LoopData
pub mod Loop
mod Tests
