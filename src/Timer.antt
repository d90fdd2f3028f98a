-- ===== src/Timer.antt =====
-- The timers of the common library, src/CMLB/src/timer.c.
pub mod Ids
pub mod Entries
pub mod Api
pub mod Safety
pub mod Run
pub mod Expiry
mod Tests
