-- ===== src/Host.antt =====
-- The host server of src/HOST.
pub mod Fifo
pub mod State
pub mod Bypass
pub mod Links
pub mod Reports
pub mod Sock
pub mod Tasks
pub mod Rows
pub mod Server
pub mod Config
mod ServerTests
mod Tests
mod LinkTests
