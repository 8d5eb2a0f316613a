-- ===== src/Sfu.antt =====
-- sfu_server.rs: the adapter between the signaling session and the Sans-I/O engine of the `sfu` crate.
pub mod Engine
pub mod Shard
pub mod Signal
pub mod Sync
pub mod Commands
pub mod Cache
pub mod Metrics
pub mod MediaLoop
pub mod Events
pub mod Dispatch
pub mod Session
pub mod Reconnect
mod Tests
mod SessionTests
mod MediaTests
mod PlacementTests
