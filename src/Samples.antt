-- ===== src/Samples.antt =====
-- A small server in memory, on which the theorems are applied.
pub mod Memory
pub mod Parts
pub mod Start
pub mod Storage
pub mod Sessions
pub mod Commands
pub mod Requests
pub mod Running
pub mod Settings
pub mod Threads
pub mod Process
pub mod Interleaved
pub mod Lifetime
