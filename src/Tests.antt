-- ===== src/Tests.antt =====
-- Runs at concrete inputs.
pub mod Data
pub mod Trees
pub mod Locks
pub mod Versions
pub mod Limits
pub mod Transactions
pub mod Commits
pub mod Maps
pub mod Frames
pub mod Logs
pub mod Fleets
pub mod Keys
pub mod Pages
pub mod Pools
