-- ===== src/Tx.antt =====
-- Multi-version transactions (crates/h2-mvstore/src/tx).
pub mod VersionedValue
pub mod Codec
pub mod Lock
pub mod Maps
pub mod Engine
pub mod Reads
pub mod Writes
pub mod Commit
pub mod Vacuum
