-- ===== src/BufferPool.antt =====
-- The buffer pool (crates/h2-mvstore/src/buffer_pool).
pub mod Clock
pub mod Slices
pub mod SlottedPage
pub mod Disk
pub mod Manager
