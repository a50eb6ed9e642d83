-- ===== src/Sql.antt =====
-- The SQL layer, crates/h2-sql: its values, and the order-preserving keys of its indexes.
pub mod Value
pub mod Compare
pub mod Encoding
pub mod Ranges
