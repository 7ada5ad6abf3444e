-- ===== src/Metadata.antt =====
-- crates/metadata: the stores that keep adapters and tools.
pub mod Sorted
pub mod Memory
pub mod Sql
