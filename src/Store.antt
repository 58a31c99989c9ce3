-- ===== src/Store.antt =====
-- src/store.rs: the tables, the operations on them, and what they keep.
pub mod Migration
pub mod Schema
pub mod Exec
pub mod Rows
pub mod Nodes
pub mod Entries
pub mod Tree
pub mod Reads
pub mod Checkpoints
pub mod Promotion
