-- ===== src/Store.antt =====
-- The store of src/store.rs: its tables, the operations of `Database`, and what they keep.
pub mod Tables
pub mod Rows
pub mod Executions
pub mod Journal
pub mod Keeps
pub mod Reading
pub mod Retention
pub mod Workspaces
pub mod Sessions
pub mod Listing
pub mod Stats
pub mod Actor
