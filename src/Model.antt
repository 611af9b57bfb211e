-- ===== src/Model.antt =====
-- The data model of src/model.rs: commands, executions and their events, agent sessions and their
-- turns, workspaces. Times are `i64` milliseconds from `now_ms`, which is never negative.
pub mod Text
pub mod Command
pub mod Execution
pub mod Session
pub mod Workspace
