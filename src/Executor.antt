-- ===== src/Executor.antt =====
-- The parts of src/executor.rs between a supervised process and the store.
pub mod Capture
pub mod Writer
pub mod Task
pub mod Cancel
