-- ===== src/Tests.antt =====
-- Test data, runs at fixed inputs, and each result applied to a concrete input.
mod Data
mod Store
mod Executor
mod Task
mod Sessions
mod Supervisor
mod Daemon
mod Recorder
mod Mcp
mod Watch
mod Agent
mod Artifacts
