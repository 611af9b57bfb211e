-- ===== src/Daemon.antt =====
-- The daemon, src/daemon.rs.
pub mod Subscription
pub mod Live
pub mod Artifacts
