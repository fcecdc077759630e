-- ===== src/Agent.antt =====
-- The package opendps/agent.
pub mod JobTracker
pub mod Failsafe
