-- ===== src/Controller.antt =====
-- The package opendps/controller.
pub mod Coordinator
pub mod PriorityConfig
pub mod AgentBridge
pub mod Standalone
