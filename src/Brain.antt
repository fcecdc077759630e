-- ===== src/Brain.antt =====
-- The package opendps/brain: the algorithms that turn a domain's observed state into caps.
pub mod State
pub mod Dpm
pub mod Prs
pub mod Scale
pub mod Priority
pub mod Thermal
pub mod JobAware
pub mod Quota
pub mod Cvxpy
