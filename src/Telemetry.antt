-- ===== src/Telemetry.antt =====
-- The package opendps/telemetry.
pub mod Energy
pub mod Metrics
