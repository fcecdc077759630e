-- ===== src/Sim.antt =====
-- The package opendps/sim.
pub mod Backend
pub mod Actuator
