-- ===== src/Pdn.antt =====
-- The package opendps/pdn: the power delivery topology and the tenant quotas.
pub mod Model
pub mod Quota
