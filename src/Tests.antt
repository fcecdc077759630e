-- ===== src/Tests.antt =====
-- Runs of the models on a small cluster, and the theorems applied to it.
mod Demo
mod PdnRuns
mod BrainRuns
mod ClusterRuns
mod QuotaRuns
mod AgentRuns
mod WrapperRuns
mod OperatorRuns
mod ControllerRuns
