-- ===== src/Operator.antt =====
-- opendps/operator/handlers.py: the Kubernetes operator.
pub mod Order
pub mod Api
pub mod Pods
pub mod ConfigMaps
pub mod Registry
pub mod Policies
pub mod PodEvents
