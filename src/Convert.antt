-- ===== src/Convert.antt =====
-- internal/convert: what is read out of the objects of the Kubernetes API.
pub mod Cloud
pub mod Annotations
pub mod Pods
pub mod Api
pub mod Shared
pub mod Nodes
pub mod Workloads
pub mod Jobs
pub mod Network
pub mod Storage
pub mod Scheduling
pub mod Hpa
pub mod HpaApi
pub mod Unstructured
pub mod Vpa
pub mod NodePools
