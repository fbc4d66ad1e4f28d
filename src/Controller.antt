-- ===== src/Controller.antt =====
-- pkg/controller and api/v1alpha1: the reconciler of workloads and the resource that it reads.
pub mod Types
pub mod Validate
pub mod Cycles
pub mod Cluster
pub mod Collective
pub mod Operations
pub mod Workloads
