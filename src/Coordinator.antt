-- ===== src/Coordinator.antt =====
-- pkg/coordinator: the coordinator of one workload, by the parts of its state and of its API.
pub mod State
pub mod Api
pub mod Names
pub mod Channels
pub mod Balance
pub mod Pods
pub mod Settle
pub mod Topology
pub mod Registration
pub mod Segments
pub mod Produce
pub mod Epochs
pub mod Consume
pub mod Acks
pub mod Subscriptions
pub mod Retention
pub mod Metrics
pub mod Persistence
pub mod Recovery
pub mod Delivery
