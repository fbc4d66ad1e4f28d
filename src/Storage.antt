-- ===== src/Storage.antt =====
-- pkg/storage: immutable objects and fenced commits of checkpoints, over a store of objects.
pub mod Objects
pub mod Paths
pub mod Local
pub mod Checkpoint
pub mod Race
