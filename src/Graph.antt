-- ===== src/Graph.antt =====
-- api/graph/graph.go: the channel type, the only edge of a workload's graph.
use stark8s.Prelude.{ℤ, String, Bool, true, false, Option}

-- Each string type is a data type. Its `unset` constructor is the empty string.
pub data PartitioningMode : Type 0 where
  unset hash round_robin broadcast : PartitioningMode

pub data Delivery : Type 0 where
  unset pipelined materialized : Delivery

pub data Durability : Type 0 where
  unset ephemeral retained : Durability

pub data CombineMode : Type 0 where
  unset sum min max count : CombineMode

pub data FeedbackMode : Type 0 where
  unset synchronous asynchronous : FeedbackMode

-- Whether a combined record may be applied more than once.
abbrev pub idempotent : CombineMode → Bool
idempotent CombineMode.min = true
idempotent CombineMode.max = true
idempotent _ = false

pub record Partitioning : Type 0 where
  pub mode : PartitioningMode
  pub partitions : ℤ  -- int32

pub record Feedback : Type 0 where
  pub mode : FeedbackMode
  pub max_epochs : ℤ  -- int32
  pub overflow : String

pub record ChannelSpec : Type 0 where
  pub name : String
  pub from : String
  pub to : String
  pub partitioning : Partitioning
  pub delivery : Delivery
  pub durability : Durability
  pub combine : CombineMode
  pub feedback : Option Feedback

-- The tests `mode == ...` of the source.
abbrev pub is_hash : PartitioningMode → Bool
is_hash PartitioningMode.hash = true
is_hash _ = false

abbrev pub is_broadcast : PartitioningMode → Bool
is_broadcast PartitioningMode.broadcast = true
is_broadcast _ = false

abbrev pub is_materialized : Delivery → Bool
is_materialized Delivery.materialized = true
is_materialized _ = false

abbrev pub is_retained : Durability → Bool
is_retained Durability.retained = true
is_retained _ = false

abbrev pub is_synchronous : FeedbackMode → Bool
is_synchronous FeedbackMode.synchronous = true
is_synchronous _ = false

abbrev pub is_asynchronous : FeedbackMode → Bool
is_asynchronous FeedbackMode.asynchronous = true
is_asynchronous _ = false
