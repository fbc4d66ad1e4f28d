-- ===== src/Coordinator/Api.antt =====
-- pkg/coordinator/api.go: the messages of the control API, and the errors of its handlers.
use stark8s.Prelude.{ℕ, ℤ, String, Bool, List, ◌==◌, ◌&&◌, int_eq, string_eq}
use stark8s.Graph.{FeedbackMode}

-- One constructor for each `errf` of the package, and `commit_failed` for an error of the store.
pub data Error : Type 0 where
  operation_and_pod_required incarnation_replaced incarnation_required : Error
  pod_not_registered incarnation_inactive channel_not_found : Error
  may_not_produce channel_mismatch append_conflict channel_sealed epoch_behind : Error
  partition_out_of_range no_consumer may_not_consume pod_required : Error
  not_synchronous unknown_pod open_input has_consumer : Error
  not_retained append_id_required subscription_name_required subscription_bound : Error
  subscription_not_found reader_required position_not_retained deliveries_in_flight : Error
  position_unavailable retention_out_of_range commit_failed : Error

-- The HTTP status that `errf` is given. An error of the store has none: 500.
pub status : Error → ℕ
status Error.channel_not_found = 404
status Error.subscription_not_found = 404
status Error.may_not_produce = 403
status Error.may_not_consume = 403
status Error.incarnation_replaced = 409
status Error.incarnation_required = 409
status Error.pod_not_registered = 409
status Error.incarnation_inactive = 409
status Error.append_conflict = 409
status Error.channel_sealed = 409
status Error.subscription_bound = 409
status Error.deliveries_in_flight = 409
status Error.position_not_retained = 410
status Error.position_unavailable = 410
status Error.open_input = 425
status Error.commit_failed = 500
status _ = 400

pub record OperationSpec : Type 0 where
  pub name : String
  pub replicas : ℤ

-- `value` is the JSON text of the record's value, which the coordinator only stores and compares.
pub record Record : Type 0 where
  pub key : String
  pub value : String
  pub epoch : ℤ

pub record PodRegistration : Type 0 where
  pub operation : String
  pub pod : String
  pub incarnation : String
  pub addr : String
  pub slots : ℤ

pub record TaskId : Type 0 where
  pub channel : String
  pub partition : ℤ
  pub epoch : ℤ
  pub attempt : ℤ

unfoldable pub task_eq : TaskId → TaskId → Bool
task_eq a b =
    a.channel == b.channel
    && a.partition == b.partition
    && a.epoch == b.epoch
    && a.attempt == b.attempt

-- `records`, `bytes` and `overflowed` are int64 bit patterns.
pub record SegmentAnnouncement : Type 0 where
  pub id : String
  pub append_id : String
  pub channel : String
  pub partition : ℤ
  pub epoch : ℤ
  pub records : ℕ
  pub bytes : ℕ
  pub holder : String
  pub producer : String
  pub durable : Bool
  pub task : TaskId
  pub overflowed : ℕ

pub record SegmentRef : Type 0 where
  pub id : String
  pub append_id : String
  pub holder : String
  pub records : ℕ
  pub bytes : ℕ
  pub epoch : ℤ
  pub offset : ℕ

pub record AppendBatch : Type 0 where
  pub append_id : String
  pub partition : ℤ
  pub records : List Record

pub record PartitionPosition : Type 0 where
  pub partition : ℤ
  pub offset : ℤ

pub record SubscriptionAck : Type 0 where
  pub partition : ℤ
  pub offset : ℤ
  pub append_id : String

pub record PartitionWork : Type 0 where
  pub partition : ℕ
  pub segments : List SegmentRef

pub record ConsumeResponse : Type 0 where
  pub work : List PartitionWork
  pub sealed : Bool
  pub drained : Bool
  pub epoch : ℤ
  pub quiescent : Bool
  pub production_closed : Bool
  pub finite_epochs : Bool
  pub max_epochs : ℤ
  pub mode : FeedbackMode

-- `retry_after_millis` is an int64.
pub record SegmentAck : Type 0 where
  pub id : String
  pub append_id : String
  pub holder : String
  pub pod : String
  pub failure : String
  pub retry_after_millis : ℤ

pub record ChannelMetrics : Type 0 where
  pub name : String
  pub from : String
  pub to : String
  pub sealed : Bool
  pub pending : ℕ
  pub in_flight : ℕ
  pub produced : ℕ
  pub epoch : ℤ
  pub overflowed : ℕ
  pub lost : ℕ
  pub production_closed : Bool
  pub acknowledged : ℕ
  pub latest_delivery_failure : String
  pub pending_by_partition : List ℕ

pub record OperationMetrics : Type 0 where
  pub name : String
  pub runnable_tasks : ℕ
  pub complete : Bool
  pub holds_unconsumed : Bool
  pub live_pods : ℕ

pub record Metrics : Type 0 where
  pub channels : List ChannelMetrics
  pub operations : List OperationMetrics
