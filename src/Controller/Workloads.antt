-- ===== src/Controller/Workloads.antt =====
-- `Reconcile` of pkg/controller/reconciler.go: one pass over a workload.
pub mod Traced
pub mod Named
pub mod Phases
use stark8s.Prelude.{
  ℕ, ℤ, pos, String, Bool, true, false, not, ◌&&◌, ◌||◌, Option, none, some, List, [], ◌∷◌, any,
  all, Map, lookup, insert, or_else, is_some, ltb, ltb_ℤ, ◌==◌, if◌then◌else◌, string_eq,
}
use stark8s.Coordinator.Api.{ChannelMetrics, Metrics}
use stark8s.Controller.Types.{
  WorkloadSpec, DeclaredOperation, VerticalScalingMode, is_never, is_auto,
}
use stark8s.Controller.Validate.{Invalid}
use stark8s.Controller.Cycles.{validate}
use stark8s.Controller.Cluster.{
  OperationPhase, Reason, OperationStatus, WorkloadPhase, WorkloadReason, Message, WorkloadStatus,
  Cluster, K, and_then, ◌>>=◌, return, fail, call, ensure, fetch_metrics,
}
use stark8s.Controller.Operations.{MetricsView, view_of, ensure_vpa, reconcile_operation}

-- Whether the pass asks to be repeated after the poll interval.
pub data Requeue : Type 0 where
  later never : Requeue

abbrev pub is_terminal : WorkloadPhase → Bool
is_terminal WorkloadPhase.succeeded = true
is_terminal WorkloadPhase.failed = true
is_terminal _ = false

-- The stored status is replaced, if the call succeeds.
unfoldable pub update_status : WorkloadStatus → K (Unit {0})
unfolding call
update_status st = call (λ k. record k { status = st })

unfoldable pub set_phase : WorkloadPhase → WorkloadReason → Message → WorkloadStatus → K Requeue
unfolding update_status
set_phase phase why message st =
    update_status (record st { phase = phase; reason = why; message = message }) >>= λ u.
    return Requeue.never

-- The branch for channels that lost required records.
abbrev pub has_lost : ChannelMetrics → Bool
has_lost c = ltb 0 c.lost

abbrev pub lost_records : List ChannelMetrics → List (String × ℕ)
lost_records [] = []
lost_records (c ∷ cs) =
    let rest = lost_records cs in if has_lost c then (c.name, c.lost) ∷ rest else rest

abbrev previous_status : List OperationStatus → String → OperationStatus → OperationStatus
previous_status [] name st = st
previous_status (o ∷ os) name st = previous_status os name (if o.name == name then o else st)

abbrev no_status : String → OperationStatus
no_status name = record {
  name = name;
  phase = OperationPhase.waiting;
  reason = Reason.no_reason;
  replicas = pos 0;
  ready = pos 0;
  runnable_tasks = 0;
  holds_unconsumed = false;
}

abbrev mark_unavailable : String → List ChannelMetrics → OperationStatus → OperationStatus
mark_unavailable name [] st = st
mark_unavailable name (c ∷ cs) st = mark_unavailable name cs (
    if c.to == name && has_lost c
    then (record st {
      phase = OperationPhase.failed;
      reason = Reason.unavailable_data c.name c.lost;
    })
    else st)

abbrev lost_statuses :
    List OperationStatus → List ChannelMetrics → List DeclaredOperation → List OperationStatus
lost_statuses old cs [] = []
lost_statuses old cs (o ∷ os) =
    mark_unavailable o.name cs (previous_status old o.name (no_status o.name))
    ∷ lost_statuses old cs os

abbrev pub lost_status : WorkloadSpec → List ChannelMetrics → WorkloadStatus → WorkloadStatus
lost_status s cs st = record st {
  channels = cs;
  operations = lost_statuses st.operations cs s.operations;
}

unfoldable pub fail_lost : WorkloadSpec → List ChannelMetrics → K Requeue
unfolding set_phase
fail_lost s cs k =
    set_phase WorkloadPhase.failed WorkloadReason.required_records_lost
      (Message.records_lost (lost_records cs)) (lost_status s cs k.status) k

-- The autoscalers of the operations: an old one is deleted, and a vertical one is looked after.
unfoldable pub ensure_scalers : List DeclaredOperation → K (Unit {0})
unfolding ensure_vpa
ensure_scalers [] = return tt
ensure_scalers (o ∷ os) = ensure >>= λ u.
    (if is_auto o.scaling.vertical then ensure_vpa o o.scaling.vertical else return tt) >>= λ u'.
    ensure_scalers os

unfoldable pub reconcile_operations :
    WorkloadSpec → MetricsView → List DeclaredOperation → K (List OperationStatus)
unfolding reconcile_operation
reconcile_operations s v [] = return []
reconcile_operations s v (o ∷ os) =
    reconcile_operation s v o >>= λ st. reconcile_operations s v os >>= λ rest. return (st ∷ rest)

abbrev pub has_failed : OperationStatus → Bool
has_failed st = elim st.phase [ OperationPhase.failed ↦ true | _ ↦ false ]

abbrev pub has_succeeded : OperationStatus → Bool
has_succeeded st = elim st.phase [ OperationPhase.succeeded ↦ true | _ ↦ false ]

-- Each operation that ends by itself has a status of success; the statuses are in the order of the
-- operations.
abbrev pub all_done : List DeclaredOperation → List OperationStatus → Bool
all_done [] sts = true
all_done (o ∷ os) [] = false
all_done (o ∷ os) (st ∷ sts) = (is_never o.completion || has_succeeded st) && all_done os sts

abbrev pub is_streaming : DeclaredOperation → Bool
is_streaming o = is_never o.completion

abbrev is_scaled : DeclaredOperation → Bool
is_scaled o =
    ltb_ℤ (pos 0) o.scaling.horizontal.cpu_utilization_percent || is_auto o.scaling.vertical

abbrev reason_for : WorkloadPhase → Message → WorkloadReason
reason_for WorkloadPhase.succeeded message = WorkloadReason.operations_drained
reason_for WorkloadPhase.failed message = WorkloadReason.operation_failed
reason_for _ Message.scaling_is_disabled = WorkloadReason.scaling_disabled
reason_for _ message = WorkloadReason.operations_running

-- The phase and the message of a pass that went through.
unfoldable pub workload_phase : WorkloadSpec → List OperationStatus → WorkloadPhase × Message
workload_phase s sts =
    if any has_failed sts
    then (WorkloadPhase.failed, Message.operations_failed)
    else if all_done s.operations sts && not (any is_streaming s.operations)
    then (WorkloadPhase.succeeded, Message.all_drained)
    else (
      WorkloadPhase.running,
      if any is_scaled s.operations then Message.scaling_is_disabled else Message.empty,
    )

unfoldable pub finish : WorkloadSpec → List OperationStatus → List ChannelMetrics → K Requeue
unfolding update_status workload_phase
finish s sts cs k =
    (update_status (record k.status {
      phase = (workload_phase s sts).0;
      reason = reason_for (workload_phase s sts).0 (workload_phase s sts).1;
      message = (workload_phase s sts).1;
      operations = sts;
      channels = cs;
    })
        >>= λ u. return (elim (workload_phase s sts).0 [
          | WorkloadPhase.running ↦ Requeue.later
          | _ ↦ Requeue.never
        ]))
      k

abbrev refreshed : Metrics → Option Metrics → List ChannelMetrics
refreshed old none = old.channels
refreshed old (some m) = m.channels

unfoldable pub drive : WorkloadSpec → Metrics → K Requeue
unfolding ensure_scalers reconcile_operations fetch_metrics finish
drive s m = ensure_scalers s.operations >>= λ u. ensure >>= λ pushed.
    reconcile_operations s (view_of m) s.operations >>= λ sts.
    fetch_metrics >>= λ again. finish s sts (refreshed m again)

unfoldable pub observe : WorkloadSpec → Option Metrics → K Requeue
unfolding fail_lost drive
observe s none = return Requeue.later
observe s (some m) = if any has_lost m.channels then fail_lost s m.channels else drive s m

-- The topology is pushed; a coordinator that cannot be reached keeps the workload pending.
abbrev after_push : WorkloadSpec → Cluster × Option (Unit {0}) → Cluster × Option Requeue
after_push s (k, none) =
    and_then
      (set_phase WorkloadPhase.pending WorkloadReason.coordinator_unavailable
        Message.waiting_for_coordinator k.status k)
      (λ r. return Requeue.later)
after_push s (k, some u) = (fetch_metrics >>= λ m. observe s m) k

unfoldable pub prepare : WorkloadSpec → K Requeue
unfolding set_phase observe fetch_metrics call
prepare s = ensure >>= λ coordinator.
    ensure >>= λ accounts. ensure >>= λ policies k. after_push s (ensure k)

abbrev pub reconcile_valid : WorkloadSpec → Option Invalid → K Requeue
reconcile_valid s none k = prepare s k
reconcile_valid s (some e) k =
    set_phase WorkloadPhase.failed WorkloadReason.invalid_workload (Message.invalid e) k.status k

unfoldable pub reconcile : WorkloadSpec → K Requeue
unfolding prepare set_phase
reconcile s k =
    if is_terminal k.status.phase then (k, some Requeue.never) else reconcile_valid s (validate s) k
