-- ===== src/Scenarios/Controlling.antt =====
-- Tests and witnesses on a workload of one channel: pkg/controller.
use stark8s.Prelude.{
  ℕ, ℤ, pos, ◌≤ℤ◌, true, false, none, some, [], ◌∷◌, any, All, String, ◌≡◌, ◌≢◌, ◌⊎◌, ◌<◌, refl,
  lookup, insert, arith, string_eq,
}
use stark8s.Coordinator.Api.{OperationMetrics, Metrics}
use stark8s.Controller.Types.{
  WorkloadSpec, DeclaredOperation, CollectiveSpec, CollectivePlacement, Completion, PodTemplate,
}
use stark8s.Controller.Validate.{Invalid, check_object_store, check_operations, check_operation}
use stark8s.Controller.Cycles.{
  is_edge, adjacent, visit_each, visit, visit_roots, find_cycle, check_channel, check_channels,
  validate,
}
use stark8s.Controller.Cycles.Acyclic.{validate-acyclic}
use stark8s.Controller.Cycles.Bounded.{find_cycle-bounded}
use stark8s.Controller.Cluster.{
  OperationPhase, Reason, OperationStatus, WorkloadPhase, WorkloadReason, Message, Deployment,
  Cluster, call, fetch_metrics,
}
use stark8s.Controller.Collective.{post_seal, seal_outputs, reconcile_collective}
use stark8s.Controller.Collective.Attempts.{reconcile_collective-IsLimited, IsLimited}
use stark8s.Controller.Operations.{
  view_of, is_blocked, is_drained, holds_retained, desired_replicas, wanted_replicas,
  put_deployment, deploy, ensure_vpa, operation_reason, deployed_status, reconcile_deployment,
  reconcile_operation,
}
use stark8s.Controller.Operations.Replicas.{MayStop, reconcile_operation-replicas}
use stark8s.Controller.Workloads.{
  is_streaming, has_failed, update_status, set_phase, fail_lost, ensure_scalers,
  reconcile_operations, workload_phase, finish, drive, observe, prepare, reconcile,
}
use stark8s.Controller.Workloads.Named.{AllSucceeded}
use stark8s.Controller.Workloads.Phases.{reconcile-succeeds}
use stark8s.Scenarios.{lines}

abbrev template : PodTemplate
template = record { init_containers = []; containers = []; volumes = [] }

abbrev operation_named : String → DeclaredOperation
operation_named name = record {
  name = name;
  checkpoint = false;
  completion = Completion.drain;
  template = template;
  scaling = record {
    horizontal = record { min = pos 0; max = pos 2; cpu_utilization_percent = pos 0 };
    vertical = none;
  };
  slots = pos 1;
  collective = none;
  tick_interval = none;
  egress = [];
  segments = none;
}

abbrev word_count : WorkloadSpec
word_count = record {
  operations = operation_named "read" ∷ operation_named "count" ∷ [];
  channels = lines ∷ [];
  object_store = none;
}

word_count_is_valid : validate word_count ≡ none
unfolding validate check_object_store check_operations check_operation check_channels check_channel
    find_cycle visit_roots visit visit_each adjacent lookup insert
word_count_is_valid = refl

validate-acyclic_example :
    (rank : String → ℕ) × All (λ c. is_edge c ≡ true → rank c.to < rank c.from) (lines ∷ [])
validate-acyclic_example = validate-acyclic word_count word_count_is_valid

-- A workload whose only channel leads back to its producer.
abbrev knot : WorkloadSpec
knot = record word_count { channels = (record lines { to = "read" }) ∷ [] }

knot_is_refused : validate knot ≡ some (Invalid.unbroken_cycle "read" "read")
unfolding validate check_object_store check_operations check_operation check_channels check_channel
    find_cycle visit_roots visit visit_each adjacent lookup insert
knot_is_refused = refl

knot_channels : check_channels knot knot.channels ≡ none
unfolding check_channels check_channel
knot_channels = refl

find_cycle-bounded_example : find_cycle knot ≢ some Invalid.too_deep
find_cycle-bounded_example = find_cycle-bounded knot knot_channels

abbrev done_report : String → OperationMetrics
done_report name = record {
  name = name;
  runnable_tasks = 0;
  complete = true;
  holds_unconsumed = false;
  live_pods = 2;
}

abbrev all_done_report : Metrics
all_done_report = record {
  channels = [];
  operations = done_report "read" ∷ done_report "count" ∷ [];
}

abbrev running_cluster : Cluster
running_cluster = record {
  deployments = [];
  jobs = [];
  pods = λ name. none;
  vpas = [];
  vpa_installed = false;
  sealed = [];
  status = record {
    phase = WorkloadPhase.running;
    reason = WorkloadReason.operations_running;
    message = Message.empty;
    operations = [];
    channels = [];
  };
  answers = [];
  reports = some all_done_report ∷ some all_done_report ∷ [];
}

abbrev stopped_status : OperationStatus
stopped_status = record {
  name = "count";
  phase = OperationPhase.succeeded;
  reason = Reason.operation_drained;
  replicas = pos 0;
  ready = pos 0;
  runnable_tasks = 0;
  holds_unconsumed = false;
}

count_free : is_blocked word_count (view_of all_done_report) (operation_named "count") ≡ false
unfolding is_blocked lookup insert
count_free = refl

count_stopped :
    (reconcile_operation word_count
      (view_of all_done_report)
      (operation_named "count")
      running_cluster).1
    ≡ some stopped_status
unfolding reconcile_operation is_blocked reconcile_deployment is_drained seal_outputs deploy
    put_deployment wanted_replicas holds_retained desired_replicas operation_reason deployed_status
    ensure_vpa call lookup insert
count_stopped = refl

reconcile_operation-replicas_example :
    (d : Deployment) × (n : ℤ) × (lookup
        (reconcile_operation word_count
          (view_of all_done_report)
          (operation_named "count")
          running_cluster).0.deployments
        "count"
      ≡ some d)
    × (d.replicas ≡ some n)
    × (((n ≡ pos 0) × MayStop word_count (view_of all_done_report) (operation_named "count"))
        ⊎ (pos 1 ≤ℤ n))
reconcile_operation-replicas_example =
    reconcile_operation-replicas word_count (view_of all_done_report) (operation_named "count")
      running_cluster stopped_status refl count_free count_stopped

abbrev after_pass : Cluster
after_pass = (reconcile word_count running_cluster).0

pass_succeeds : after_pass.status.phase ≡ WorkloadPhase.succeeded
unfolding reconcile prepare observe drive ensure_scalers ensure_vpa reconcile_operations finish
    workload_phase update_status set_phase fetch_metrics fail_lost validate check_object_store
    check_operations check_operation check_channels check_channel find_cycle visit_roots visit
    visit_each adjacent reconcile_operation is_blocked reconcile_deployment is_drained seal_outputs
    deploy put_deployment wanted_replicas holds_retained desired_replicas operation_reason
    deployed_status call lookup insert post_seal
pass_succeeds = refl

reconcile-succeeds_example :
    (validate word_count ≡ none)
    × (any is_streaming word_count.operations ≡ false)
    × AllSucceeded word_count.operations after_pass.status.operations
    × (any has_failed after_pass.status.operations ≡ false)
reconcile-succeeds_example = reconcile-succeeds word_count running_cluster refl pass_succeeds

abbrev group : CollectiveSpec
group = record {
  size = pos 4;
  max_attempts = pos 2;
  placement = CollectivePlacement.ordinary;
  checkpoint = "models";
}

abbrev failed_group : Cluster
failed_group = record running_cluster {
  jobs =
      (record {
        operation = "count";
        attempt = 1;
        owned = true;
        complete = false;
        failed = true;
        succeeded = pos 0;
        ready = none;
        size = pos 4;
      })
      ∷ [];
}

reconcile_collective-IsLimited_example :
    IsLimited "count" 2
      (reconcile_collective word_count (operation_named "count") group failed_group).0.jobs
reconcile_collective-IsLimited_example =
    reconcile_collective-IsLimited (operation_named "count") group word_count failed_group
      ((λ e. omega arith), tt)
