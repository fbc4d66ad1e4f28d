-- ===== src/Controller/Operations.antt =====
-- pkg/controller/reconciler.go: one operation of a workload, its replicas and its status.
pub mod Kept
pub mod Replicas
use stark8s.Prelude.{
  ℕ, ℤ, pos, String, Bool, true, false, not, ◌&&◌, ◌||◌, Option, none, some, List, [], ◌∷◌, ◌++◌,
  any, contains, Map, lookup, insert, delete, or_else, is_some, ltb_ℤ, int_beq, ◌==◌, if◌then◌else◌,
  string_eq,
}
use stark8s.Graph.{ChannelSpec, is_materialized, is_retained}
use stark8s.Coordinator.Api.{ChannelMetrics, OperationMetrics, Metrics}
use stark8s.Controller.Types.{
  WorkloadSpec, DeclaredOperation, CollectiveSpec, Container, PodTemplate, VerticalScalingMode,
  is_never, inbound_channels, outbound_channels,
}
use stark8s.Controller.Cluster.{
  OperationPhase, Reason, OperationStatus, InitStatus, PodState, Deployment, Cluster, K, ◌>>=◌,
  return, fail, call, ensure,
}
use stark8s.Controller.Collective.{seal_outputs, reconcile_collective}

-- `metricsView`: the last report of each name.
pub record MetricsView : Type 0 where
  pub channels : Map String ChannelMetrics
  pub operations : Map String OperationMetrics

abbrev channel_view : Map String ChannelMetrics → List ChannelMetrics → Map String ChannelMetrics
channel_view m [] = m
channel_view m (c ∷ cs) = channel_view (insert m c.name c) cs

abbrev operation_view :
    Map String OperationMetrics → List OperationMetrics → Map String OperationMetrics
operation_view m [] = m
operation_view m (o ∷ os) = operation_view (insert m o.name o) os

abbrev pub view_of : Metrics → MetricsView
view_of m = record {
  channels = channel_view [] m.channels;
  operations = operation_view [] m.operations;
}

-- What is read of a channel that is not reported is the zero value.
abbrev pub is_sealed : MetricsView → String → Bool
is_sealed v name = elim (lookup v.channels name) [ none ↦ false | some c ↦ c.sealed ]

abbrev pub is_closed : MetricsView → String → Bool
is_closed v name = elim (lookup v.channels name) [ none ↦ false | some c ↦ c.production_closed ]

abbrev pub failure_of : MetricsView → String → String
failure_of v name = elim (lookup v.channels name) [ none ↦ "" | some c ↦ c.latest_delivery_failure ]

unfoldable pub desired_replicas : DeclaredOperation → ℤ
desired_replicas o =
    if ltb_ℤ o.scaling.horizontal.max (pos 1) then pos 1 else o.scaling.horizontal.max

unfoldable pub slots_of : DeclaredOperation → ℤ
slots_of o = if ltb_ℤ o.slots (pos 1) then pos 1 else o.slots

-- The stage barrier: an input that is materialized and no feedback, and may still grow.
abbrev pub holds_back : MetricsView → ChannelSpec → Bool
holds_back v c =
    is_materialized c.delivery
    && not (is_some c.feedback)
    && not (is_sealed v c.name)
    && not (is_closed v c.name)

unfoldable pub is_blocked : WorkloadSpec → MetricsView → DeclaredOperation → Bool
is_blocked s v o = any (holds_back v) (inbound_channels s o.name)

unfoldable pub holds_retained : WorkloadSpec → DeclaredOperation → Bool
holds_retained s o =
    any (λ c. not (c.to == "") && is_retained c.durability) (outbound_channels s o.name)

abbrev pub report_of : MetricsView → String → Option OperationMetrics
report_of v name = lookup v.operations name

abbrev pub is_complete : Option OperationMetrics → Bool
is_complete none = false
is_complete (some m) = m.complete

abbrev pub holds : Option OperationMetrics → Bool
holds none = false
holds (some m) = m.holds_unconsumed

abbrev runnable : Option OperationMetrics → ℕ
runnable none = 0
runnable (some m) = m.runnable_tasks

unfoldable pub is_drained : MetricsView → DeclaredOperation → Bool
is_drained v o = is_complete (report_of v o.name) && not (is_never o.completion)

abbrev pub current_of : Option Deployment → ℤ
current_of none = pos 0
current_of (some d) = or_else d.replicas (pos 0)

-- The switch on what the pods are still needed for.
unfoldable pub wanted_replicas : WorkloadSpec → MetricsView → DeclaredOperation → ℤ → ℤ
unfolding is_drained holds_retained desired_replicas
wanted_replicas s v o current =
    if is_drained v o && (holds (report_of v o.name) || holds_retained s o)
    then (if ltb_ℤ current (pos 1) then pos 1 else current)
    else if is_drained v o
    then pos 0
    else desired_replicas o

abbrev blank_deployment : PodTemplate → Deployment
blank_deployment t = record {
  replicas = none;
  observed = pos 0;
  ready = pos 0;
  stalled = none;
  template = t;
}

-- The deployment after `CreateOrUpdate`; of its template only the containers are kept.
abbrev pub updated : WorkloadSpec → MetricsView → DeclaredOperation → Option Deployment → Deployment
updated s v o d = record (or_else d (blank_deployment o.template)) {
  replicas = some (wanted_replicas s v o (current_of d));
  template = o.template;
}

unfoldable pub put_deployment : WorkloadSpec → MetricsView → DeclaredOperation → K Deployment
unfolding call wanted_replicas
put_deployment s v o k =
    (call (λ k'. record k' {
      deployments = insert k'.deployments o.name (updated s v o (lookup k'.deployments o.name));
    })
        >>= λ u. return (updated s v o (lookup k.deployments o.name)))
      k

-- `operationReason`
abbrev first_failure : MetricsView → List ChannelSpec → Option Reason
first_failure v [] = none
first_failure v (c ∷ cs) =
    let rest = first_failure v cs in
    if failure_of v c.name == ""
    then rest
    else some (Reason.delivery_failure c.name (failure_of v c.name))

abbrev is_dependency : List Container → String → Bool
is_dependency cs name = any (λ c. c.always && c.probed && c.name == name) cs

abbrev pub text_or : Option String → String → String
text_or none text = text
text_or (some t) text = if t == "" then text else t

abbrev waiting_for : PodState → InitStatus → Reason
waiting_for p i =
    Reason.dependency_waiting p.name i.name (text_or i.delay "startup probe has not succeeded")

abbrev dependency_reason : PodState → InitStatus → Option (ℤ × String) → Reason
dependency_reason p i none = waiting_for p i
dependency_reason p i (some (code, why)) =
    if int_beq code (pos 0) then waiting_for p i else Reason.dependency_failed p.name i.name why

abbrev first_pending : List Container → PodState → List InitStatus → Option Reason
first_pending cs p [] = none
first_pending cs p (i ∷ is) =
    let rest = first_pending cs p is in
    if not (is_dependency cs i.name) || i.started then rest else some (dependency_reason p i i.exit)

abbrev first_of : Option Reason → Option Reason → Option Reason
first_of none r = r
first_of (some r) q = some r

abbrev pending_dependency : List Container → List PodState → Option Reason
pending_dependency cs [] = none
pending_dependency cs (p ∷ ps) =
    first_of (first_pending cs p p.init_statuses) (pending_dependency cs ps)

abbrev stalled_reason : Option (String × String) → Option Reason
stalled_reason none = none
stalled_reason (some (why, message)) = some (Reason.operation_failed why message)

abbrev readiness : Deployment → Reason
readiness d =
    if ltb_ℤ d.ready (or_else d.replicas (pos 0))
    then Reason.pods_not_ready d.ready (or_else d.replicas (pos 0))
    else Reason.processing

unfoldable pub operation_reason :
    WorkloadSpec → MetricsView → DeclaredOperation → Deployment → Option (List PodState) → Reason
operation_reason s v o d pods =
    or_else
      (first_of (first_failure v (inbound_channels s o.name)) (
        first_of (stalled_reason d.stalled)
          (pending_dependency d.template.init_containers (or_else pods []))))
      (readiness d)

-- `ensureVPA`
unfoldable pub ensure_vpa : DeclaredOperation → Option VerticalScalingMode → K (Unit {0})
unfolding call
ensure_vpa o none = return tt
ensure_vpa o (some VerticalScalingMode.unset) = return tt
ensure_vpa o (some VerticalScalingMode.off) = return tt
ensure_vpa o (some VerticalScalingMode.auto) = ensure >>= λ u k.
    if k.vpa_installed
    then call (λ k'. record k' { vpas = delete k'.vpas o.name }) k
    else (k, some tt)
ensure_vpa o (some VerticalScalingMode.initial) = ensure >>= λ u k.
    if k.vpa_installed
    then call (λ k'. record k' { vpas = insert k'.vpas o.name VerticalScalingMode.initial }) k
    else (k, some tt)

abbrev is_failure : Reason → Bool
is_failure (Reason.operation_failed why message) = true
is_failure _ = false

abbrev base_status : MetricsView → DeclaredOperation → OperationStatus
base_status v o = record {
  name = o.name;
  phase = OperationPhase.waiting;
  reason = Reason.input_not_ready;
  replicas = pos 0;
  ready = pos 0;
  runnable_tasks = runnable (report_of v o.name);
  holds_unconsumed = holds (report_of v o.name);
}

abbrev running_status : MetricsView → DeclaredOperation → Deployment → Reason → OperationStatus
running_status v o d r = record (base_status v o) {
  replicas = or_else d.replicas (pos 0);
  ready = d.ready;
  phase = if is_failure r then OperationPhase.failed else OperationPhase.running;
  reason = r;
}

-- The status once the deployment is written.
unfoldable pub deployed_status :
    MetricsView → DeclaredOperation → Deployment → Reason → OperationStatus
unfolding is_drained
deployed_status v o d r =
    if is_drained v o && int_beq (or_else d.replicas (pos 0)) (pos 0) && int_beq d.observed (pos 0)
    then record (running_status v o d r) {
      phase = OperationPhase.succeeded;
      reason = Reason.operation_drained;
    }
    else running_status v o d r

unfoldable pub deploy : WorkloadSpec → MetricsView → DeclaredOperation → K OperationStatus
unfolding put_deployment operation_reason deployed_status
deploy s v o = put_deployment s v o >>= λ d k.
    (k, some (deployed_status v o d (operation_reason s v o d (k.pods o.name))))

abbrev pub vpa_if_never : DeclaredOperation → K (Unit {0})
vpa_if_never o = if is_never o.completion then ensure_vpa o o.scaling.vertical else return tt

abbrev pub seal_if_drained : WorkloadSpec → MetricsView → DeclaredOperation → K (Unit {0})
seal_if_drained s v o =
    if is_drained v o
    then seal_outputs (λ name. not (is_sealed v name)) (outbound_channels s o.name)
    else return tt

unfoldable pub reconcile_deployment :
    WorkloadSpec → MetricsView → DeclaredOperation → K OperationStatus
unfolding is_drained deploy ensure_vpa
reconcile_deployment s v o =
    seal_if_drained s v o >>= λ u. deploy s v o >>= λ status. vpa_if_never o >>= λ u'. return status

unfoldable pub reconcile_operation :
    WorkloadSpec → MetricsView → DeclaredOperation → K OperationStatus
unfolding is_blocked reconcile_deployment
reconcile_operation s v o =
    if is_blocked s v o then return (base_status v o) else elim o.collective [
      | none ↦ reconcile_deployment s v o
      | some c ↦ reconcile_collective s o c
    ]
