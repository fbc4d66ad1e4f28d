-- ===== src/Controller/Cluster.antt =====
-- pkg/controller: what the reconciler reads and writes of Kubernetes and of the coordinator, and the
-- statuses of api/v1alpha1/types.go.
pub mod Kept
use stark8s.Prelude.{
  ℕ, ℤ, pos, String, Bool, true, false, Option, none, some, List, [], ◌∷◌, Map, if◌then◌else◌,
}
use stark8s.Coordinator.Api.{Metrics, ChannelMetrics}
use stark8s.Controller.Types.{PodTemplate, VerticalScalingMode}
use stark8s.Controller.Validate.{Invalid}

pub data OperationPhase : Type 0 where
  waiting running succeeded failed : OperationPhase

-- A reason with the message that goes with it; `no_reason` is the empty text.
pub data Reason : Type 0 where
  no_reason input_not_ready processing operation_drained : Reason
  delivery_failure : String → String → Reason
  operation_failed : String → String → Reason
  dependency_failed dependency_waiting : String → String → String → Reason
  pods_not_ready : ℤ → ℤ → Reason
  unavailable_data : String → ℕ → Reason

pub record OperationStatus : Type 0 where
  pub name : String
  pub phase : OperationPhase
  pub reason : Reason
  pub replicas : ℤ
  pub ready : ℤ
  pub runnable_tasks : ℕ
  pub holds_unconsumed : Bool

pub data WorkloadPhase : Type 0 where
  unset pending running succeeded failed : WorkloadPhase

pub data WorkloadReason : Type 0 where
  no_reason invalid_workload coordinator_unavailable required_records_lost : WorkloadReason
  operations_drained operation_failed scaling_disabled operations_running : WorkloadReason

pub data Message : Type 0 where
  empty waiting_for_coordinator operations_failed all_drained scaling_is_disabled : Message
  invalid : Invalid → Message
  records_lost : List (String × ℕ) → Message

-- The statuses of channels are their metrics.
pub record WorkloadStatus : Type 0 where
  pub phase : WorkloadPhase
  pub reason : WorkloadReason
  pub message : Message
  pub operations : List OperationStatus
  pub channels : List ChannelMetrics

-- A container that starts before the others; `exit` is its exit code with a reason if it has ended,
-- and `delay` the reason that it waits.
pub record InitStatus : Type 0 where
  pub name : String
  pub started : Bool
  pub exit : Option (ℤ × String)
  pub delay : Option String

pub record PodState : Type 0 where
  pub name : String
  pub init_statuses : List InitStatus

-- `observed` is the number of replicas that the deployment still has, `stalled` the reason and the
-- message of a condition that it makes no progress.
pub record Deployment : Type 0 where
  pub replicas : Option ℤ
  pub observed : ℤ
  pub ready : ℤ
  pub stalled : Option (String × String)
  pub template : PodTemplate

-- The job of one attempt of a collective operation.
pub record Job : Type 0 where
  pub operation : String
  pub attempt : ℕ
  pub owned : Bool
  pub complete : Bool
  pub failed : Bool
  pub succeeded : ℤ
  pub ready : Option ℤ
  pub size : ℤ

-- The objects of one workload by the name of the operation, the channels that were sealed, and the
-- stored status. `answers` says which calls of the API to come succeed, and `reports` what the
-- coordinator will report; after the last, calls succeed and there is no report.
pub record Cluster : Type 0 where
  pub deployments : Map String Deployment
  pub jobs : List Job
  pub pods : String → Option (List PodState)
  pub vpas : Map String VerticalScalingMode
  pub vpa_installed : Bool
  pub sealed : List String
  pub status : WorkloadStatus
  pub answers : List Bool
  pub reports : List (Option Metrics)

-- `none` is an error: what was done before it stays done.
abbrev pub K : Type 0 → Type 0
K A = Cluster → Cluster × Option A

abbrev pub and_then : {A B : Type 0} → Cluster × Option A → (A → K B) → Cluster × Option B
and_then (k, some a) f = f a k
and_then (k, none) f = (k, none)

infixl 5 ◌>>=◌
abbrev pub ◌>>=◌ : {A B : Type 0} → K A → (A → K B) → K B
◌>>=◌ m f k = and_then (m k) f

abbrev pub return : {A : Type 0} → A → K A
return a k = (k, some a)

abbrev pub fail : {A : Type 0} → K A
fail k = (k, none)

abbrev pub next_answer : List Bool → Bool
next_answer [] = true
next_answer (a ∷ answers) = a

abbrev pub later : {A : Type 0} → List A → List A
later [] = []
later (a ∷ answers) = answers

-- One call of the API, which fails or has its effect.
unfoldable pub call : (Cluster → Cluster) → K (Unit {0})
call f k =
    if next_answer k.answers
    then (f (record k { answers = later k.answers }), some tt)
    else (record k { answers = later k.answers }, none)

-- A call whose object the model leaves out.
abbrev pub ensure : K (Unit {0})
ensure = call (λ k. k)

abbrev next_report : List (Option Metrics) → Option Metrics
next_report [] = none
next_report (r ∷ reports) = r

-- `metrics` of the reconciler; `none` is an error of the call.
unfoldable pub fetch_metrics : K (Option Metrics)
fetch_metrics k = (record k { reports = later k.reports }, some (next_report k.reports))
