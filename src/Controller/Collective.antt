-- ===== src/Controller/Collective.antt =====
-- pkg/controller/collective.go: the attempts of a collective operation.
pub mod Attempts
use stark8s.Prelude.{
  ℕ, suc, ◌+◌, ℤ, pos, String, Bool, true, false, not, ◌&&◌, Option, none, some, List, [], ◌∷◌,
  ◌++◌, map, leb, nat_beq, pos_part, ltb_ℤ, or_else, is_some, ◌==◌, if◌then◌else◌, string_eq,
}
use stark8s.Graph.{ChannelSpec}
use stark8s.Controller.Types.{WorkloadSpec, DeclaredOperation, CollectiveSpec, outbound_channels}
use stark8s.Controller.Cluster.{
  OperationPhase, Reason, OperationStatus, Job, Cluster, K, ◌>>=◌, return, fail, call, ensure,
}

unfoldable pub post_seal : String → K (Unit {0})
unfolding call
post_seal name = call (λ k. record k { sealed = k.sealed ++ name ∷ [] })

-- The channels of an operation that are no feedback are sealed, and those that pass the test.
unfoldable pub seal_outputs : (String → Bool) → List ChannelSpec → K (Unit {0})
unfolding post_seal
seal_outputs f [] = return tt
seal_outputs f (c ∷ cs) =
    if not (is_some c.feedback) && f c.name
    then (post_seal c.name >>= λ u. seal_outputs f cs)
    else seal_outputs f cs

-- The last of the jobs of an operation that the workload owns, by their attempts.
abbrev pub is_job_of : String → Job → Bool
is_job_of name j = j.operation == name && j.owned

abbrev later_job : Option Job → Job → Option Job
later_job none j = some j
later_job (some i) j = if leb i.attempt j.attempt then some j else some i

unfoldable pub last_job : String → Option Job → List Job → Option Job
last_job name best [] = best
last_job name best (j ∷ js) = last_job name (if is_job_of name j then later_job best j else best) js

abbrev pub waiting_status : String → OperationStatus
waiting_status name = record {
  name = name;
  phase = OperationPhase.waiting;
  reason = Reason.no_reason;
  replicas = pos 0;
  ready = pos 0;
  runnable_tasks = 0;
  holds_unconsumed = false;
}

-- The job of an attempt: a new one, or the size of the one that is there. One that belongs to another
-- object makes the call fail.
abbrev pub same_job : String → ℕ → Job → Bool
same_job name attempt j = j.operation == name && nat_beq j.attempt attempt

unfoldable pub put_job : String → ℕ → ℤ → List Job → List Job
put_job name attempt size [] =
    (record {
      operation = name;
      attempt = attempt;
      owned = true;
      complete = false;
      failed = false;
      succeeded = pos 0;
      ready = none;
      size = size;
    })
    ∷ []
put_job name attempt size (j ∷ js) =
    let rest = put_job name attempt size js in
    if same_job name attempt j then (record j { owned = true; size = size }) ∷ js else j ∷ rest

unfoldable pub start_attempt : DeclaredOperation → CollectiveSpec → ℕ → K OperationStatus
unfolding call put_job
start_attempt o c attempt = ensure >>= λ u.
    call (λ k. record k { jobs = put_job o.name attempt c.size k.jobs }) >>= λ u'.
    return (record (waiting_status o.name) { phase = OperationPhase.running; replicas = c.size })

abbrev pub attempt_limit : CollectiveSpec → ℕ
attempt_limit c = if ltb_ℤ c.max_attempts (pos 1) then 1 else pos_part c.max_attempts

unfoldable pub replace_failed : DeclaredOperation → CollectiveSpec → Job → K OperationStatus
unfolding start_attempt
replace_failed o c j =
    if leb (attempt_limit c) j.attempt
    then return (record (waiting_status o.name) { phase = OperationPhase.failed })
    else if c.checkpoint == ""
    then fail
    else start_attempt o c (suc j.attempt)

unfoldable pub continue_job :
    WorkloadSpec → DeclaredOperation → CollectiveSpec → Option Job → K OperationStatus
unfolding seal_outputs replace_failed start_attempt
continue_job s o c none = start_attempt o c 1
continue_job s o c (some j) =
    if j.complete
    then (seal_outputs (λ name. true) (outbound_channels s o.name) >>= λ u.
        return (record (waiting_status o.name) {
          phase = OperationPhase.succeeded;
          ready = j.succeeded;
          replicas = c.size;
        }))
    else if not j.failed
    then return (record (waiting_status o.name) {
      phase = OperationPhase.running;
      ready = or_else j.ready (pos 0);
      replicas = c.size;
    })
    else replace_failed o c j

unfoldable pub reconcile_collective :
    WorkloadSpec → DeclaredOperation → CollectiveSpec → K OperationStatus
unfolding call last_job continue_job
reconcile_collective s o c = ensure >>= λ u k. continue_job s o c (last_job o.name none k.jobs) k
