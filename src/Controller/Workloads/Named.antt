-- ===== src/Controller/Workloads/Named.antt =====
-- `Reconcile` of pkg/controller/reconciler.go: the statuses of a pass are those of the operations, in
-- their order.
use stark8s.Prelude.{
  Bool, true, false, not, ◌&&◌, ◌||◌, Option, none, some, some-inj, List, [], ◌∷◌, any,
  if◌then◌else◌, ◌≡◌, refl, subst, Bool-cases, inl, inr, arith, leb, int_beq, or_else, pos, ℕ, suc,
  ◌==◌, string_eq,
}
use stark8s.Controller.Types.{
  WorkloadSpec, DeclaredOperation, CollectiveSpec, is_never, outbound_channels,
}
use stark8s.Controller.Cluster.{
  OperationPhase, Reason, OperationStatus, Job, Deployment, Cluster, K, ◌>>=◌, return, ensure, call,
}
use stark8s.Controller.Cluster.Kept.{went_on}
use stark8s.Controller.Collective.{
  last_job, start_attempt, attempt_limit, replace_failed, continue_job, reconcile_collective,
  seal_outputs, put_job,
}
use stark8s.Controller.Operations.{
  MetricsView, is_blocked, deployed_status, deploy, put_deployment, operation_reason,
  reconcile_deployment, reconcile_operation, seal_if_drained, vpa_if_never, is_drained,
}
use stark8s.Controller.Workloads.{is_streaming, all_done, reconcile_operations}

none_ne_some : {A : Type 0} {a : A} → none ≡ some a → ⊥
none_ne_some p = cc

-- What holds of the result, if there is one.
pub record Yields {A : Type 0} (P : A → Type 0) (m : K A) : Type 0 where
  pub yields : (k : Cluster) (a : A) → (m k).1 ≡ some a → P a

module _ {A : Type 0} {P : A → Type 0} where
  return-Yields : (a : A) → P a → Yields P (return a)
  return-Yields a p = record { yields = λ k b e. subst P (some-inj e) p }

  >>=-Yields :
      {B : Type 0} {Q : B → Type 0} {m : K B} {f : B → K A}
      → Yields Q m
      → ((b : B) → Q b → Yields P (f b))
      → Yields P (m >>= f)
  >>=-Yields {m = m} {f = f} h g = record {
    yields =
        λ k a e. let o = went_on (m k) f a e in (g o.0 (h.yields k o.0 o.1)).yields (m k).0 a o.2;
  }

  if-Yields : (b : Bool) {m n : K A} → Yields P m → Yields P n → Yields P (if b then m else n)
  if-Yields true h g = h
  if-Yields false h g = g

any-Yields : {A : Type 0} (m : K A) → Yields (λ a. Unit {0}) m
any-Yields m = record { yields = λ k a e. tt }

-- The status of an operation.
abbrev IsOf : DeclaredOperation → OperationStatus → Type 0
IsOf o st = st.name ≡ o.name

start_attempt-IsOf :
    (o : DeclaredOperation) (c : CollectiveSpec) (n : ℕ) → Yields (IsOf o) (start_attempt o c n)
unfolding start_attempt
start_attempt-IsOf o c n = >>=-Yields (any-Yields ensure) (λ u q.
    >>=-Yields (any-Yields (call (λ k. record k { jobs = put_job o.name n c.size k.jobs })))
      (λ u' q'. return-Yields _ refl))

replace_failed-IsOf :
    (o : DeclaredOperation) (c : CollectiveSpec) (j : Job) → Yields (IsOf o) (replace_failed o c j)
unfolding replace_failed
replace_failed-IsOf o c j = if-Yields (leb (attempt_limit c) j.attempt) (return-Yields _ refl) (
    if-Yields (c.checkpoint == "") (record { yields = λ k a e. absurd (none_ne_some e) })
      (start_attempt-IsOf o c (suc j.attempt)))

continue_job-IsOf :
    (s : WorkloadSpec) (o : DeclaredOperation) (c : CollectiveSpec) (j : Option Job)
    → Yields (IsOf o) (continue_job s o c j)
unfolding continue_job
continue_job-IsOf s o c none = start_attempt-IsOf o c 1
continue_job-IsOf s o c (some j) =
    if-Yields j.complete
      (>>=-Yields (any-Yields (seal_outputs (λ name. true) (outbound_channels s o.name)))
        (λ u q. return-Yields _ refl))
      (if-Yields (not j.failed) (return-Yields _ refl) (replace_failed-IsOf o c j))

reconcile_collective-IsOf :
    (s : WorkloadSpec) (o : DeclaredOperation) (c : CollectiveSpec)
    → Yields (IsOf o) (reconcile_collective s o c)
unfolding reconcile_collective
reconcile_collective-IsOf s o c = >>=-Yields (any-Yields ensure) (λ u q. record {
  yields = λ k. (continue_job-IsOf s o c (last_job o.name none k.jobs)).yields k;
})

deployed_status-IsOf :
    (v : MetricsView) (o : DeclaredOperation) (d : Deployment) (r : Reason)
    → IsOf o (deployed_status v o d r)
unfolding deployed_status
deployed_status-IsOf v o d r =
    elim (Bool-cases (
      is_drained v o
      && int_beq (or_else d.replicas (pos 0)) (pos 0)
      && int_beq d.observed (pos 0))) [ inl t ↦ rw t refl | inr t ↦ rw t refl ]

deploy-IsOf :
    (s : WorkloadSpec) (v : MetricsView) (o : DeclaredOperation) → Yields (IsOf o) (deploy s v o)
unfolding deploy
deploy-IsOf s v o = >>=-Yields (any-Yields (put_deployment s v o)) (λ d q. record {
  yields = λ k st e.
      subst (IsOf o) (some-inj e)
        (deployed_status-IsOf v o d (operation_reason s v o d (k.pods o.name)));
})

reconcile_operation-IsOf :
    (s : WorkloadSpec) (v : MetricsView) (o : DeclaredOperation)
    → Yields (IsOf o) (reconcile_operation s v o)
unfolding reconcile_operation reconcile_deployment
reconcile_operation-IsOf s v o =
    if-Yields (is_blocked s v o) (return-Yields _ refl) (kind o.collective)
  where
    kind :
        (c : Option CollectiveSpec)
        → Yields
            (IsOf o)
            (elim c [ none ↦ reconcile_deployment s v o | some c' ↦ reconcile_collective s o c' ])
    kind none = >>=-Yields (any-Yields (seal_if_drained s v o)) (λ u q.
        >>=-Yields (deploy-IsOf s v o)
          (λ st named. >>=-Yields (any-Yields (vpa_if_never o)) (λ u' q'. return-Yields st named)))
    kind (some c) = reconcile_collective-IsOf s o c

-- One status for each operation, in their order.
abbrev pub AreOf : List DeclaredOperation → List OperationStatus → Type 0
AreOf [] [] = Unit
AreOf [] (st ∷ sts) = ⊥
AreOf (o ∷ os) [] = ⊥
AreOf (o ∷ os) (st ∷ sts) = IsOf o st × AreOf os sts

pub reconcile_operations-AreOf :
    (s : WorkloadSpec) (v : MetricsView) (os : List DeclaredOperation)
    → Yields (AreOf os) (reconcile_operations s v os)
unfolding reconcile_operations
reconcile_operations-AreOf s v [] = return-Yields [] tt
reconcile_operations-AreOf s v (o ∷ os) = >>=-Yields (reconcile_operation-IsOf s v o) (λ st named.
    >>=-Yields (reconcile_operations-AreOf s v os)
      (λ sts all_named. return-Yields (st ∷ sts) (named, all_named)))

-- One status for each operation, in their order, and each of them has succeeded.
abbrev pub AllSucceeded : List DeclaredOperation → List OperationStatus → Type 0
AllSucceeded [] [] = Unit
AllSucceeded [] (st ∷ sts) = ⊥
AllSucceeded (o ∷ os) [] = ⊥
AllSucceeded (o ∷ os) (st ∷ sts) =
    (st.name ≡ o.name) × (st.phase ≡ OperationPhase.succeeded) × AllSucceeded os sts

succeeded_of :
    (never : Bool) (p : OperationPhase)
    → never ≡ false
    → (never || elim p [ OperationPhase.succeeded ↦ true | _ ↦ false ]) ≡ true
    → p ≡ OperationPhase.succeeded
succeeded_of never OperationPhase.succeeded n h = refl
succeeded_of never OperationPhase.waiting n h = absurd (ground (arith, n, h))
succeeded_of never OperationPhase.running n h = absurd (ground (arith, n, h))
succeeded_of never OperationPhase.failed n h = absurd (ground (arith, n, h))

pub all_done-AllSucceeded :
    (os : List DeclaredOperation) (sts : List OperationStatus)
    → AreOf os sts
    → any is_streaming os ≡ false
    → all_done os sts ≡ true
    → AllSucceeded os sts
all_done-AllSucceeded [] [] named ends h = tt
all_done-AllSucceeded [] (st ∷ sts) named ends h = named
all_done-AllSucceeded (o ∷ os) [] named ends h = named
all_done-AllSucceeded (o ∷ os) (st ∷ sts) named ends h = (
  named.0,
  succeeded_of (is_never o.completion) st.phase (ground arith) (ground arith),
  all_done-AllSucceeded os sts named.1 (ground arith) (ground arith),
)
