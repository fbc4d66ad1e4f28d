-- ===== src/Controller/Operations/Replicas.antt =====
-- pkg/controller/reconciler.go: how many replicas an operation gets.
use stark8s.Prelude.{
  some-inj, ℤ, pos, ◌≤ℤ◌, Bool, true, false, ◌||◌, none, some, lookup, insert, lookup-insert_self,
  ltb_ℤ, ◌≡◌, ◌⊎◌, inl, inr, refl, sym, ap, ◌∙◌, Bool-cases, arith, string_eq,
}
use stark8s.Controller.Types.{WorkloadSpec, DeclaredOperation}
use stark8s.Controller.Cluster.{Cluster, Deployment, OperationStatus, ◌>>=◌, call, return}
use stark8s.Controller.Cluster.Kept.{IsPart, went_on, call_done}
use stark8s.Controller.Operations.{
  MetricsView, desired_replicas, is_blocked, is_drained, holds, report_of, holds_retained,
  wanted_replicas, updated, current_of, put_deployment, deploy, seal_if_drained, vpa_if_never,
  reconcile_deployment, reconcile_operation, operation_reason, deployed_status,
}
use stark8s.Controller.Operations.Kept.{seal_if_drained-Keeps, vpa_if_never-Keeps}

deployments-IsPart : IsPart (λ k. k.deployments)
deployments-IsPart = record { ignores_answers = λ k bs. refl; ignores_reports = λ k rs. refl }

-- Why an operation may have no pods.
abbrev pub MayStop : WorkloadSpec → MetricsView → DeclaredOperation → Type 0
MayStop s v o =
    (is_drained v o ≡ true) × (holds (report_of v o.name) ≡ false) × (holds_retained s o ≡ false)

at_least_one : (n : ℤ) → ltb_ℤ n (pos 1) ≡ false → pos 1 ≤ℤ n
at_least_one n h = ground arith

desired_one : (o : DeclaredOperation) → pos 1 ≤ℤ desired_replicas o
unfolding desired_replicas
desired_one o = elim (Bool-cases (ltb_ℤ o.scaling.horizontal.max (pos 1))) [
  | inl t ↦ rw t (omega arith)
  | inr t ↦ rw t (at_least_one o.scaling.horizontal.max t)
]

neither : {a b : Bool} → (a || b) ≡ false → (a ≡ false) × (b ≡ false)
neither h = ground arith

wanted_replicas-cases :
    (s : WorkloadSpec) (v : MetricsView) (o : DeclaredOperation) (n : ℤ)
    → ((wanted_replicas s v o n ≡ pos 0) × MayStop s v o) ⊎ (pos 1 ≤ℤ wanted_replicas s v o n)
unfolding wanted_replicas
wanted_replicas-cases s v o n = elim (Bool-cases (is_drained v o)) [
  | inl t ↦ elim (Bool-cases (holds (report_of v o.name) || holds_retained s o)) [
    | inl u ↦ elim (Bool-cases (ltb_ℤ n (pos 1))) [
      | inl l ↦ rw (t, u, l) (inr (omega arith))
      | inr l ↦ rw (t, u, l) (inr (at_least_one n l))
    ]
    | inr u ↦ let n = neither u in rw (t, u) (inl (refl, (refl, n.0, n.1)))
  ]
  | inr t ↦ rw t (inr (desired_one o))
]

module _ (s : WorkloadSpec) (v : MetricsView) (o : DeclaredOperation) where
  write_deployment : Cluster → Cluster
  write_deployment k = record k {
    deployments = insert k.deployments o.name (updated s v o (lookup k.deployments o.name));
  }

  put_deployment-updated :
      (k : Cluster) (d : Deployment)
      → (put_deployment s v o k).1 ≡ some d
      → (lookup (put_deployment s v o k).0.deployments o.name ≡ some d)
        × (d ≡ updated s v o (lookup k.deployments o.name))
  unfolding put_deployment write_deployment
  put_deployment-updated k d e =
      let new = updated s v o (lookup k.deployments o.name) in
      let w = went_on (call write_deployment k) (λ u. return new) d e in
      let same : new ≡ d = some-inj w.2 in
      (
        ap (λ q. lookup q.deployments o.name) (w.3 ∙ call_done write_deployment k w.0 w.1)
            ∙ lookup-insert_self k.deployments o.name new
            ∙ ap some same,
        sym same,
      )

  deploy-updated :
      (k : Cluster) (st : OperationStatus)
      → (deploy s v o k).1 ≡ some st
      → lookup (deploy s v o k).0.deployments o.name
        ≡ some (updated s v o (lookup k.deployments o.name))
  unfolding deploy
  deploy-updated k st e =
      let w =
        went_on (put_deployment s v o k)
          (λ d k'. (k', some (deployed_status v o d (operation_reason s v o d (k'.pods o.name)))))
          st e in
      let p = put_deployment-updated k w.0 w.1 in
      ap (λ q. lookup q.deployments o.name) w.3 ∙ p.0 ∙ ap some p.1

  reconcile_deployment-updated :
      (k : Cluster) (st : OperationStatus)
      → (reconcile_deployment s v o k).1 ≡ some st
      → lookup (reconcile_deployment s v o k).0.deployments o.name
        ≡ some (updated s v o (lookup k.deployments o.name))
  unfolding reconcile_deployment
  reconcile_deployment-updated k st e =
      let k1 = (seal_if_drained s v o k).0 in
      let k2 = (deploy s v o k1).0 in
      let end = λ (status : OperationStatus). vpa_if_never o >>= λ u. return status in
      let a = went_on (seal_if_drained s v o k) (λ u. deploy s v o >>= end) st e in
      let b = went_on (deploy s v o k1) end st a.2 in
      let c = went_on (vpa_if_never o k2) (λ u. return b.0) st b.2 in
      ap (λ q. lookup q.deployments o.name) (a.3 ∙ b.3 ∙ c.3)
      ∙ ap (λ q. lookup q o.name)
          ((vpa_if_never-Keeps deployments-IsPart (λ k' m. refl) o).keeps k2)
      ∙ deploy-updated k1 b.0 b.1
      ∙ ap (λ q. some (updated s v o (lookup q o.name)))
          ((seal_if_drained-Keeps deployments-IsPart (λ k' m. refl) s v o).keeps k)

  -- A pass over an operation that is no collective and not held back by the stage barrier, if it
  -- returns a status, has set the replicas of its deployment: to none only when the coordinator reports
  -- the operation complete, it is one that ends, no consumer still needs its segments and it has no
  -- retained output, and to one or more otherwise.
  pub reconcile_operation-replicas :
      (k : Cluster) (st : OperationStatus)
      → o.collective ≡ none
      → is_blocked s v o ≡ false
      → (reconcile_operation s v o k).1 ≡ some st
      → (d : Deployment) × (n : ℤ) × (lookup (reconcile_operation s v o k).0.deployments o.name
          ≡ some d)
        × (d.replicas ≡ some n)
        × (((n ≡ pos 0) × MayStop s v o) ⊎ (pos 1 ≤ℤ n))
  unfolding reconcile_operation
  reconcile_operation-replicas k st single free e =
      let was = lookup k.deployments o.name in
      let n = wanted_replicas s v o (current_of was) in
      (
        updated s v o was,
        n,
        rw (free, single) (reconcile_deployment-updated k st (rw (free, single) at e)),
        refl,
        wanted_replicas-cases s v o (current_of was),
      )
