-- ===== src/Controller/Operations/Kept.antt =====
-- pkg/controller: the parts of the cluster that an operation's pass leaves as they are.
use stark8s.Prelude.{
  ℕ, Bool, true, false, not, ◌&&◌, Option, none, some, List, [], ◌∷◌, ◌++◌, Map, String, insert,
  delete, lookup, is_some, if◌then◌else◌, ◌≡◌, refl, ◌==◌, leb, suc, string_eq,
}
use stark8s.Graph.{ChannelSpec}
use stark8s.Controller.Types.{
  WorkloadSpec, DeclaredOperation, CollectiveSpec, VerticalScalingMode, is_never, outbound_channels,
}
use stark8s.Controller.Cluster.{Cluster, Deployment, Job, call}
use stark8s.Controller.Cluster.Kept.{
  IsPart, Keeps, >>=-Keeps, return-Keeps, call-Keeps, if-Keeps, ensure-Keeps,
}
use stark8s.Controller.Collective.{
  post_seal, seal_outputs, put_job, start_attempt, replace_failed, continue_job,
  reconcile_collective, last_job, attempt_limit,
}
use stark8s.Controller.Operations.{
  MetricsView, updated, ensure_vpa, put_deployment, deploy, reconcile_deployment,
  reconcile_operation, is_blocked, is_drained, is_sealed, seal_if_drained, vpa_if_never,
}

module _ {X : Type 0} {part : Cluster → X} (is_part : IsPart part) where
  pub seal_outputs-Keeps :
      ((k : Cluster) (names : List String) → part (record k { sealed = names }) ≡ part k)
      → (f : String → Bool) (cs : List ChannelSpec) → Keeps part (seal_outputs f cs)
  unfolding seal_outputs post_seal
  seal_outputs-Keeps h f [] = return-Keeps is_part tt
  seal_outputs-Keeps h f (c ∷ cs) =
      if-Keeps is_part (not (is_some c.feedback) && f c.name)
        (>>=-Keeps is_part
          (call-Keeps is_part (λ k. record k { sealed = k.sealed ++ c.name ∷ [] })
            (λ k. h k (k.sealed ++ c.name ∷ [])))
          (λ u. seal_outputs-Keeps h f cs))
        (seal_outputs-Keeps h f cs)

  vpa-Keeps :
      ((k : Cluster) (vpas : Map String VerticalScalingMode)
        → part (record k { vpas = vpas }) ≡ part k)
      → (f : Map String VerticalScalingMode → Map String VerticalScalingMode)
      → Keeps part (λ k.
        if k.vpa_installed then call (λ k'. record k' { vpas = f k'.vpas }) k else (k, some tt))
  vpa-Keeps h f = record { keeps = λ k. if_part k k.vpa_installed }
    where
      if_part :
          (k : Cluster) (b : Bool)
          → part (if b then call (λ k'. record k' { vpas = f k'.vpas }) k else (k, some tt)).0
            ≡ part k
      if_part k true =
          (call-Keeps is_part (λ k'. record k' { vpas = f k'.vpas }) (λ k'. h k' (f k'.vpas))).keeps
            k
      if_part k false = refl

  pub ensure_vpa-Keeps :
      ((k : Cluster) (vpas : Map String VerticalScalingMode)
        → part (record k { vpas = vpas }) ≡ part k)
      → (o : DeclaredOperation) (mode : Option VerticalScalingMode) → Keeps part (ensure_vpa o mode)
  unfolding ensure_vpa
  ensure_vpa-Keeps h o none = return-Keeps is_part tt
  ensure_vpa-Keeps h o (some VerticalScalingMode.unset) = return-Keeps is_part tt
  ensure_vpa-Keeps h o (some VerticalScalingMode.off) = return-Keeps is_part tt
  ensure_vpa-Keeps h o (some VerticalScalingMode.auto) =
      >>=-Keeps is_part (ensure-Keeps is_part) (λ u. vpa-Keeps h (λ m. delete m o.name))
  ensure_vpa-Keeps h o (some VerticalScalingMode.initial) =
      >>=-Keeps is_part (ensure-Keeps is_part)
        (λ u. vpa-Keeps h (λ m. insert m o.name VerticalScalingMode.initial))

  start_attempt-Keeps :
      ((k : Cluster) (jobs : List Job) → part (record k { jobs = jobs }) ≡ part k)
      → (o : DeclaredOperation) (c : CollectiveSpec) (attempt : ℕ)
      → Keeps part (start_attempt o c attempt)
  unfolding start_attempt
  start_attempt-Keeps h o c attempt = >>=-Keeps is_part (ensure-Keeps is_part) (λ u.
      >>=-Keeps is_part
        (call-Keeps is_part (λ k. record k { jobs = put_job o.name attempt c.size k.jobs })
          (λ k. h k (put_job o.name attempt c.size k.jobs)))
        (λ u'. return-Keeps is_part _))

  replace_failed-Keeps :
      ((k : Cluster) (jobs : List Job) → part (record k { jobs = jobs }) ≡ part k)
      → (o : DeclaredOperation) (c : CollectiveSpec) (j : Job) → Keeps part (replace_failed o c j)
  unfolding replace_failed
  replace_failed-Keeps h o c j =
      if-Keeps is_part (leb (attempt_limit c) j.attempt) (return-Keeps is_part _) (
        if-Keeps is_part (c.checkpoint == "") (record { keeps = λ k. refl })
          (start_attempt-Keeps h o c (suc j.attempt)))

  continue_job-Keeps :
      ((k : Cluster) (names : List String) → part (record k { sealed = names }) ≡ part k)
      → ((k : Cluster) (jobs : List Job) → part (record k { jobs = jobs }) ≡ part k)
      → (s : WorkloadSpec) (o : DeclaredOperation) (c : CollectiveSpec) (j : Option Job)
      → Keeps part (continue_job s o c j)
  unfolding continue_job
  continue_job-Keeps g h s o c none = start_attempt-Keeps h o c 1
  continue_job-Keeps g h s o c (some j) =
      if-Keeps is_part j.complete
        (>>=-Keeps is_part (seal_outputs-Keeps g (λ name. true) (outbound_channels s o.name))
          (λ u. return-Keeps is_part _))
        (if-Keeps is_part (not j.failed) (return-Keeps is_part _) (replace_failed-Keeps h o c j))

  pub reconcile_collective-Keeps :
      ((k : Cluster) (names : List String) → part (record k { sealed = names }) ≡ part k)
      → ((k : Cluster) (jobs : List Job) → part (record k { jobs = jobs }) ≡ part k)
      → (s : WorkloadSpec) (o : DeclaredOperation) (c : CollectiveSpec)
      → Keeps part (reconcile_collective s o c)
  unfolding reconcile_collective
  reconcile_collective-Keeps g h s o c = >>=-Keeps is_part (ensure-Keeps is_part) (λ u. record {
    keeps = λ k. (continue_job-Keeps g h s o c (last_job o.name none k.jobs)).keeps k;
  })

  pub seal_if_drained-Keeps :
      ((k : Cluster) (names : List String) → part (record k { sealed = names }) ≡ part k)
      → (s : WorkloadSpec) (v : MetricsView) (o : DeclaredOperation)
      → Keeps part (seal_if_drained s v o)
  seal_if_drained-Keeps h s v o =
      if-Keeps is_part (is_drained v o)
        (seal_outputs-Keeps h (λ name. not (is_sealed v name)) (outbound_channels s o.name))
        (return-Keeps is_part tt)

  pub vpa_if_never-Keeps :
      ((k : Cluster) (vpas : Map String VerticalScalingMode)
        → part (record k { vpas = vpas }) ≡ part k)
      → (o : DeclaredOperation) → Keeps part (vpa_if_never o)
  vpa_if_never-Keeps h o =
      if-Keeps is_part (is_never o.completion) (ensure_vpa-Keeps h o o.scaling.vertical)
        (return-Keeps is_part tt)

  deploy-Keeps :
      ((k : Cluster) (ds : Map String Deployment) → part (record k { deployments = ds }) ≡ part k)
      → (s : WorkloadSpec) (v : MetricsView) (o : DeclaredOperation) → Keeps part (deploy s v o)
  unfolding deploy put_deployment
  deploy-Keeps h s v o =
      >>=-Keeps is_part
        (record {
          keeps = λ k.
              (>>=-Keeps is_part
                  (call-Keeps is_part
                    (λ k'. record k' {
                      deployments =
                          insert k'.deployments o.name
                            (updated s v o (lookup k'.deployments o.name));
                    })
                    (λ k'. h k' (
                      insert k'.deployments o.name (updated s v o (lookup k'.deployments o.name)))))
                  (λ u. return-Keeps is_part (updated s v o (lookup k.deployments o.name)))).keeps
                k;
        })
        (λ d. record { keeps = λ k. refl })

  -- A part that is none of what a pass over an operation writes.
  pub record IsApart : Type 0 where
    pub from_deployments :
        (k : Cluster) (ds : Map String Deployment) → part (record k { deployments = ds }) ≡ part k
    pub from_jobs : (k : Cluster) (jobs : List Job) → part (record k { jobs = jobs }) ≡ part k
    pub from_sealed :
        (k : Cluster) (names : List String) → part (record k { sealed = names }) ≡ part k
    pub from_vpas :
        (k : Cluster) (vpas : Map String VerticalScalingMode)
        → part (record k { vpas = vpas }) ≡ part k

  reconcile_deployment-Keeps :
      IsApart
      → (s : WorkloadSpec) (v : MetricsView) (o : DeclaredOperation)
      → Keeps part (reconcile_deployment s v o)
  unfolding reconcile_deployment
  reconcile_deployment-Keeps h s v o =
      >>=-Keeps is_part (seal_if_drained-Keeps h.from_sealed s v o) (λ u.
        >>=-Keeps is_part (deploy-Keeps h.from_deployments s v o) (λ st.
          >>=-Keeps is_part (vpa_if_never-Keeps h.from_vpas o) (λ u'. return-Keeps is_part st)))

  pub reconcile_operation-Keeps :
      IsApart
      → (s : WorkloadSpec) (v : MetricsView) (o : DeclaredOperation)
      → Keeps part (reconcile_operation s v o)
  unfolding reconcile_operation
  reconcile_operation-Keeps h s v o =
      if-Keeps is_part (is_blocked s v o) (return-Keeps is_part _) (by_collective o.collective)
    where
      by_collective :
          (c : Option CollectiveSpec)
          → Keeps part
              (elim c [ none ↦ reconcile_deployment s v o | some c' ↦ reconcile_collective s o c' ])
      by_collective none = reconcile_deployment-Keeps h s v o
      by_collective (some c) = reconcile_collective-Keeps h.from_sealed h.from_jobs s o c
