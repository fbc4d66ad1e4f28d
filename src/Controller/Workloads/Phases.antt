-- ===== src/Controller/Workloads/Phases.antt =====
-- pkg/controller/reconciler.go: when a workload succeeds.
use stark8s.Prelude.{
  Bool, true, false, not, ◌&&◌, Option, none, some, List, [], ◌∷◌, any, if◌then◌else◌, ◌≡◌, ◌≢◌,
  inl, inr, refl, sym, ap, ◌∙◌, Bool-cases, arith,
}
use stark8s.Coordinator.Api.{ChannelMetrics, Metrics}
use stark8s.Controller.Types.{WorkloadSpec, DeclaredOperation, is_auto}
use stark8s.Controller.Validate.{Invalid}
use stark8s.Controller.Cycles.{validate}
use stark8s.Controller.Cluster.{
  OperationStatus, WorkloadPhase, WorkloadReason, Message, Cluster, return, ensure,
}
use stark8s.Controller.Cluster.Kept.{
  Keeps, >>=-Keeps, return-Keeps, if-Keeps, ensure-Keeps, fetch_metrics-Keeps,
}
use stark8s.Controller.Operations.{MetricsView, view_of}
use stark8s.Controller.Operations.Kept.{ensure_vpa-Keeps, reconcile_operation-Keeps}
use stark8s.Controller.Workloads.{
  Requeue, is_terminal, is_streaming, has_lost, lost_records, lost_status, fail_lost,
  ensure_scalers, reconcile_operations, has_failed, all_done, workload_phase, finish, refreshed,
  drive, observe, after_push, prepare, reconcile_valid, reconcile,
}
use stark8s.Controller.Workloads.Named.{
  AreOf, AllSucceeded, reconcile_operations-AreOf, all_done-AllSucceeded,
}
use stark8s.Controller.Workloads.Traced.{
  >>=-Leads-Yields, >>=-Leads, status-IsPart, status-IsApart, Leads, Keeps-Leads, and_then-Leads,
  update_status-Leads, set_phase-Leads, Ended,
}

reconcile_operations-Keeps :
    (s : WorkloadSpec) (v : MetricsView) (os : List DeclaredOperation)
    → Keeps (λ k. k.status) (reconcile_operations s v os)
unfolding reconcile_operations
reconcile_operations-Keeps s v [] = return-Keeps status-IsPart []
reconcile_operations-Keeps s v (o ∷ os) =
    >>=-Keeps status-IsPart (reconcile_operation-Keeps status-IsPart status-IsApart s v o) (λ st.
      >>=-Keeps status-IsPart (reconcile_operations-Keeps s v os)
        (λ rest. return-Keeps status-IsPart (st ∷ rest)))

ensure_scalers-Keeps : (os : List DeclaredOperation) → Keeps (λ k. k.status) (ensure_scalers os)
unfolding ensure_scalers
ensure_scalers-Keeps [] = return-Keeps status-IsPart tt
ensure_scalers-Keeps (o ∷ os) = >>=-Keeps status-IsPart (ensure-Keeps status-IsPart) (λ u.
    >>=-Keeps status-IsPart
      (if-Keeps status-IsPart (is_auto o.scaling.vertical)
        (ensure_vpa-Keeps status-IsPart (λ k m. refl) o o.scaling.vertical)
        (return-Keeps status-IsPart tt))
      (λ u'. ensure_scalers-Keeps os))

failed_ne : WorkloadPhase.failed ≡ WorkloadPhase.succeeded → ⊥
failed_ne p = cc

true_ne_false : true ≡ false → ⊥
true_ne_false p = cc

workload_phase-succeeded :
    (s : WorkloadSpec) (sts : List OperationStatus)
    → (workload_phase s sts).0 ≡ WorkloadPhase.succeeded
    → (any is_streaming s.operations ≡ false)
      × (all_done s.operations sts ≡ true)
      × (any has_failed sts ≡ false)
unfolding workload_phase
workload_phase-succeeded s sts h = elim (Bool-cases (any has_failed sts)) [
  | inl t ↦ absurd (failed_ne (rw t at h))
  | inr t ↦ elim (Bool-cases (all_done s.operations sts && not (any is_streaming s.operations))) [
    | inl u ↦
        let b = both (all_done s.operations sts) (any is_streaming s.operations) u in (b.1, b.0, t)
    | inr u ↦ absurd (running_ne (rw (t, u) at h))
  ]
]
  where
    running_ne : WorkloadPhase.running ≡ WorkloadPhase.succeeded → ⊥
    running_ne p = cc

    both : (a b : Bool) → (a && not b) ≡ true → (a ≡ true) × (b ≡ false)
    both a b h = ground arith

module _ (s : WorkloadSpec) where
  finish-Leads :
      (sts : List OperationStatus) (cs : List ChannelMetrics)
      → validate s ≡ none
      → AreOf s.operations sts
      → Leads (Ended s) (finish s sts cs)
  unfolding finish
  finish-Leads sts cs valid named = record {
    leads = λ k p.
        (>>=-Leads (Ended s)
            (update_status-Leads (Ended s) _ (λ h.
              let w = workload_phase-succeeded s sts h in
              (valid, w.0, all_done-AllSucceeded s.operations sts named w.0 w.1, w.2)))
            (λ u. record { leads = λ k' q. q })).leads
          k p;
  }

  drive-Leads : (m : Metrics) → validate s ≡ none → Leads (Ended s) (drive s m)
  unfolding drive
  drive-Leads m valid =
      >>=-Leads (Ended s) (Keeps-Leads (Ended s) (ensure_scalers-Keeps s.operations)) (λ u.
        >>=-Leads (Ended s) (Keeps-Leads (Ended s) (ensure-Keeps status-IsPart)) (λ pushed.
          >>=-Leads-Yields (Ended s)
            (Keeps-Leads (Ended s) (reconcile_operations-Keeps s (view_of m) s.operations))
            (reconcile_operations-AreOf s (view_of m) s.operations)
            (λ sts named.
              >>=-Leads (Ended s) (Keeps-Leads (Ended s) (fetch_metrics-Keeps status-IsPart))
                (λ again. finish-Leads sts (refreshed m again) valid named))))

  fail_lost-Leads : (cs : List ChannelMetrics) → Leads (Ended s) (fail_lost s cs)
  unfolding fail_lost
  fail_lost-Leads cs = record {
    leads = λ k p.
        (set_phase-Leads (Ended s) WorkloadPhase.failed WorkloadReason.required_records_lost
            (Message.records_lost (lost_records cs)) (lost_status s cs k.status)
            (λ h. absurd (failed_ne h))).leads
          k p;
  }

  observe-Leads : (m : Option Metrics) → validate s ≡ none → Leads (Ended s) (observe s m)
  unfolding observe
  observe-Leads none valid = record { leads = λ k p. p }
  observe-Leads (some m) valid = if-Leads (any has_lost m.channels)
    where
      if-Leads : (b : Bool) → Leads (Ended s) (if b then fail_lost s m.channels else drive s m)
      if-Leads true = fail_lost-Leads m.channels
      if-Leads false = drive-Leads m valid

  after_push-Ended :
      (r : Cluster × Option (Unit {0}))
      → validate s ≡ none
      → Ended s r.0.status
      → Ended s (after_push s r).0.status
  after_push-Ended (k, none) valid p =
      and_then-Leads (Ended s) _ (λ r. return Requeue.later) (λ r. record { leads = λ k' q. q })
        ((set_phase-Leads (Ended s) WorkloadPhase.pending WorkloadReason.coordinator_unavailable
            Message.waiting_for_coordinator k.status (λ h. absurd (pending_ne h))).leads
          k p)
    where
      pending_ne : WorkloadPhase.pending ≡ WorkloadPhase.succeeded → ⊥
      pending_ne p = cc
  after_push-Ended (k, some u) valid p =
      (>>=-Leads (Ended s) (Keeps-Leads (Ended s) (fetch_metrics-Keeps status-IsPart))
          (λ m. observe-Leads m valid)).leads
        k p

  prepare-Leads : validate s ≡ none → Leads (Ended s) (prepare s)
  unfolding prepare
  prepare-Leads valid = >>=-Leads (Ended s) ensure-Leads (λ a.
      >>=-Leads (Ended s) ensure-Leads (λ b. >>=-Leads (Ended s) ensure-Leads (λ c. record {
        leads = λ k p. after_push-Ended (ensure k) valid (ensure-Leads.leads k p);
      })))
    where
      ensure-Leads : Leads (Ended s) ensure
      ensure-Leads = Keeps-Leads (Ended s) (ensure-Keeps status-IsPart)

  -- A pass over a workload that has not ended makes it succeed only when it is valid, all its operations
  -- are ones that end by themselves, and the status that is stored with it has one entry for each
  -- operation, under its name and in the order of the operations, that has succeeded, and none that has
  -- failed, whichever calls fail and whatever the coordinator reports.
  pub reconcile-succeeds :
      (k : Cluster)
      → is_terminal k.status.phase ≡ false
      → (reconcile s k).0.status.phase ≡ WorkloadPhase.succeeded
      → (validate s ≡ none)
        × (any is_streaming s.operations ≡ false)
        × AllSucceeded s.operations (reconcile s k).0.status.operations
        × (any has_failed (reconcile s k).0.status.operations ≡ false)
  unfolding reconcile
  reconcile-succeeds k fresh = rw fresh (ends (validate s) refl)
    where
      fresh_ended : (p : WorkloadPhase) → is_terminal p ≡ false → p ≢ WorkloadPhase.succeeded
      fresh_ended p f e = true_ne_false (sym (ap is_terminal e) ∙ f)

      ended : Ended s k.status
      ended e = absurd (fresh_ended k.status.phase fresh e)

      ends : (v : Option Invalid) → validate s ≡ v → Ended s (reconcile_valid s v k).0.status
      ends none valid = (prepare-Leads valid).leads k ended
      ends (some e) invalid =
          (set_phase-Leads (Ended s) WorkloadPhase.failed WorkloadReason.invalid_workload
              (Message.invalid e) k.status (λ h. absurd (failed_ne h))).leads
            k ended
