-- ===== src/Controller/Workloads/Traced.antt =====
-- `Reconcile` of pkg/controller/reconciler.go: properties of the status along a pass.
use stark8s.Prelude.{false, Option, none, some, any, ◌≡◌, inl, inr, refl, sym, subst, Bool-cases}
use stark8s.Controller.Types.{WorkloadSpec}
use stark8s.Controller.Cycles.{validate}
use stark8s.Controller.Cluster.{
  WorkloadPhase, WorkloadReason, Message, WorkloadStatus, Cluster, K, and_then, ◌>>=◌, call,
  next_answer,
}
use stark8s.Controller.Cluster.Kept.{IsPart, Keeps}
use stark8s.Controller.Operations.Kept.{IsApart}
use stark8s.Controller.Workloads.Named.{Yields, AllSucceeded}
use stark8s.Controller.Workloads.{is_streaming, update_status, set_phase, has_failed}

pub status-IsPart : IsPart (λ k. k.status)
status-IsPart = record { ignores_answers = λ k bs. refl; ignores_reports = λ k rs. refl }

pub status-IsApart : IsApart status-IsPart
status-IsApart = record {
  from_deployments = λ k ds. refl;
  from_jobs = λ k jobs. refl;
  from_sealed = λ k names. refl;
  from_vpas = λ k vpas. refl;
}

-- What holds of the stored status holds after the step.
pub record Leads {A : Type 0} (P : WorkloadStatus → Type 0) (m : K A) : Type 0 where
  pub leads : (k : Cluster) → P k.status → P (m k).0.status

module _ (P : WorkloadStatus → Type 0) where
  pub Keeps-Leads : {A : Type 0} {m : K A} → Keeps (λ k. k.status) m → Leads P m
  Keeps-Leads h = record { leads = λ k p. subst P (sym (h.keeps k)) p }

  pub and_then-Leads :
      {A B : Type 0} (r : Cluster × Option A) (f : A → K B)
      → ((a : A) → Leads P (f a))
      → P r.0.status
      → P (and_then r f).0.status
  and_then-Leads (k, some a) f h p = (h a).leads k p
  and_then-Leads (k, none) f h p = p

  pub >>=-Leads :
      {A B : Type 0} {m : K A} {f : A → K B}
      → Leads P m
      → ((a : A) → Leads P (f a))
      → Leads P (m >>= f)
  >>=-Leads {m = m} {f = f} h g = record { leads = λ k p. and_then-Leads (m k) f g (h.leads k p) }

  and_then-Leads_some :
      {A B : Type 0} (r : Cluster × Option A) (f : A → K B)
      → ((a : A) → r.1 ≡ some a → Leads P (f a))
      → P r.0.status
      → P (and_then r f).0.status
  and_then-Leads_some (k, some a) f h p = (h a refl).leads k p
  and_then-Leads_some (k, none) f h p = p

  -- The second step, where what is known of the result of the first is used.
  pub >>=-Leads-Yields :
      {A B : Type 0} {Q : A → Type 0} {m : K A} {f : A → K B}
      → Leads P m
      → Yields Q m
      → ((a : A) → Q a → Leads P (f a))
      → Leads P (m >>= f)
  >>=-Leads-Yields {m = m} {f = f} h q g = record {
    leads = λ k p. and_then-Leads_some (m k) f (λ a e. g a (q.yields k a e)) (h.leads k p);
  }

  -- The status is written, or the call fails.
  pub update_status-Leads : (st : WorkloadStatus) → P st → Leads P (update_status st)
  unfolding update_status call
  update_status-Leads st q = record {
    leads = λ k p. elim (Bool-cases (next_answer k.answers)) [ inl t ↦ rw t q | inr t ↦ rw t p ];
  }

  pub set_phase-Leads :
      (phase : WorkloadPhase) (why : WorkloadReason) (message : Message) (st : WorkloadStatus)
      → P (record st { phase = phase; reason = why; message = message })
      → Leads P (set_phase phase why message st)
  unfolding set_phase
  set_phase-Leads phase why message st q =
      >>=-Leads (update_status-Leads _ q) (λ u. record { leads = λ k p. p })

-- A workload that has succeeded is valid, all its operations end by themselves, and its status has one
-- entry for each of them, which has succeeded.
abbrev pub Ended : WorkloadSpec → WorkloadStatus → Type 0
Ended s st =
    st.phase ≡ WorkloadPhase.succeeded
    → (validate s ≡ none)
      × (any is_streaming s.operations ≡ false)
      × AllSucceeded s.operations st.operations
      × (any has_failed st.operations ≡ false)
