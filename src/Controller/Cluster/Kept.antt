-- ===== src/Controller/Cluster/Kept.antt =====
-- pkg/controller: calls that leave a part of the cluster as it is, and how they compose.
use stark8s.Prelude.{
  Bool, true, false, Option, none, some, List, if◌then◌else◌, ◌≡◌, inl, inr, refl, ◌∙◌, Bool-cases,
}
use stark8s.Coordinator.Api.{Metrics}
use stark8s.Controller.Cluster.{
  Cluster, K, and_then, ◌>>=◌, return, call, ensure, fetch_metrics, next_answer, later,
}

-- A part of the cluster that is not the answers to come.
pub record IsPart {X : Type 0} (part : Cluster → X) : Type 0 where
  pub ignores_answers : (k : Cluster) (bs : List Bool) → part (record k { answers = bs }) ≡ part k
  pub ignores_reports :
      (k : Cluster) (rs : List (Option Metrics)) → part (record k { reports = rs }) ≡ part k

pub record Keeps {X A : Type 0} (part : Cluster → X) (m : K A) : Type 0 where
  pub keeps : (k : Cluster) → part (m k).0 ≡ part k

none_ne_some : {A : Type 0} {a : A} → none ≡ some a → ⊥
none_ne_some p = cc

-- What has returned a result has gone on from its first part.
pub went_on :
    {A B : Type 0} (r : Cluster × Option A) (f : A → K B) (b : B)
    → (and_then r f).1 ≡ some b
    → (a : A) × (r.1 ≡ some a) × ((f a r.0).1 ≡ some b) × ((and_then r f).0 ≡ (f a r.0).0)
went_on (k, some a) f b e = (a, refl, e, refl)
went_on (k, none) f b e = absurd (none_ne_some e)

-- A call that succeeds has had its effect.
pub call_done :
    (f : Cluster → Cluster) (k : Cluster) (u : Unit {0})
    → (call f k).1 ≡ some u
    → (call f k).0 ≡ f (record k { answers = later k.answers })
unfolding call
call_done f k u e = elim (Bool-cases (next_answer k.answers)) [
  | inl t ↦ rw t refl
  | inr t ↦ absurd (none_ne_some (rw t at e))
]

module _ {X : Type 0} {part : Cluster → X} (is_part : IsPart part) where
  and_then-Keeps :
      {A B : Type 0} (r : Cluster × Option A) (f : A → K B)
      → ((a : A) → Keeps part (f a))
      → part (and_then r f).0 ≡ part r.0
  and_then-Keeps (k, some a) f h = (h a).keeps k
  and_then-Keeps (k, none) f h = refl

  pub >>=-Keeps :
      {A B : Type 0} {m : K A} {f : A → K B}
      → Keeps part m
      → ((a : A) → Keeps part (f a))
      → Keeps part (m >>= f)
  >>=-Keeps {m = m} {f = f} h g = record { keeps = λ k. and_then-Keeps (m k) f g ∙ h.keeps k }

  pub return-Keeps : {A : Type 0} (a : A) → Keeps part (return a)
  return-Keeps a = record { keeps = λ k. refl }

  pub call-Keeps :
      (f : Cluster → Cluster) → ((k : Cluster) → part (f k) ≡ part k) → Keeps part (call f)
  unfolding call
  call-Keeps f h = record {
    keeps = λ k. elim (Bool-cases (next_answer k.answers)) [
      | inl t ↦
          rw t (
            h (record k { answers = later k.answers })
            ∙ is_part.ignores_answers k (later k.answers))
      | inr t ↦ rw t (is_part.ignores_answers k (later k.answers))
    ];
  }

  pub if-Keeps :
      {A : Type 0} (b : Bool) {m n : K A}
      → Keeps part m
      → Keeps part n
      → Keeps part (if b then m else n)
  if-Keeps true h g = h
  if-Keeps false h g = g

  pub ensure-Keeps : Keeps part ensure
  ensure-Keeps = call-Keeps (λ k. k) (λ k. refl)

  pub fetch_metrics-Keeps : Keeps part fetch_metrics
  unfolding fetch_metrics
  fetch_metrics-Keeps = record { keeps = λ k. is_part.ignores_reports k (later k.reports) }
