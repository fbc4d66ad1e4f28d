-- ===== src/Controller/Collective/Attempts.antt =====
-- pkg/controller/collective.go: how often a collective operation is started.
use stark8s.Prelude.{
  ℕ, suc, ◌≤◌, ℤ, pos, String, Bool, true, false, not, Option, none, some, List, [], ◌∷◌, leb,
  ltb_ℤ, ◌==◌, if◌then◌else◌, string_eq, ◌≡◌, inl, inr, refl, sym, subst, Bool-cases, All, arith,
}
use stark8s.Controller.Types.{WorkloadSpec, DeclaredOperation, CollectiveSpec, outbound_channels}
use stark8s.Controller.Cluster.{Job, Cluster, K, and_then, ◌>>=◌, return, call, next_answer, later}
use stark8s.Controller.Cluster.Kept.{IsPart, Keeps}
use stark8s.Controller.Operations.Kept.{seal_outputs-Keeps}
use stark8s.Controller.Collective.{
  same_job, put_job, start_attempt, attempt_limit, replace_failed, continue_job,
  reconcile_collective, last_job,
}

-- No job of the operation has an attempt beyond the limit.
abbrev pub IsLimited : String → ℕ → List Job → Type 0
IsLimited name limit jobs = All (λ j. j.operation == name ≡ true → j.attempt ≤ limit) jobs

put_job-IsLimited :
    (name : String) (limit attempt : ℕ) (size : ℤ) (js : List Job)
    → attempt ≤ limit
    → IsLimited name limit js
    → IsLimited name limit (put_job name attempt size js)
unfolding put_job
put_job-IsLimited name limit attempt size [] h k = (λ e. h, tt)
put_job-IsLimited name limit attempt size (j ∷ js) h k =
    elim (Bool-cases (same_job name attempt j)) [
      | inl t ↦ rw t (k.0, k.1)
      | inr f ↦ rw f (k.0, put_job-IsLimited name limit attempt size js h k.1)
    ]

-- A step after which the jobs are limited if they were.
record Limits {A : Type 0} (name : String) (limit : ℕ) (m : K A) : Type 0 where
  limits : (k : Cluster) → IsLimited name limit k.jobs → IsLimited name limit (m k).0.jobs

module _ (name : String) (limit : ℕ) where
  and_then-Limits :
      {A B : Type 0} (r : Cluster × Option A) (f : A → K B)
      → ((a : A) → Limits name limit (f a))
      → IsLimited name limit r.0.jobs
      → IsLimited name limit (and_then r f).0.jobs
  and_then-Limits (k, some a) f h p = (h a).limits k p
  and_then-Limits (k, none) f h p = p

  >>=-Limits :
      {A B : Type 0} {m : K A} {f : A → K B}
      → Limits name limit m
      → ((a : A) → Limits name limit (f a))
      → Limits name limit (m >>= f)
  >>=-Limits {m = m} {f = f} h g = record {
    limits = λ k p. and_then-Limits (m k) f g (h.limits k p);
  }

  call-Limits :
      (f : Cluster → Cluster)
      → ((k : Cluster) → IsLimited name limit k.jobs → IsLimited name limit (f k).jobs)
      → Limits name limit (call f)
  unfolding call
  call-Limits f h = record {
    limits = λ k p. elim (Bool-cases (next_answer k.answers)) [
      | inl t ↦ rw t (h (record k { answers = later k.answers }) p)
      | inr t ↦ rw t p
    ];
  }

  return-Limits : {A : Type 0} (a : A) → Limits name limit (return a)
  return-Limits a = record { limits = λ k p. p }

at_least_one : (c : CollectiveSpec) → 1 ≤ attempt_limit c
at_least_one c = elim (Bool-cases (ltb_ℤ c.max_attempts (pos 1))) [
  | inl t ↦ rw t (omega arith)
  | inr t ↦ rw t (ground arith)
]

start_attempt-Limits :
    (o : DeclaredOperation) (c : CollectiveSpec) (attempt : ℕ)
    → attempt ≤ attempt_limit c
    → Limits o.name (attempt_limit c) (start_attempt o c attempt)
unfolding start_attempt
start_attempt-Limits o c attempt h =
    let n = attempt_limit c in
    >>=-Limits o.name n (call-Limits o.name n (λ k. k) (λ k p. p)) (λ u.
      >>=-Limits o.name n
        (call-Limits o.name n (λ k. record k { jobs = put_job o.name attempt c.size k.jobs })
          (λ k p. put_job-IsLimited o.name n attempt c.size k.jobs h p))
        (λ u'. return-Limits o.name n _))

jobs-IsPart : IsPart (λ k. k.jobs)
jobs-IsPart = record { ignores_answers = λ k bs. refl; ignores_reports = λ k rs. refl }

module _ (o : DeclaredOperation) (c : CollectiveSpec) where
  Keeps-Limits : {A : Type 0} {m : K A} → Keeps (λ k. k.jobs) m → Limits o.name (attempt_limit c) m
  Keeps-Limits h = record {
    limits = λ k p. subst (IsLimited o.name (attempt_limit c)) (sym (h.keeps k)) p;
  }

  if-Limits :
      {A : Type 0} (b : Bool) {m n : K A}
      → (b ≡ true → Limits o.name (attempt_limit c) m)
      → (b ≡ false → Limits o.name (attempt_limit c) n)
      → Limits o.name (attempt_limit c) (if b then m else n)
  if-Limits true h g = h refl
  if-Limits false h g = g refl

  next_attempt :
      (j : Job) → leb (attempt_limit c) j.attempt ≡ false → suc j.attempt ≤ attempt_limit c
  next_attempt j h = below (attempt_limit c) j.attempt h
    where
      below : (n m : ℕ) → leb n m ≡ false → suc m ≤ n
      below n m h = ground arith

  replace_failed-Limits : (j : Job) → Limits o.name (attempt_limit c) (replace_failed o c j)
  unfolding replace_failed
  replace_failed-Limits j =
      if-Limits (leb (attempt_limit c) j.attempt) (λ t. return-Limits o.name (attempt_limit c) _)
        (λ f.
          if-Limits (c.checkpoint == "") (λ t. record { limits = λ k p. p })
            (λ g. start_attempt-Limits o c (suc j.attempt) (next_attempt j f)))

  continue_job-Limits :
      (s : WorkloadSpec) (j : Option Job) → Limits o.name (attempt_limit c) (continue_job s o c j)
  unfolding continue_job
  continue_job-Limits s none = start_attempt-Limits o c 1 (at_least_one c)
  continue_job-Limits s (some j) =
      if-Limits j.complete
        (λ t.
          >>=-Limits o.name (attempt_limit c)
            (Keeps-Limits (
              seal_outputs-Keeps jobs-IsPart (λ k names. refl) (λ name. true)
                (outbound_channels s o.name)))
            (λ u. return-Limits o.name (attempt_limit c) _))
        (λ f.
          if-Limits (not j.failed) (λ t. return-Limits o.name (attempt_limit c) _)
            (λ t. replace_failed-Limits j))

  -- A pass over a collective operation starts no attempt beyond the limit, which is one where none is
  -- declared: if no job of the operation was beyond it before the pass, none is after it, whichever
  -- calls fail.
  pub reconcile_collective-IsLimited :
      (s : WorkloadSpec) (k : Cluster)
      → IsLimited o.name (attempt_limit c) k.jobs
      → IsLimited o.name (attempt_limit c) (reconcile_collective s o c k).0.jobs
  unfolding reconcile_collective
  reconcile_collective-IsLimited s k p =
      (>>=-Limits o.name (attempt_limit c)
          (call-Limits o.name (attempt_limit c) (λ k'. k') (λ k' q. q))
          (λ u. record {
            limits = λ k' q. (continue_job-Limits s (last_job o.name none k'.jobs)).limits k' q;
          })).limits
        k p
