-- ===== src/Coordinator/State/Commits.antt =====
-- `commitLocked`: a coordinator without a store always commits, and a failure of the store stays.
use stark8s.Prelude.{Bool, true, false, sym, ap, ◌∙◌, Map, String, none, ◌≡◌, arith}
use stark8s.Coordinator.Api.{Error}
use stark8s.Coordinator.State.{
  Channel, Coordinator, commit_locked, Result, ok, err, and_then, M, ◌>>=◌, ◌>>◌, modify, refuse_if,
  get_state, require_durable_writer,
}

-- A coordinator in memory that has not failed.
pub record InMemory (co : Coordinator) : Type 0 where
  pub no_store : co.durable ≡ none
  pub no_failure : co.failed ≡ none

pub commit_locked-memory : (co : Coordinator) → InMemory co → commit_locked co ≡ (co, ok tt)
unfolding commit_locked
commit_locked-memory co v = rw (v.no_failure, v.no_store)

-- The channels are as given, and the coordinator has not failed.
pub record Unchanged (chs : Map String Channel) (co : Coordinator) : Type 0 where
  pub same : co.channels ≡ chs
  pub memory : InMemory co

-- The step changes no channel, whatever it returns.
pub record Reads {A : Type 0} (chs : Map String Channel) (m : M A) : Type 0 where
  pub reads : (co : Coordinator) → Unchanged chs co → Unchanged chs (m co).0

-- If the step returns an error, it has changed no channel.
pub record Refuses {A : Type 0} (chs : Map String Channel) (m : M A) : Type 0 where
  pub refuses :
      (co : Coordinator)
      → Unchanged chs co
      → (e : Error) → (m co).1 ≡ err e
      → (m co).0.channels ≡ chs

and_then-Refuses :
    {A B : Type 0} (chs : Map String Channel) (r : Coordinator × Result A) (f : A → M B)
    → Unchanged chs r.0
    → ((a : A) → Refuses chs (f a))
    → (e : Error) → (and_then r f).1 ≡ err e
    → (and_then r f).0.channels ≡ chs
and_then-Refuses chs (co, ok a) f u k e h = (k a).refuses co u e h
and_then-Refuses chs (co, err e') f u k e h = u.same

-- Steps that change no channel may come before one that refuses.
pub >>=-Refuses :
    {A B : Type 0} {chs : Map String Channel} {m : M A} {f : A → M B}
    → Reads chs m
    → ((a : A) → Refuses chs (f a))
    → Refuses chs (m >>= f)
>>=-Refuses {chs = chs} {m = m} {f = f} r k = record {
  refuses = λ co u e h. and_then-Refuses chs (m co) f (r.reads co u) k e h;
}

module _ {chs : Map String Channel} where
  pub refuse_if-Reads : (b : Bool) (e : Error) → Reads chs (refuse_if b e)
  refuse_if-Reads true e = record { reads = λ co u. u }
  refuse_if-Reads false e = record { reads = λ co u. u }

  pub require_durable_writer-Reads : Reads chs require_durable_writer
  unfolding require_durable_writer
  require_durable_writer-Reads = record { reads = λ co u. ground arith }

  pub get_state-Reads : Reads chs get_state
  get_state-Reads = record { reads = λ co u. u }

-- What ends with a commit in memory returns no error.
pub commit_locked-Refuses :
    (f : Coordinator → Coordinator) (chs : Map String Channel)
    → ((co : Coordinator) → InMemory co → InMemory (f co))
    → Refuses chs (modify f >> commit_locked)
commit_locked-Refuses f chs keep = record {
  refuses = λ co u e h.
      absurd (ok_ne_err (sym (ap (λ r. r.1) (commit_locked-memory (f co) (keep co u.memory))) ∙ h));
}
  where
    ok_ne_err : {e : Error} → ◌≡◌ {A = Result (Unit {0})} (ok tt) (err e) → ⊥
    ok_ne_err p = cc
