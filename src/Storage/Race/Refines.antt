-- ===== src/Storage/Race/Refines.antt =====
-- pkg/storage/checkpoint.go: clients that race for a checkpoint make atomic claims and commits.
use stark8s.Prelude.{
  some-inj, ℕ, suc, ◌+◌, ◌<◌, ◌^◌, String, Bool, true, false, Option, none, some, List, [], ◌∷◌,
  ◌==◌, not, ◌||◌, ◌≡◌, ◌⊎◌, inl, inr, refl, sym, ap, subst, ◌∙◌, or_else, Bool-cases, length,
  arith, eq_of_==, add64, string_eq, nat_eq,
}
use stark8s.Storage.Objects.{Outcome, ok, err, Object, Store, Io, and_then, return}
use stark8s.Storage.Objects.Laws.{IsStore, Matches}
use stark8s.Storage.Checkpoint.{
  Checkpoint, Writer, no_checkpoint, claimed, reread, write_claim, read_owned, replace_owned,
  check_owned, fence_conflict,
}
use stark8s.Storage.Race.{
  Client, World, Action, act, run, step, claim_writes_from, commit_reads_from, commit_writes_from,
  after_claim_read, after_claim_write, after_commit_read, after_commit_write,
}
use stark8s.Storage.Race.Fencing.{
  gen_of, encoded, IsCoded, Owns, Found, Next, Knows, Matches-Seen, Matches-empty,
}
use stark8s.Storage.Race.Steps.{
  Change, reread?, Grown, IsFenced, Advanced, Knows-Grown, step-Advanced, same-Advanced,
  idle-Advanced, read_claim-Found, Swapped, swap-Swapped, swap_at,
}

-- The generation of a checkpoint is the next one, if it does not wrap round.
add64_next : (n : ℕ) → suc n < 2 ^ 64 → add64 n 1 ≡ suc n
add64_next n h = ground arith

pub third_passes : (a b c : Bool) → (not a || not b || not c) ≡ false → c ≡ true
third_passes a b c h = ground arith

module _ {S Bytes : Type 0} {store : Store S Bytes} {encode : Checkpoint → Bytes}
    {decode : Bytes → Option Checkpoint} {version : Bytes → String}
    {held : S → String → Option Bytes} (laws : IsStore store version held)
    (coded : IsCoded encode decode version) (key : String) where
  -- What a claim replaces is what it has read.
  pub Found-Current :
      (current : Option Checkpoint) (old : String) (previous : Checkpoint)
      → Found encode version current (old, previous)
      → Matches version old (encoded encode current)
      → (previous.generation ≡ gen_of current)
        × (or_else (reread? current) no_checkpoint ≡ previous)
  Found-Current current old previous (inl (e, p)) m =
      let n : current ≡ none =
        Matches-empty coded current (subst (λ o. Matches version o (encoded encode current)) e m) in
      rw (n, p) (refl, refl)
  Found-Current current old previous (inr (c, e, p, s)) m =
      let n : current ≡ some c =
        Matches-Seen coded current c (subst (λ o. Matches version o (encoded encode current)) e m)
          s in
      rw (n, p) (refl, refl)

  unfoldable pub claimant : String → Checkpoint → String → Io S (Writer × Checkpoint)
  claimant id previous v =
      return (record { key = key; id = id; version = v; value = claimed id previous }, previous)

  claimant-Knows :
      (current : Option Checkpoint) (old id : String) (previous : Checkpoint)
      (r : S × Outcome String) (sw : Swapped laws coded key current old (claimed id previous) r)
      → (held (and_then r (claimant id previous)).0 key ≡ encoded encode sw.after)
        × Knows encode version key sw.after
            (after_claim_write (and_then r (claimant id previous)).1)
  unfolding claimant
  claimant-Knows current old id previous (s, ok v) sw =
      (sw.shown, (refl, ((sw.done v refl).0, refl, rw (sw.done v refl).1 (omega arith, λ _. refl))))
  claimant-Knows current old id previous (s, err e) sw = (sw.shown, tt)

  claim_grows :
      (current after : Option Checkpoint) (old id : String) (previous : Checkpoint)
      → suc (gen_of current) < 2 ^ 64
      → Found encode version current (old, previous)
      → (after ≡ current)
        ⊎ ((after ≡ some (claimed id previous)) × Matches version old (encoded encode current))
      → Grown current after × Change (reread? current) (reread? after)
  claim_grows current after old id previous room f (inl e) = (inl e, Change.stays (ap reread? e))
  claim_grows current after old id previous room f (inr (e, m)) =
      let p = Found-Current current old previous f m in
      (
        inr (ap gen_of e ∙ ap (λ n. add64 n 1) p.0 ∙ add64_next (gen_of current) room),
        Change.claims id (ap reread? e ∙ ap (λ c. some (reread (claimed id c))) (sym p.1)),
      )

  claim_writes-Advanced :
      (k : ℕ) (w : World S) (was : IsFenced laws coded key k w) (i : ℕ) (id : String)
      (found : String × Checkpoint)
      → suc k < 2 ^ 64
      → Found encode version was.current found
      → Advanced laws coded key k w was
          (step w i (write_claim store encode decode key id found w.store) after_claim_write)
  unfolding write_claim claimant
  claim_writes-Advanced k w was i id (old, previous) room f =
      let next = claimed id previous in
      let sw = swap-Swapped laws coded key was.current old next w.store was.shown in
      let known =
        claimant-Knows was.current old id previous
          (store.compare_and_swap key old (encode next) w.store) sw in
      let grown =
        claim_grows was.current sw.after old id previous (omega (arith, was.bounded)) f sw.moved in
      step-Advanced laws coded key k w was i _ after_claim_write sw.after known.0 grown.0 known.1
        grown.1

  -- A writer that passes the check has read what it wrote last.
  check_owned-Next :
      (o : Writer) (c : Checkpoint) (obj : Object Bytes) (s : S) (state : String)
      (tombstones : List String)
      → (o.key ≡ key)
      → Owns encode version (some c) o
      → obj.version ≡ version (encode c)
      → (held (check_owned store encode decode o obj (some (reread c)) s).0 key ≡ held s key)
        × Knows encode version key (some c) (
            after_commit_read o state tombstones
              (check_owned store encode decode o obj (some (reread c)) s).1)
  check_owned-Next o c obj s state tombstones at owns v =
      elim (Bool-cases (
        not (c.writer == o.id)
        || not (c.generation == o.value.generation)
        || not (obj.version == o.version))) [
          | inl t ↦ rw t (refl, (at, owns))
          | inr t ↦
              let same : obj.version ≡ o.version = eq_of_== obj.version o.version (
                third_passes (c.writer == o.id) (c.generation == o.value.generation)
                  (obj.version == o.version) t) in
              let e : some c ≡ some o.value =
                Matches-Seen coded (some c) o.value (sym owns.0 ∙ sym same ∙ v) owns.2 in
              rw t (refl, (at, owns, (state, tombstones, rw (some-inj e) refl)))
        ]

  unfoldable pub renew : Writer → Checkpoint → String → Io S Writer
  renew o next v = return (record o { version = v; value = next })

  -- The writer keeps its knowledge when the write fails.
  commit_answer-Knows :
      (current : Option Checkpoint) (o : Writer) (next : Checkpoint) (r : S × Outcome String)
      (sw : Swapped laws coded key current o.version next r)
      → o.key ≡ key
      → next.writer ≡ o.id
      → Knows encode version key sw.after (Client.owner o)
      → (held (and_then (fence_conflict store encode decode r) (renew o next)).0 key
          ≡ encoded encode sw.after)
        × Knows encode version key sw.after (
            after_commit_write o (and_then (fence_conflict store encode decode r) (renew o next)).1)
  unfolding renew
  commit_answer-Knows current o next (s, ok v) sw at mine know =
      (sw.shown, (at, ((sw.done v refl).0, mine, rw (sw.done v refl).1 (omega arith, λ _. refl))))
  commit_answer-Knows current o next (s, err e) sw at mine know = (sw.shown, know)

  pub read_owned-Knows :
      (current : Option Checkpoint) (o : Writer) (state : String) (tombstones : List String)
      (g : S × Outcome (Object Bytes))
      → o.key ≡ key
      → Owns encode version current o
      → ((obj : Object Bytes)
          → g.1 ≡ ok obj
          → (encoded encode current ≡ some obj.bytes) × (obj.version ≡ version obj.bytes))
      → (held (and_then g (λ obj. check_owned store encode decode o obj (decode obj.bytes))).0 key
          ≡ held g.0 key)
        × Knows encode version key current (
            after_commit_read o state tombstones
              (and_then g (λ obj. check_owned store encode decode o obj (decode obj.bytes))).1)
  read_owned-Knows none o state tombstones (s, ok obj) at owns found =
      absurd (some_ne_none (sym (found obj refl).0))
    where
      some_ne_none : {A : Type 0} {a : A} → some a ≡ none → ⊥
      some_ne_none p = cc
  read_owned-Knows (some c) o state tombstones (s, ok obj) at owns found =
      let e : encode c ≡ obj.bytes = some-inj (found obj refl).0 in
      let d : decode obj.bytes ≡ some (reread c) = ap decode (sym e) ∙ coded.decode-encode c in
      let v : obj.version ≡ version (encode c) = (found obj refl).1 ∙ ap version (sym e) in
      rw d (check_owned-Next o c obj s state tombstones at owns v)
  read_owned-Knows current o state tombstones (s, err e) at owns found = (refl, (at, owns))

  commit_reads-Advanced :
      (k : ℕ) (w : World S) (was : IsFenced laws coded key k w) (i : ℕ) (o : Writer)
      (state : String) (tombstones : List String)
      → o.key ≡ key
      → Owns encode version was.current o
      → Advanced laws coded key k w was (
          step w i
            (read_owned store encode decode o w.store)
            (after_commit_read o state tombstones))
  unfolding read_owned
  commit_reads-Advanced k w was i o state tombstones at owns =
      let r =
        read_owned-Knows was.current o state tombstones (store.get o.key w.store) at owns (λ obj h.
          let f = laws.get_found w.store o.key obj h in
          (sym was.shown ∙ ap (held w.store) (sym at) ∙ f.0, f.1)) in
      same-Advanced laws coded key k w was i _ (after_commit_read o state tombstones)
        (r.0
          ∙ subst (λ q. held (store.get q w.store).0 key ≡ held w.store key) (sym at)
              (laws.get_same w.store key))
        r.1

  commit_grows :
      (current after : Option Checkpoint) (o : Writer) (next : Checkpoint)
      → suc (gen_of current) < 2 ^ 64
      → Owns encode version current o
      → Next encode version o next
      → (after ≡ current)
        ⊎ ((after ≡ some next) × Matches version o.version (encoded encode current))
      → Grown current after × Change (reread? current) (reread? after)
  commit_grows current after o next room owns n (inl e) = (inl e, Change.stays (ap reread? e))
  commit_grows current after o next room owns (state, tombstones, n) (inr (e, m)) =
      let c : current ≡ some o.value =
        Matches-Seen coded current o.value
          (subst (λ q. Matches version q (encoded encode current)) owns.0 m) owns.2 in
      (
        inr (
            ap gen_of e
            ∙ ap (λ q. q.generation) n
            ∙ ap (λ q. add64 (gen_of q) 1) (sym c)
            ∙ add64_next (gen_of current) room),
        Change.commits (reread o.value) state tombstones (ap reread? c)
            (ap reread? e ∙ ap (λ q. some (reread q)) n),
      )

  commit_writes-Advanced :
      (k : ℕ) (w : World S) (was : IsFenced laws coded key k w) (i : ℕ) (o : Writer)
      (next : Checkpoint)
      → suc k < 2 ^ 64
      → o.key ≡ key
      → Owns encode version was.current o
      → Next encode version o next
      → Advanced laws coded key k w was
          (step w i (replace_owned store encode decode o next w.store) (after_commit_write o))
  unfolding replace_owned renew
  commit_writes-Advanced k w was i o next room at owns n =
      let sw = swap_at laws coded key was.current o.key o.version next w.store at was.shown in
      let grown =
        commit_grows was.current sw.after o next (omega (arith, was.bounded)) owns n sw.moved in
      let known =
        commit_answer-Knows was.current o next
          (store.compare_and_swap o.key o.version (encode next) w.store) sw at
          (ap (λ q. q.writer) n.2 ∙ owns.1)
          (Knows-Grown laws coded key was.current sw.after (Client.owner o) grown.0 (at, owns)) in
      step-Advanced laws coded key k w was i _ (after_commit_write o) sw.after known.0 grown.0
        known.1 grown.1

  claim_client-Advanced :
      (k : ℕ) (w : World S) (was : IsFenced laws coded key k w) (i : ℕ) (c : Client)
      → suc k < 2 ^ 64
      → Knows encode version key was.current c
      → Advanced laws coded key k w was (claim_writes_from store encode decode key w i c)
  claim_client-Advanced k w was i Client.idle room h = idle-Advanced laws coded key k w was
  claim_client-Advanced k w was i (Client.claiming id found) room h =
      claim_writes-Advanced k w was i id found room h
  claim_client-Advanced k w was i (Client.owner o) room h = idle-Advanced laws coded key k w was
  claim_client-Advanced k w was i (Client.committing o next) room h =
      idle-Advanced laws coded key k w was

  reader-Advanced :
      (k : ℕ) (w : World S) (was : IsFenced laws coded key k w) (i : ℕ) (state : String)
      (tombstones : List String) (c : Client)
      → Knows encode version key was.current c
      → Advanced laws coded key k w was
          (commit_reads_from store encode decode key w i state tombstones c)
  reader-Advanced k w was i state tombstones Client.idle h = idle-Advanced laws coded key k w was
  reader-Advanced k w was i state tombstones (Client.claiming id found) h =
      idle-Advanced laws coded key k w was
  reader-Advanced k w was i state tombstones (Client.owner o) h =
      commit_reads-Advanced k w was i o state tombstones h.0 h.1
  reader-Advanced k w was i state tombstones (Client.committing o next) h =
      idle-Advanced laws coded key k w was

  writer-Advanced :
      (k : ℕ) (w : World S) (was : IsFenced laws coded key k w) (i : ℕ) (c : Client)
      → suc k < 2 ^ 64
      → Knows encode version key was.current c
      → Advanced laws coded key k w was (commit_writes_from store encode decode key w i c)
  writer-Advanced k w was i Client.idle room h = idle-Advanced laws coded key k w was
  writer-Advanced k w was i (Client.claiming id found) room h = idle-Advanced laws coded key k w was
  writer-Advanced k w was i (Client.owner o) room h = idle-Advanced laws coded key k w was
  writer-Advanced k w was i (Client.committing o next) room h =
      commit_writes-Advanced k w was i o next room h.0 h.1 h.2

  pub act-Advanced :
      (k : ℕ) (w : World S) (was : IsFenced laws coded key k w) (a : Action)
      → suc k < 2 ^ 64
      → Advanced laws coded key k w was (act store encode decode key a w)
  unfolding act
  act-Advanced k w was (Action.claim_reads i id) room =
      let r = read_claim-Found laws coded key was.current w.store was.shown id in
      same-Advanced laws coded key k w was i _ (after_claim_read id) r.0 r.1
  act-Advanced k w was (Action.claim_writes i) room =
      claim_client-Advanced k w was i (w.clients i) room (was.clients_know i)
  act-Advanced k w was (Action.commit_reads i state tombstones) room =
      reader-Advanced k w was i state tombstones (w.clients i) (was.clients_know i)
  act-Advanced k w was (Action.commit_writes i) room =
      writer-Advanced k w was i (w.clients i) room (was.clients_know i)

  -- The invariant along a run.
  pub run-IsFenced :
      (acts : List Action) (k : ℕ) (w : World S)
      → IsFenced laws coded key k w
      → k + length acts < 2 ^ 64
      → IsFenced laws coded key (k + length acts) (run store encode decode key acts w)
  unfolding run
  run-IsFenced [] k w was room = subst (λ n. IsFenced laws coded key n w) (omega arith) was
  run-IsFenced (a ∷ rest) k w was room =
      let next = act-Advanced k w was a (omega arith) in
      subst (λ n. IsFenced laws coded key n (run store encode decode key (a ∷ rest) w))
        (omega arith)
        (run-IsFenced rest (suc k) (act store encode decode key a w) next.fenced (omega arith))
