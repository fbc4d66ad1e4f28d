-- ===== src/Storage/Race/Owners.antt =====
-- pkg/storage/checkpoint.go: what `Claim` and `Commit` promise to clients that race for a checkpoint.
use stark8s.Prelude.{
  [], ◌+◌, ◌%◌, ◌^◌, some-inj, ℕ, suc, ◌<◌, ◌^◌, String, Option, none, some, List, ◌==◌, not, ◌||◌,
  ◌≡◌, ◌≢◌, inl, inr, refl, sym, ap, subst, ◌∙◌, or_else, Bool-cases, length, arith, eq_of_==,
  string_eq, nat_eq,
}
use stark8s.Storage.Objects.{StoreError, Outcome, ok, err, Object, Store, Io, and_then}
use stark8s.Storage.Objects.Laws.{IsStore, Matches}
use stark8s.Storage.Checkpoint.{
  Checkpoint, Writer, no_checkpoint, claimed, committed, reread, commit, claim, read_owned,
  replace_owned, check_owned, fence_conflict, read_claim, write_claim,
}
use stark8s.Storage.Race.{Client, World, Action, act, run, after_claim_read}
use stark8s.Storage.Race.Fencing.{encoded, IsCoded, Owns, Found, Knows, Matches-Seen}
use stark8s.Storage.Race.Steps.{
  err_ne_ok, ok-inj, Change, reread?, IsFenced, Swapped, swap_at, read_claim-Found,
}
use stark8s.Storage.Race.Refines.{
  act-Advanced, run-IsFenced, renew, claimant, Found-Current, third_passes, read_owned-Knows,
}

abbrev decoded : {Bytes : Type 0} → (Bytes → Option Checkpoint) → Option Bytes → Option Checkpoint
decoded decode none = none
decoded decode (some b) = decode b

stopped :
    {S A B : Type 0} (r : S × Outcome A) (f : A → Io S B)
    → ((a : A) → r.1 ≢ ok a)
    → ((e : StoreError) × ((and_then r f).1 ≡ err e)) × ((and_then r f).0 ≡ r.0)
stopped (s, ok a) f n = absurd (n a refl)
stopped (s, err e) f n = ((e, refl), refl)

went_on :
    {S A B : Type 0} (r : S × Outcome A) (f : A → Io S B) (b : B)
    → (and_then r f).1 ≡ ok b
    → (a : A) × (r.1 ≡ ok a) × ((f a r.0).1 ≡ ok b) × ((and_then r f).0 ≡ (f a r.0).0)
went_on (s, ok a) f b e = (a, refl, e, refl)
went_on (s, err x) f b e = absurd (err_ne_ok e)

-- No client has called yet.
abbrev pub start : {S : Type 0} → S → World S
start s = record { store = s; clients = λ i. Client.idle }

module _ {S Bytes : Type 0} {store : Store S Bytes} {encode : Checkpoint → Bytes}
    {decode : Bytes → Option Checkpoint} {version : Bytes → String}
    {held : S → String → Option Bytes} (laws : IsStore store version held)
    (coded : IsCoded encode decode version) (key : String) where
  -- The checkpoint that a store has.
  abbrev pub stored : S → Option Checkpoint
  stored s = decoded decode (held s key)

  decoded-encoded :
      (current : Option Checkpoint) → decoded decode (encoded encode current) ≡ reread? current
  decoded-encoded none = refl
  decoded-encoded (some c) = coded.decode-encode c

  stored-IsFenced :
      (k : ℕ) (w : World S) (was : IsFenced laws coded key k w)
      → stored w.store ≡ reread? was.current
  stored-IsFenced k w was = ap (decoded decode) was.shown ∙ decoded-encoded was.current

  start-IsFenced : (s : S) → held s key ≡ none → IsFenced laws coded key 0 (start s)
  start-IsFenced s h = record {
    current = none;
    shown = h;
    bounded = omega arith;
    clients_know = λ i. tt;
  }

  reached-IsFenced :
      (s : S) (acts : List Action)
      → held s key ≡ none
      → suc (length acts) < 2 ^ 64
      → IsFenced laws coded key (length acts) (run store encode decode key acts (start s))
  reached-IsFenced s acts h room =
      subst (λ n. IsFenced laws coded key n (run store encode decode key acts (start s)))
        (omega arith)
        (run-IsFenced laws coded key acts 0 (start s) (start-IsFenced s h) (omega arith))

  -- Clients that race for a checkpoint, each with its reads and its conditional writes in any order
  -- between those of the others and with any faults of the store, implement a register with atomic
  -- operations: each half of a call leaves the stored checkpoint as it is, or claims it for an identity
  -- with the last committed state, or commits a state on top of the stored checkpoint. There was none at
  -- the start, and fewer than 2 ^ 64 actions.
  pub act-Change :
      (s : S) (acts : List Action) (a : Action)
      → held s key ≡ none
      → suc (length acts) < 2 ^ 64
      → let w = run store encode decode key acts (start s) in
        Change (stored w.store) (stored (act store encode decode key a w).store)
  act-Change s acts a h room =
      let w = run store encode decode key acts (start s) in
      let was = reached-IsFenced s acts h room in
      let next = act-Advanced laws coded key (length acts) w was a room in
      subst (λ v. Change v (stored (act store encode decode key a w).store))
        (sym (stored-IsFenced (length acts) w was))
        (subst (Change (reread? was.current))
          (sym (stored-IsFenced (suc (length acts)) (act store encode decode key a w) next.fenced))
          next.change)

  replaced-last :
      (current : Option Checkpoint) (o w' : Writer) (next : Checkpoint) (r : S × Outcome String)
      (sw : Swapped laws coded key current o.version next r)
      → Owns encode version current o
      → (and_then (fence_conflict store encode decode r) (renew laws coded key o next)).1 ≡ ok w'
      → (current ≡ some o.value)
        × (held
              (and_then (fence_conflict store encode decode r) (renew laws coded key o next)).0
              key
            ≡ encoded encode (some next))
        × (w'.value ≡ next)
  unfolding renew
  replaced-last current o w' next (s, ok v) sw owns e =
      let d = sw.done v refl in
      (
        Matches-Seen coded current o.value
            (subst (λ q. Matches version q (encoded encode current)) owns.0 d.2) owns.2,
        sw.shown ∙ ap (encoded encode) d.1,
        sym (ap (λ q. q.value) (ok-inj e)),
      )
  replaced-last current o w' next (s, err e') sw owns e = absurd (err_ne_ok e)

  replace_owned-stored :
      (k : ℕ) (w : World S) (was : IsFenced laws coded key k w) (o w' : Writer) (next : Checkpoint)
      → o.key ≡ key
      → Owns encode version was.current o
      → (replace_owned store encode decode o next w.store).1 ≡ ok w'
      → (stored w.store ≡ some (reread o.value))
        × (stored (replace_owned store encode decode o next w.store).0 ≡ some (reread next))
        × (w'.value ≡ next)
  unfolding replace_owned renew
  replace_owned-stored k w was o w' next at owns e =
      let sw = swap_at laws coded key was.current o.key o.version next w.store at was.shown in
      let l = replaced-last was.current o w' next _ sw owns e in
      (
        stored-IsFenced k w was ∙ ap reread? l.0,
        ap (decoded decode) l.1 ∙ coded.decode-encode next,
        l.2,
      )

  -- However calls interleave, a commit that succeeds replaces exactly the checkpoint that its writer
  -- wrote last, so that it overwrites no claim and no commit of another writer, and stores its own.
  pub replace_owned-last :
      (s : S) (acts : List Action) (i : ℕ) (o w' : Writer) (next : Checkpoint)
      → held s key ≡ none
      → suc (length acts) < 2 ^ 64
      → let w = run store encode decode key acts (start s) in
        w.clients i ≡ Client.committing o next
        → (replace_owned store encode decode o next w.store).1 ≡ ok w'
        → (stored w.store ≡ some (reread o.value))
          × (stored (replace_owned store encode decode o next w.store).0 ≡ some (reread next))
          × (w'.value ≡ next)
  replace_owned-last s acts i o w' next h room c e =
      let w = run store encode decode key acts (start s) in
      let was = reached-IsFenced s acts h room in
      let k = subst (Knows encode version key was.current) c (was.clients_know i) in
      replace_owned-stored (length acts) w was o w' next k.0 k.1 e

  check_passes :
      (o : Writer) (obj : Object Bytes) (d c : Checkpoint) (s : S)
      → (check_owned store encode decode o obj (some d) s).1 ≡ ok c
      → obj.version ≡ o.version
  check_passes o obj d c s e =
      elim (Bool-cases (
        not (d.writer == o.id)
        || not (d.generation == o.value.generation)
        || not (obj.version == o.version))) [
          | inl t ↦ absurd (err_ne_ok (rw t at e))
          | inr t ↦ eq_of_== obj.version o.version (
              third_passes (d.writer == o.id) (d.generation == o.value.generation)
                (obj.version == o.version) t)
        ]

  -- A writer that may commit has read the checkpoint that it wrote.
  owned-current :
      (current : Option Checkpoint) (o : Writer) (g : S × Outcome (Object Bytes)) (c : Checkpoint)
      → Owns encode version current o
      → ((obj : Object Bytes)
          → g.1 ≡ ok obj
          → (encoded encode current ≡ some obj.bytes) × (obj.version ≡ version obj.bytes))
      → (and_then g (λ obj. check_owned store encode decode o obj (decode obj.bytes))).1 ≡ ok c
      → current ≡ some o.value
  owned-current none o (s, ok obj) c owns found e = absurd (some_ne_none (sym (found obj refl).0))
    where
      some_ne_none : {A : Type 0} {a : A} → some a ≡ none → ⊥
      some_ne_none p = cc
  owned-current (some d) o (s, ok obj) c owns found e =
      let b : encode d ≡ obj.bytes = some-inj (found obj refl).0 in
      let r : decode obj.bytes ≡ some (reread d) = ap decode (sym b) ∙ coded.decode-encode d in
      let v : obj.version ≡ version (encode d) = (found obj refl).1 ∙ ap version (sym b) in
      let p =
        check_passes o obj (reread d) c s
          (subst (λ q. (check_owned store encode decode o obj q s).1 ≡ ok c) r e) in
      Matches-Seen coded (some d) o.value (sym owns.0 ∙ sym p ∙ v) owns.2
  owned-current current o (s, err e') c owns found e = absurd (err_ne_ok e)

  get_found_at :
      (s : S) (current : Option Checkpoint) (key' : String)
      → held s key ≡ encoded encode current
      → key' ≡ key
      → (obj : Object Bytes) → (store.get key' s).1 ≡ ok obj
      → (encoded encode current ≡ some obj.bytes) × (obj.version ≡ version obj.bytes)
  get_found_at s current key' shown at obj h =
      let f = laws.get_found s key' obj h in (sym shown ∙ ap (held s) (sym at) ∙ f.0, f.1)

  fenced_read :
      (s : S) (current : Option Checkpoint) (o : Writer) (state : String) (tombstones : List String)
      → held s key ≡ encoded encode current
      → o.key ≡ key
      → Owns encode version current o
      → current ≢ some o.value
      → ((e : StoreError) × ((commit store encode decode o state tombstones s).1 ≡ err e))
        × (held (commit store encode decode o state tombstones s).0 key ≡ held s key)
  unfolding commit read_owned replace_owned
  fenced_read s current o state tombstones shown at owns n =
      let found = get_found_at s current o.key shown at in
      let r =
        stopped (read_owned store encode decode o s)
          (λ q. replace_owned store encode decode o (committed state tombstones q))
          (λ c e. n (owned-current current o (store.get o.key s) c owns found e)) in
      let k =
        read_owned-Knows laws coded key current o state tombstones (store.get o.key s) at owns
          found in
      (
        r.0,
        ap (λ q. held q key) r.1
            ∙ k.0
            ∙ subst (λ q. held (store.get q s).0 key ≡ held s key) (sym at) (laws.get_same s key),
      )

  -- However calls interleave, a commit of a writer whose checkpoint is no longer the stored one returns
  -- an error and changes nothing.
  pub commit-fenced :
      (s : S) (acts : List Action) (i : ℕ) (o : Writer) (state : String) (tombstones : List String)
      → held s key ≡ none
      → suc (length acts) < 2 ^ 64
      → let w = run store encode decode key acts (start s) in
        w.clients i ≡ Client.owner o
        → stored w.store ≢ some (reread o.value)
        → ((e : StoreError) × ((commit store encode decode o state tombstones w.store).1 ≡ err e))
          × (stored (commit store encode decode o state tombstones w.store).0 ≡ stored w.store)
  commit-fenced s acts i o state tombstones h room c n =
      let w = run store encode decode key acts (start s) in
      let was = reached-IsFenced s acts h room in
      let k = subst (Knows encode version key was.current) c (was.clients_know i) in
      let f =
        fenced_read w.store was.current o state tombstones was.shown k.0 k.1
          (λ e. n (stored-IsFenced (length acts) w was ∙ ap reread? e)) in
      (f.0, ap (decoded decode) f.1)

  claimed-stored :
      (current : Option Checkpoint) (old id : String) (found previous : Checkpoint) (w : Writer)
      (r : S × Outcome String) (sw : Swapped laws coded key current old (claimed id found) r)
      → Found encode version current (old, found)
      → (and_then r (claimant laws coded key id found)).1 ≡ ok (w, previous)
      → (previous ≡ or_else (reread? current) no_checkpoint)
        × (held (and_then r (claimant laws coded key id found)).0 key
            ≡ encoded encode (some (claimed id previous)))
        × (w.value ≡ claimed id previous)
  unfolding claimant
  claimed-stored current old id found previous w (s, ok v) sw f e =
      let d = sw.done v refl in
      let p : found ≡ previous = ap (λ q. q.1) (ok-inj e) in
      (
        sym p ∙ sym (Found-Current laws coded key current old found f d.2).1,
        sw.shown ∙ ap (encoded encode) d.1 ∙ ap (λ q. some (encode (claimed id q))) p,
        sym (ap (λ q. q.0.value) (ok-inj e)) ∙ ap (claimed id) p,
      )
  claimed-stored current old id found previous w (s, err x) sw f e = absurd (err_ne_ok e)

  write_claim-stored :
      (s : S) (id : String) (w : Writer) (found : String × Checkpoint) (previous : Checkpoint)
      (current : Option Checkpoint)
      → held s key ≡ encoded encode current
      → Found encode version current found
      → (write_claim store encode decode key id found s).1 ≡ ok (w, previous)
      → (previous ≡ or_else (reread? current) no_checkpoint)
        × (held (write_claim store encode decode key id found s).0 key
            ≡ encoded encode (some (claimed id previous)))
        × (w.value ≡ claimed id previous)
  unfolding write_claim claimant
  write_claim-stored s id w (old, found) previous current shown f e =
      claimed-stored current old id found previous w _
        (swap_at laws coded key current key old (claimed id found) s refl shown) f e

  -- A claim that succeeds returns the last committed checkpoint, as the store had it, or a blank one. It
  -- stores a checkpoint of the next generation (a uint64) with the new writer and with the state and the
  -- tombstones of the old one, where no state reads back as the text `null`, and the writer knows it.
  pub claim-returns :
      (s : S) (id : String) (w : Writer) (previous : Checkpoint) (current : Option Checkpoint)
      → held s key ≡ encoded encode current
      → (claim store encode decode key id s).1 ≡ ok (w, previous)
      → (previous
          ≡ or_else
              (stored s)
              (record { generation = 0; writer = ""; state = none; tombstones = [] }))
        × (stored (claim store encode decode key id s).0
            ≡ some (record {
              generation = (previous.generation + 1) % 2 ^ 64;
              writer = id;
              state = some (or_else previous.state "null");
              tombstones = previous.tombstones;
            }))
        × (w.value ≡ record {
          generation = (previous.generation + 1) % 2 ^ 64;
          writer = id;
          state = previous.state;
          tombstones = previous.tombstones;
        })
  unfolding claim
  claim-returns s id w previous current shown e =
      let r = read_claim-Found laws coded key current s shown id in
      let o =
        went_on (read_claim store encode decode key id s)
          (λ found. write_claim store encode decode key id found) (w, previous) e in
      let f : Found encode version current o.0 =
        subst (λ q. Knows encode version key current (after_claim_read id q)) o.1 r.1 in
      let c =
        write_claim-stored (read_claim store encode decode key id s).0 id w o.0 previous current
          (r.0 ∙ shown) f o.2 in
      (
        c.0
            ∙ ap (λ q. or_else q no_checkpoint)
                (sym (ap (decoded decode) shown ∙ decoded-encoded current)),
        ap (stored) o.3 ∙ ap (decoded decode) c.1 ∙ coded.decode-encode (claimed id previous),
        c.2,
      )
