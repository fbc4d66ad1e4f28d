-- ===== src/Storage/Race/Steps.antt =====
-- pkg/storage/checkpoint.go: every half of a call keeps what the clients know of the checkpoint, and
-- changes the checkpoint as one atomic claim or commit, or not at all.
use stark8s.Prelude.{
  some-inj, ℕ, suc, ◌≤◌, String, Option, none, some, List, ◌==◌, nat_beq, ◌≡◌, ◌⊎◌, inl, inr, refl,
  sym, ap, subst, ◌∙◌, or_else, Bool-cases, arith, string_eq, nat_eq,
}
use stark8s.Storage.Objects.{StoreError, is_not_found, Outcome, ok, err, Object, Store}
use stark8s.Storage.Objects.Laws.{IsStore, Matches}
use stark8s.Storage.Checkpoint.{
  Checkpoint, no_checkpoint, claimed, committed, reread, read_claim, claim_read,
}
use stark8s.Storage.Race.{Client, World, step, after_claim_read}
use stark8s.Storage.Race.Fencing.{gen_of, encoded, IsCoded, Knows, Knows-later}

pub err_ne_ok : {A : Type 0} {a : A} {e : StoreError} → err e ≡ ok a → ⊥
err_ne_ok p = cc

pub ok-inj : {A : Type 0} {a b : A} → ok a ≡ ok b → a ≡ b
ok-inj p = cc

pub Outcome-cases :
    {A : Type 0} (o : Outcome A) → ((a : A) × (o ≡ ok a)) ⊎ ((e : StoreError) × (o ≡ err e))
Outcome-cases (ok a) = inl (a, refl)
Outcome-cases (err e) = inr (e, refl)

-- The abstract register: it is claimed, or its owner commits, in one step each.
pub data Change (v v' : Option Checkpoint) : Type 0 where
  stays : v' ≡ v → Change v v'
  claims : (id : String) → v' ≡ some (reread (claimed id (or_else v no_checkpoint))) → Change v v'
  commits :
      (c : Checkpoint) (state : String) (tombstones : List String)
      → v ≡ some c
      → v' ≡ some (committed state tombstones c)
      → Change v v'

abbrev pub reread? : Option Checkpoint → Option Checkpoint
reread? none = none
reread? (some c) = some (reread c)

abbrev pub Grown : Option Checkpoint → Option Checkpoint → Type 0
Grown current after = (after ≡ current) ⊎ (gen_of after ≡ suc (gen_of current))

module _ {S Bytes : Type 0} {store : Store S Bytes} {encode : Checkpoint → Bytes}
    {decode : Bytes → Option Checkpoint} {version : Bytes → String}
    {held : S → String → Option Bytes} (laws : IsStore store version held)
    (coded : IsCoded encode decode version) (key : String) where
  -- After `k` actions.
  pub record IsFenced (k : ℕ) (w : World S) : Type 0 where
    pub current : Option Checkpoint
    pub shown : held w.store key ≡ encoded encode current
    pub bounded : gen_of current ≤ k
    pub clients_know : (i : ℕ) → Knows encode version key current (w.clients i)

  pub record Advanced (k : ℕ) (w : World S) (was : IsFenced k w) (w' : World S) : Type 0 where
    pub fenced : IsFenced (suc k) w'
    pub change : Change (reread? was.current) (reread? fenced.current)

  pub Knows-Grown :
      (current after : Option Checkpoint) (c : Client)
      → Grown current after
      → Knows encode version key current c
      → Knows encode version key after c
  Knows-Grown current after c (inl e) k = subst (λ o. Knows encode version key o c) (sym e) k
  Knows-Grown current after c (inr e) k = Knows-later coded key current after c (omega (arith, e)) k

  gen-Grown :
      (current after : Option Checkpoint) (k : ℕ)
      → Grown current after
      → gen_of current ≤ k
      → gen_of after ≤ suc k
  gen-Grown current after k (inl e) h = omega (arith, ap gen_of e)
  gen-Grown current after k (inr e) h = omega arith

  pub step-Advanced :
      {A : Type 0} (k : ℕ) (w : World S) (was : IsFenced k w) (i : ℕ) (r : S × Outcome A)
      (f : Outcome A → Client) (after : Option Checkpoint)
      → held r.0 key ≡ encoded encode after
      → Grown was.current after
      → Knows encode version key after (f r.1)
      → Change (reread? was.current) (reread? after)
      → Advanced k w was (step w i r f)
  step-Advanced k w was i r f after shown grown new change = record {
    fenced = record {
      current = after;
      shown = shown;
      bounded = gen-Grown was.current after k grown was.bounded;
      clients_know = λ j. elim (Bool-cases (nat_beq i j)) [
        | inl t ↦ rw t new
        | inr t ↦ rw t (Knows-Grown was.current after (w.clients j) grown (was.clients_know j))
      ];
    };
    change = change;
  }

  -- A call that only reads.
  pub same-Advanced :
      {A : Type 0} (k : ℕ) (w : World S) (was : IsFenced k w) (i : ℕ) (r : S × Outcome A)
      (f : Outcome A → Client)
      → held r.0 key ≡ held w.store key
      → Knows encode version key was.current (f r.1)
      → Advanced k w was (step w i r f)
  same-Advanced k w was i r f h new =
      step-Advanced k w was i r f was.current (h ∙ was.shown) (inl refl) new (Change.stays refl)

  pub idle-Advanced : (k : ℕ) (w : World S) (was : IsFenced k w) → Advanced k w was w
  idle-Advanced k w was = record {
    fenced = record {
      current = was.current;
      shown = was.shown;
      bounded = omega (arith, was.bounded);
      clients_know = was.clients_know;
    };
    change = Change.stays refl;
  }

  -- The claim has read the current checkpoint, or none.
  claim_read-Found :
      (current : Option Checkpoint) (g : S × Outcome (Object Bytes))
      → ((o : Object Bytes)
          → g.1 ≡ ok o
          → (encoded encode current ≡ some o.bytes) × (o.version ≡ version o.bytes))
      → (g.1 ≡ err StoreError.not_found → encoded encode current ≡ none)
      → (held (claim_read store encode decode g).0 key ≡ held g.0 key)
        × ((id : String)
            → Knows encode version key current
                (after_claim_read id (claim_read store encode decode g).1))
  claim_read-Found none (s, ok o) found missing = absurd (some_ne_none (sym (found o refl).0))
    where
      some_ne_none : {A : Type 0} {a : A} → some a ≡ none → ⊥
      some_ne_none p = cc
  claim_read-Found (some c) (s, ok o) found missing =
      let e : encode c ≡ o.bytes = some-inj (found o refl).0 in
      let d : decode o.bytes ≡ some (reread c) = ap decode (sym e) ∙ coded.decode-encode c in
      let v : o.version ≡ version (encode c) = (found o refl).1 ∙ ap version (sym e) in
      rw d (refl, λ id. inr (c, v, refl, (omega arith, λ _. refl)))
  claim_read-Found current (s, err e) found missing = elim (Bool-cases (is_not_found e)) [
    | inl t ↦ rw t (refl, λ id. inl (refl, refl))
    | inr t ↦ rw t (refl, λ id. tt)
  ]

  pub read_claim-Found :
      (current : Option Checkpoint) (s : S)
      → held s key ≡ encoded encode current
      → (id : String)
      → (held (read_claim store encode decode key id s).0 key ≡ held s key)
        × Knows encode version key current
            (after_claim_read id (read_claim store encode decode key id s).1)
  unfolding read_claim
  read_claim-Found current s shown id = elim (Bool-cases (id == "")) [
    | inl t ↦ rw t (refl, tt)
    | inr t ↦
        let r =
          claim_read-Found current (store.get key s)
            (λ o h. (sym shown ∙ (laws.get_found s key o h).0, (laws.get_found s key o h).1))
            (λ h. sym shown ∙ laws.get_missing s key h) in
        rw t (r.0 ∙ laws.get_same s key, r.1 id)
  ]

  -- What a conditional write leaves and returns.
  pub record Swapped (current : Option Checkpoint) (old : String) (next : Checkpoint)
      (r : S × Outcome String) : Type 0 where
    pub after : Option Checkpoint
    pub shown : held r.0 key ≡ encoded encode after
    pub moved :
        (after ≡ current) ⊎ ((after ≡ some next) × Matches version old (encoded encode current))
    pub done :
        (v : String)
        → r.1 ≡ ok v
        → (v ≡ version (encode next))
          × (after ≡ some next)
          × Matches version old (encoded encode current)

  pub swap-Swapped :
      (current : Option Checkpoint) (old : String) (next : Checkpoint) (s : S)
      → held s key ≡ encoded encode current
      → Swapped current old next (store.compare_and_swap key old (encode next) s)
  swap-Swapped current old next s shown =
      elim (Outcome-cases (store.compare_and_swap key old (encode next) s).1) [
        | inl (v, h) ↦
            let d = laws.swap_done s key old v (encode next) h in
            let m = subst (Matches version old) shown d.2 in
            record {
              after = some next;
              shown = d.1;
              moved = inr (refl, m);
              done = λ v' h'. ((laws.swap_done s key old v' (encode next) h').0, refl, m);
            }
        | inr (e, h) ↦ elim (laws.swap_failed s key old (encode next) e h) [
          | inl same ↦ record {
            after = current;
            shown = same ∙ shown;
            moved = inl refl;
            done = λ v' h'. absurd (err_ne_ok (sym h ∙ h'));
          }
          | inr (new, m) ↦ record {
            after = some next;
            shown = new;
            moved = inr (refl, subst (Matches version old) shown m);
            done = λ v' h'. absurd (err_ne_ok (sym h ∙ h'));
          }
        ]
      ]

  -- The same at the key of a writer.
  pub swap_at :
      (current : Option Checkpoint) (key' old : String) (next : Checkpoint) (s : S)
      → key' ≡ key
      → held s key ≡ encoded encode current
      → Swapped current old next (store.compare_and_swap key' old (encode next) s)
  swap_at current key' old next s at shown =
      subst (λ q. Swapped current old next (store.compare_and_swap q old (encode next) s)) (sym at)
        (swap-Swapped current old next s shown)
