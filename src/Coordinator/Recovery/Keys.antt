-- ===== src/Coordinator/Recovery/Keys.antt =====
-- `rebindHeldSegments` of pkg/coordinator/coordinator.go: the keys of the segments afterwards.
use stark8s.Prelude.{
  ℕ, String, Bool, true, false, none, some, some-inj, [], ◌∷◌, All, Map, nat_beq, lookup, delete,
  lookup-insert_self, lookup-insert_ne, lookup-delete_ne, ◌==◌, ==-refl, eq_of_==, if◌then◌else◌,
  if_true, if_false, string_eq, Bool-cases, Option-cases, ◌⊎◌, inl, inr, ◌≡◌, ◌≢◌, refl, sym, ap,
  subst, ◌∙◌, arith,
}
use stark8s.Coordinator.State.{Segment, Channel}
use stark8s.Coordinator.Names.{segment_key}
use stark8s.Coordinator.Persistence.Keyed.{holder_key}
use stark8s.Coordinator.Recovery.{move_inflight, rebind_segment, rebind_all}
use stark8s.Coordinator.Recovery.Rebound.{
  rehomed, rehomed_twice, stays, rehomed-moves, moved, rebind_segment-stays, rebind_segment-moves,
  rebind_segment-heap,
}

module _ (self_addr : String) where
  -- The key of a segment once it is rehomed, which the loop does not change.
  abbrev pub home_key : Segment → String
  home_key s = holder_key (rehomed self_addr s)

  home_key-rebind :
      (key : String) (p : ℕ) (c : Channel) (x : ℕ)
      → home_key ((rebind_segment self_addr key p c).heap x) ≡ home_key (c.heap x)
  home_key-rebind key p c x =
      ap home_key (rebind_segment-heap self_addr key p c x) ∙ same (nat_beq p x)
    where
      same :
          (b : Bool)
          → home_key (if b then rehomed self_addr (c.heap x) else c.heap x) ≡ home_key (c.heap x)
      same true = ap holder_key (rehomed_twice self_addr (c.heap x))
      same false = refl

  home_key-moves :
      (s : Segment) → stays self_addr s ≡ false → home_key s ≡ segment_key self_addr s.id
  home_key-moves s h = ap holder_key (rehomed-moves self_addr s h)

  -- An entry is the one with the pointer `p` under `k`, or its keys are none of `k` and `t`.
  abbrev pub Split : Channel → String → ℕ → String → String × ℕ → Type 0
  Split c k p t e =
      ((e.0 ≡ k) × (e.1 ≡ p))
      ⊎ ((e.0 ≢ k) × (e.0 ≢ t) × (home_key (c.heap e.1) ≢ t) × (home_key (c.heap e.1) ≢ k))

  Split-rebind :
      (key : String) (q : ℕ) (c : Channel) (k : String) (p : ℕ) (t : String) (m : Map String ℕ)
      → All (Split c k p t) m
      → All (Split (rebind_segment self_addr key q c) k p t) m
  Split-rebind key q c k p t [] h = tt
  Split-rebind key q c k p t (e ∷ m) h = (one h.0, Split-rebind key q c k p t m h.1)
    where
      one : Split c k p t e → Split (rebind_segment self_addr key q c) k p t e
      one (inl same) = inl same
      one (inr (a, b, d, f)) = inr (
        a,
        b,
        (λ i. d (sym (home_key-rebind key q c e.1) ∙ i)),
        (λ i. f (sym (home_key-rebind key q c e.1) ∙ i)),
      )

  -- The entry is in place already, or it will be moved.
  abbrev pub IsReady : (Channel → Map String ℕ) → String → ℕ → String → Channel → Type 0
  IsReady get k p t c =
      (home_key (c.heap p) ≡ t)
      × ((lookup (get c) t ≡ some p)
          ⊎ ((lookup (get c) k ≡ some p) × (stays self_addr (c.heap p) ≡ false)))

  -- A map that the loop moves entries of.
  pub record IsMoved (get : Channel → Map String ℕ) : Type 0 where
    -- The step of the entry itself settles it.
    pub settles :
        (c : Channel) (k : String) (p : ℕ)
        → stays self_addr (c.heap p) ≡ false
        → (lookup (get c) k ≡ some p)
          ⊎ (lookup (get c) (segment_key self_addr (c.heap p).id) ≡ some p)
        → lookup (get (moved self_addr k p c)) (segment_key self_addr (c.heap p).id) ≡ some p
    -- A step leaves all other keys.
    pub leaves :
        (c : Channel) (k : String) (p : ℕ) (i : String)
        → k ≢ i
        → segment_key self_addr (c.heap p).id ≢ i
        → lookup (get (moved self_addr k p c)) i ≡ lookup (get c) i

  pub index-IsMoved : IsMoved (λ c. c.index)
  index-IsMoved = record {
    settles =
        λ c k p h r. lookup-insert_self (delete c.index k) (segment_key self_addr (c.heap p).id) p;
    leaves = λ c k p i n n'.
        lookup-insert_ne (delete c.index k) (segment_key self_addr (c.heap p).id) p i n'
        ∙ lookup-delete_ne c.index k i n;
  }

  move_inflight-settles :
      (k new : String) (p : ℕ) (m : Map String ℕ)
      → (lookup m k ≡ some p) ⊎ (lookup m new ≡ some p)
      → lookup (move_inflight k new p m) new ≡ some p
  move_inflight-settles k new p m r = elim (Option-cases (lookup m k)) [
    | inl n ↦ rw (move_inflight, n) (waits r n)
    | inr (q, e) ↦ elim (Bool-cases (nat_beq q p)) [
      | inl same ↦ rw (move_inflight, e, same) (lookup-insert_self (delete m k) new p)
      | inr other ↦ rw (move_inflight, e, other) (stays_there r q e other)
    ]
  ]
    where
      waits :
          (lookup m k ≡ some p) ⊎ (lookup m new ≡ some p)
          → lookup m k ≡ none
          → lookup m new ≡ some p
      waits (inl h) n = absurd (ground (arith, sym n ∙ h))
      waits (inr h) n = h

      stays_there :
          (lookup m k ≡ some p) ⊎ (lookup m new ≡ some p)
          → (q : ℕ) → lookup m k ≡ some q
          → nat_beq q p ≡ false
          → lookup m new ≡ some p
      stays_there (inl h) q e other = absurd (ground (arith, other, some-inj (sym e ∙ h)))
      stays_there (inr h) q e other = h

  move_inflight-leaves :
      (k new : String) (p : ℕ) (m : Map String ℕ) (i : String)
      → k ≢ i
      → new ≢ i
      → lookup (move_inflight k new p m) i ≡ lookup m i
  move_inflight-leaves k new p m i n n' = elim (Option-cases (lookup m k)) [
    | inl e ↦ rw (move_inflight, e) refl
    | inr (q, e) ↦ elim (Bool-cases (nat_beq q p)) [
      | inl same ↦
          rw (move_inflight, e, same)
            (lookup-insert_ne (delete m k) new p i n' ∙ lookup-delete_ne m k i n)
      | inr other ↦ rw (move_inflight, e, other) refl
    ]
  ]

  pub inflight-IsMoved : IsMoved (λ c. c.inflight)
  inflight-IsMoved = record {
    settles =
        λ c k p h r. move_inflight-settles k (segment_key self_addr (c.heap p).id) p c.inflight r;
    leaves = λ c k p i n n'.
        move_inflight-leaves k (segment_key self_addr (c.heap p).id) p c.inflight i n n';
  }

  module _ (get : Channel → Map String ℕ) (is_moved : IsMoved get) (k : String) (p : ℕ)
      (t : String) where
    -- A segment that is moved has the key at the coordinator.
    at_home :
        (c : Channel)
        → stays self_addr (c.heap p) ≡ false
        → home_key (c.heap p) ≡ t
        → segment_key self_addr (c.heap p).id ≡ t
    at_home c h e = sym (home_key-moves (c.heap p) h) ∙ e

    moved-own :
        (c : Channel)
        → stays self_addr (c.heap p) ≡ false
        → home_key (c.heap p) ≡ t
        → (lookup (get c) k ≡ some p) ⊎ (lookup (get c) t ≡ some p)
        → lookup (get (moved self_addr k p c)) t ≡ some p
    moved-own c h e (inl r) =
        subst (λ i. lookup (get (moved self_addr k p c)) i ≡ some p) (at_home c h e)
          (is_moved.settles c k p h (inl r))
    moved-own c h e (inr r) =
        subst (λ i. lookup (get (moved self_addr k p c)) i ≡ some p) (at_home c h e)
          (is_moved.settles c k p h (inr (ap (lookup (get c)) (at_home c h e) ∙ r)))

    moved-other :
        (c : Channel) (key : String) (q : ℕ) (i : String)
        → stays self_addr (c.heap q) ≡ false
        → key ≢ i
        → home_key (c.heap q) ≢ i
        → lookup (get (moved self_addr key q c)) i ≡ lookup (get c) i
    moved-other c key q i h n n' =
        is_moved.leaves c key q i n (λ e. n' (home_key-moves (c.heap q) h ∙ e))

    step-own :
        (c : Channel)
        → IsReady get k p t c
        → lookup (get (rebind_segment self_addr k p c)) t ≡ some p
    step-own c r = elim (Bool-cases (stays self_addr (c.heap p))) [
      | inl h ↦ ap (λ q. lookup (get q) t) (rebind_segment-stays self_addr k p c h) ∙ there h r.1
      | inr h ↦
          ap (λ q. lookup (get q) t) (rebind_segment-moves self_addr k p c h)
          ∙ moved-own c h r.0 (either r.1)
    ]
      where
        there :
            stays self_addr (c.heap p) ≡ true
            → (lookup (get c) t ≡ some p)
              ⊎ ((lookup (get c) k ≡ some p) × (stays self_addr (c.heap p) ≡ false))
            → lookup (get c) t ≡ some p
        there h (inl e) = e
        there h (inr e) = absurd (ground (arith, sym h ∙ e.1))

        either :
            (lookup (get c) t ≡ some p)
              ⊎ ((lookup (get c) k ≡ some p) × (stays self_addr (c.heap p) ≡ false))
            → (lookup (get c) k ≡ some p) ⊎ (lookup (get c) t ≡ some p)
        either (inl e) = inr e
        either (inr e) = inl e.0

    step-settled :
        (c : Channel) (key : String) (q : ℕ)
        → Split c k p t (key, q)
        → home_key (c.heap p) ≡ t
        → lookup (get c) t ≡ some p
        → lookup (get (rebind_segment self_addr key q c)) t ≡ some p
    step-settled c key q (inl same) e h =
        subst (λ i. lookup (get (rebind_segment self_addr i q c)) t ≡ some p) (sym same.0)
          (subst (λ i. lookup (get (rebind_segment self_addr k i c)) t ≡ some p) (sym same.1)
            (step-own c (e, inl h)))
    step-settled c key q (inr other) e h = elim (Bool-cases (stays self_addr (c.heap q))) [
      | inl u ↦ ap (λ d. lookup (get d) t) (rebind_segment-stays self_addr key q c u) ∙ h
      | inr u ↦
          ap (λ d. lookup (get d) t) (rebind_segment-moves self_addr key q c u)
          ∙ moved-other c key q t u other.1 other.2
          ∙ h
    ]

    loop-settled :
        (m : Map String ℕ) (c : Channel)
        → All (Split c k p t) m
        → home_key (c.heap p) ≡ t
        → lookup (get c) t ≡ some p
        → lookup (get (rebind_all self_addr m c)) t ≡ some p
    loop-settled [] c a e h = h
    loop-settled ((key, q) ∷ m) c a e h =
        loop-settled m (rebind_segment self_addr key q c) (Split-rebind key q c k p t m a.1)
          (home_key-rebind key q c p ∙ e) (step-settled c key q a.0 e h)

    step-IsReady :
        (c : Channel) (key : String) (q : ℕ)
        → (key ≢ k) × (key ≢ t) × (home_key (c.heap q) ≢ t) × (home_key (c.heap q) ≢ k)
        → IsReady get k p t c
        → IsReady get k p t (rebind_segment self_addr key q c)
    step-IsReady c key q n r = elim (Bool-cases (stays self_addr (c.heap q))) [
      | inl u ↦ subst (IsReady get k p t) (sym (rebind_segment-stays self_addr key q c u)) r
      | inr u ↦ (home_key-rebind key q c p ∙ r.0, still u r.1)
    ]
      where
        apart : q ≢ p
        apart e = n.2 (ap (λ i. home_key (c.heap i)) e ∙ r.0)

        same_heap : (rebind_segment self_addr key q c).heap p ≡ c.heap p
        same_heap =
            rebind_segment-heap self_addr key q c p
            ∙ if_false (nat_beq q p) _ _ (ground (arith, apart))

        still :
            stays self_addr (c.heap q) ≡ false
            → (lookup (get c) t ≡ some p)
              ⊎ ((lookup (get c) k ≡ some p) × (stays self_addr (c.heap p) ≡ false))
            → (lookup (get (rebind_segment self_addr key q c)) t ≡ some p)
              ⊎ ((lookup (get (rebind_segment self_addr key q c)) k ≡ some p)
                  × (stays self_addr ((rebind_segment self_addr key q c).heap p) ≡ false))
        still u (inl e) = inl (
            ap (λ d. lookup (get d) t) (rebind_segment-moves self_addr key q c u)
            ∙ moved-other c key q t u n.1 n.2
            ∙ e)
        still u (inr e) = inr (
          ap (λ d. lookup (get d) k) (rebind_segment-moves self_addr key q c u)
              ∙ moved-other c key q k u n.0 n.3
              ∙ e.0,
          ap (stays self_addr) same_heap ∙ e.1,
        )

    -- Once the loop is over, the entry is under the key of its segment.
    pub loop-IsReady :
        (m : Map String ℕ) (c : Channel)
        → lookup m k ≡ some p
        → All (Split c k p t) m
        → IsReady get k p t c
        → lookup (get (rebind_all self_addr m c)) t ≡ some p
    unfolding lookup
    loop-IsReady [] c e a r = absurd (ground (arith, e))
    loop-IsReady ((key, q) ∷ m) c e a r = elim (Bool-cases (key == k)) [
      | inl same ↦
          loop-settled m (rebind_segment self_addr key q c) (Split-rebind key q c k p t m a.1)
            (home_key-rebind key q c p ∙ r.0)
            (own (eq_of_== key k same) (some-inj (sym (if_true (key == k) _ _ same) ∙ e)))
      | inr other ↦ elim a.0 [
        | inl same ↦ absurd (ground (arith, sym other ∙ ap (λ i. i == k) same.0 ∙ ==-refl k))
        | inr n ↦
            loop-IsReady m (rebind_segment self_addr key q c)
              (sym (if_false (key == k) _ _ other) ∙ e) (Split-rebind key q c k p t m a.1)
              (step-IsReady c key q n r)
      ]
    ]
      where
        own : key ≡ k → q ≡ p → lookup (get (rebind_segment self_addr key q c)) t ≡ some p
        own same same' =
            subst (λ i. lookup (get (rebind_segment self_addr i q c)) t ≡ some p) (sym same)
              (subst (λ i. lookup (get (rebind_segment self_addr k i c)) t ≡ some p) (sym same')
                (step-own c r))
