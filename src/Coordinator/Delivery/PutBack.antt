-- ===== src/Coordinator/Delivery/PutBack.antt =====
-- A segment that a process gives back stands at the front of its queue, and is accounted for.
use stark8s.Prelude.{
  ℕ, zero, suc, ◌≤◌, ◌<◌, pos_part, true, false, some, List, [], ◌∷◌, length, get_or, set,
  get_or-set_self, length-set, lookup, nat_beq, Bool-cases, string_eq, ◌≢◌, ◌⊎◌, inl, inr, ◌≡◌,
  refl, sym, subst, ap, ◌∙◌, arith,
}
use stark8s.Coordinator.State.{Channel}
use stark8s.Coordinator.Names.{segment_key}
use stark8s.Coordinator.Channels.{queue_at, set_queue, contains_segment}
use stark8s.Coordinator.Delivery.{key_of, Place, PlaceAt, NoDup, IsAccounted, index-ne, Place-at}
use stark8s.Coordinator.Delivery.Touched.{Touches}

-- A segment at the front of a queue.
abbrev pushed : List (List ℕ) → ℕ → ℕ → List (List ℕ)
pushed qs j p = set qs j (p ∷ get_or qs j [])

pushed-contains :
    (qs : List (List ℕ)) (j i x p : ℕ)
    → contains_segment (get_or qs i []) x ≡ true
    → contains_segment (get_or (pushed qs j p) i []) x ≡ true
pushed-contains [] j i x p h = h
pushed-contains (q ∷ qs) zero zero x p h = ground arith
pushed-contains (q ∷ qs) zero (suc i) x p h = h
pushed-contains (q ∷ qs) (suc j) zero x p h = h
pushed-contains (q ∷ qs) (suc j) (suc i) x p h = pushed-contains qs j i x p h

pushed-contains_cases :
    (qs : List (List ℕ)) (j i x p : ℕ)
    → contains_segment (get_or (pushed qs j p) i []) x ≡ true
    → ((p ≡ x) × (j ≡ i)) ⊎ (contains_segment (get_or qs i []) x ≡ true)
pushed-contains_cases [] j i x p h = inr h
pushed-contains_cases (q ∷ qs) zero zero x p h = ground arith
pushed-contains_cases (q ∷ qs) zero (suc i) x p h = inr h
pushed-contains_cases (q ∷ qs) (suc j) zero x p h = inr h
pushed-contains_cases (q ∷ qs) (suc j) (suc i) x p h = elim (pushed-contains_cases qs j i x p h) [
  | inl (e, e') ↦ inl (e, ap suc e')
  | inr old ↦ inr old
]

pushed-NoDup :
    (qs : List (List ℕ)) (j p : ℕ)
    → ((i : ℕ) → NoDup (get_or qs i []))
    → contains_segment (get_or qs j []) p ≡ false
    → (i : ℕ) → NoDup (get_or (pushed qs j p) i [])
pushed-NoDup [] j p h new i = tt
pushed-NoDup (q ∷ qs) zero p h new zero = (new, h 0)
pushed-NoDup (q ∷ qs) zero p h new (suc i) = h (suc i)
pushed-NoDup (q ∷ qs) (suc j) p h new zero = h 0
pushed-NoDup (q ∷ qs) (suc j) p h new (suc i) = pushed-NoDup qs j p (λ k. h (suc k)) new i

module _ (c c1 : Channel) (p : ℕ) (v : IsAccounted c) (t : Touches c p c1) (l : p < c.fresh)
    (needed : (c.heap p).released ≡ false) (same_indexes : c1.index ≡ c.index)
    (idle : (c1.heap p).delivered ≡ [])
    (free : (i x : ℕ) → contains_segment (get_or c.queues i []) x ≡ true → p ≢ x) where
  back : Channel
  back = set_queue c1 (c1.heap p).part (p ∷ queue_at c1 (c1.heap p).part)

  home : ℕ
  home = pos_part (c.heap p).part

  back-queues : back.queues ≡ pushed c.queues home p
  unfolding back home
  back-queues = rw (t.same_queues, t.same_part) refl

  -- What is known of each segment of the channel in the new one.
  key_kept : (x : ℕ) → key_of c1 x ≡ key_of c x
  key_kept x = elim (Bool-cases (nat_beq p x)) [
    | inl is ↦ subst (λ z. key_of c1 z ≡ key_of c z) (ground (arith, is)) t.same_key
    | inr other ↦ ap (λ s. segment_key s.holder s.id) (t.elsewhere x (ground (arith, other)))
  ]

  part_kept : (x : ℕ) → (c1.heap x).part ≡ (c.heap x).part
  part_kept x = elim (Bool-cases (nat_beq p x)) [
    | inl is ↦ subst (λ z. (c1.heap z).part ≡ (c.heap z).part) (ground (arith, is)) t.same_part
    | inr other ↦ ap (λ s. s.part) (t.elsewhere x (ground (arith, other)))
  ]

  stays :
      (x : ℕ)
      → key_of c p ≢ key_of c x
      → (contains_segment c.held x ≡ true) ⊎ (lookup c.inflight (key_of c x) ≡ some x)
      → PlaceAt back (c.heap x).part (key_of c x) x
  unfolding back
  stays x ne (inl held) =
      inr (inl (subst (λ hs. contains_segment hs x ≡ true) (sym t.same_held) held))
  stays x ne (inr flying) = inr (inr (t.same_inflight (key_of c x) ne ∙ flying))

  released_kept : (x : ℕ) → (c1.heap x).released ≡ false → (c.heap x).released ≡ false
  released_kept x h = elim (Bool-cases (nat_beq p x)) [
    | inl is ↦ subst (λ z. (c.heap z).released ≡ false) (ground (arith, is)) needed
    | inr other ↦ ap (λ s. s.released) (sym (t.elsewhere x (ground (arith, other)))) ∙ h
  ]

  indexed_kept :
      (x : ℕ) → lookup c.index (key_of c x) ≡ some x → lookup c1.index (key_of c1 x) ≡ some x
  indexed_kept x h =
      ap (λ m. lookup m (key_of c1 x)) same_indexes ∙ ap (lookup c.index) (key_kept x) ∙ h

  back-Place :
      (x : ℕ)
      → lookup c.index (key_of c x) ≡ some x
      → Place c x
      → PlaceAt back (c.heap x).part (key_of c x) x
  unfolding home
  back-Place x indexed place = elim (Bool-cases (nat_beq p x)) [
    | inl is ↦ inl (
        subst (λ z. contains_segment (queue_at back (c.heap z).part) z ≡ true) (ground (arith, is))
          (subst (λ qs. contains_segment (get_or qs home []) p ≡ true) (sym back-queues)
            (rw
              (get_or-set_self c.queues home (p ∷ get_or c.queues home []) []
                (v.places p l needed).1)
              (ground arith))))
    | inr other ↦ elim place [
      | inl q ↦ inl (
          subst (λ qs. contains_segment (get_or qs (pos_part (c.heap x).part) []) x ≡ true)
            (sym back-queues) (pushed-contains c.queues home (pos_part (c.heap x).part) x p q))
      | inr rest ↦
          stays x
            (index-ne c.index (key_of c p) (key_of c x) p x (v.places p l needed).0 indexed
              (ground (arith, other)))
            rest
    ]
  ]

  back-length : length back.queues ≡ length c.queues
  back-length = ap length back-queues ∙ length-set c.queues home (p ∷ get_or c.queues home [])

  back-queued :
      (i x : ℕ)
      → contains_segment (get_or (pushed c.queues home p) i []) x ≡ true
      → (x < c1.fresh)
        × (lookup c1.index (key_of c1 x) ≡ some x)
        × (pos_part (c1.heap x).part ≡ i)
        × ((c1.heap x).delivered ≡ [])
  unfolding home
  back-queued i x q = elim (pushed-contains_cases c.queues home i x p q) [
    | inl (is, at) ↦
        subst
          (λ z.
            (z < c1.fresh)
            × (lookup c1.index (key_of c1 z) ≡ some z)
            × (pos_part (c1.heap z).part ≡ i)
            × ((c1.heap z).delivered ≡ []))
          is
          (
            subst (λ n. p < n) (sym t.same_fresh) l,
            indexed_kept p (v.places p l needed).0,
            ap pos_part t.same_part ∙ at,
            idle,
          )
    | inr old ↦
        let (lx, indexed, part, empty) = v.queued i x old in
        (
          subst (λ n. x < n) (sym t.same_fresh) lx,
          indexed_kept x indexed,
          ap pos_part (part_kept x) ∙ part,
          ap (λ s. s.delivered) (t.elsewhere x (free i x old)) ∙ empty,
        )
  ]

  pub not_pending : contains_segment (get_or c.queues (pos_part (c.heap p).part) []) p ≡ false
  unfolding home
  not_pending = elim (Bool-cases (contains_segment (get_or c.queues home []) p)) [
    | inl q ↦ absurd (free home p q refl)
    | inr none' ↦ none'
  ]

  back-exclusive : (x : ℕ) → x < c1.fresh → length (c1.heap x).delivered ≤ 1
  back-exclusive x lx = elim (Bool-cases (nat_beq p x)) [
    | inl is ↦
        let e : p ≡ x = ground (arith, is) in
        subst (λ z. length (c1.heap z).delivered ≤ 1) e (rw idle (omega arith))
    | inr other ↦
        subst (λ s. length s.delivered ≤ 1) (sym (t.elsewhere x (ground (arith, other))))
          (v.exclusive x (subst (λ n. x < n) t.same_fresh lx))
  ]

  pub back-IsAccounted :
      IsAccounted (set_queue c1 (c1.heap p).part (p ∷ queue_at c1 (c1.heap p).part))
  unfolding back home
  back-IsAccounted = record {
    places = λ x lx needed'.
        let (indexed, range, place) =
          v.places x (subst (λ n. x < n) t.same_fresh lx) (released_kept x needed') in
        (
          indexed_kept x indexed,
          subst (λ n. pos_part (c1.heap x).part < n) (sym back-length)
              (subst (λ n. pos_part n < length c.queues) (sym (part_kept x)) range),
          Place-at back (c.heap x).part (key_of c x) x (part_kept x) (key_kept x)
              (back-Place x indexed place),
        );
    queued = λ i x q.
        back-queued i x (subst (λ qs. contains_segment (get_or qs i []) x ≡ true) back-queues q);
    once = λ i.
        subst (λ qs. NoDup (get_or qs i [])) (sym back-queues)
          (pushed-NoDup c.queues home p v.once not_pending i);
    exclusive = back-exclusive;
  }

  pub back-front :
      get_or
        (set_queue c1 (c1.heap p).part (p ∷ queue_at c1 (c1.heap p).part)).queues
        (pos_part (c.heap p).part)
        []
      ≡ p ∷ get_or c.queues (pos_part (c.heap p).part) []
  unfolding back home
  back-front =
      ap (λ qs. get_or qs (pos_part (c.heap p).part) []) back-queues
      ∙ get_or-set_self c.queues (pos_part (c.heap p).part)
          (p ∷ get_or c.queues (pos_part (c.heap p).part) []) [] (v.places p l needed).1
