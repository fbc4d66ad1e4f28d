-- ===== src/Coordinator/Delivery/Indexed.antt =====
-- A new segment is accounted for (`index` of pkg/coordinator/coordinator.go).
use stark8s.Prelude.{
  ℕ, suc, ◌≤◌, ◌<◌, pos_part, String, true, false, none, some, [], length, get_or, lookup, has, Map,
  Option-cases, is_some, nat_beq, Bool-cases, string_eq, ◌≢◌, inl, inr, ◌≡◌, refl, sym, subst, ap,
  ◌∙◌, arith,
}
use stark8s.Graph.{is_broadcast}
use stark8s.Coordinator.State.{Segment, Channel}
use stark8s.Coordinator.Names.{segment_key}
use stark8s.Coordinator.Channels.{contains_segment, broadcast}
use stark8s.Coordinator.Segments.{record_segment, place_segment, index_segment, with_append_id}
use stark8s.Coordinator.Delivery.{key_of, Place, PlaceAt, NoDup, IsAccounted, Place-at}
use stark8s.Coordinator.Delivery.Placed.{
  IsRecorded, IsPlaced, record_segment-IsRecorded, place_segment-IsPlaced,
}

none_of_has : (m : Map String ℕ) (k : String) → has m k ≡ false → lookup m k ≡ none
none_of_has m k h = elim (Option-cases (lookup m k)) [
  | inl free ↦ free
  | inr (a, taken) ↦ absurd (ground (arith, sym h ∙ ap is_some taken))
]

module _ (c : Channel) (s : Segment) (c1 c2 : Channel) (v : IsAccounted c) (r : IsRecorded c s c1)
    (t : IsPlaced c1 c.fresh c2) (range : pos_part s.part < length c.queues)
    (unseen : lookup c.index (segment_key s.holder s.id) ≡ none) where
  old_key : (x : ℕ) → x < c.fresh → key_of c2 x ≡ key_of c x
  old_key x l = t.same_key x ∙ ap (λ s. segment_key s.holder s.id) (r.kept x l)

  old_part : (x : ℕ) → x < c.fresh → (c2.heap x).part ≡ (c.heap x).part
  old_part x l = t.same_part x ∙ ap (λ s. s.part) (r.kept x l)

  old_index :
      (x : ℕ)
      → x < c.fresh
      → lookup c.index (key_of c x) ≡ some x
      → lookup c2.index (key_of c2 x) ≡ some x
  old_index x l h =
      ap (λ m. lookup m (key_of c2 x)) t.same_index
      ∙ ap (lookup c1.index) (old_key x l)
      ∙ r.kept_index (key_of c x) (λ e. ground (arith, sym unseen ∙ ap (lookup c.index) e ∙ h))
      ∙ h

  old_queue :
      (i x : ℕ)
      → contains_segment (get_or c.queues i []) x ≡ true
      → contains_segment (get_or c1.queues i []) x ≡ true
  old_queue i x q = ap (λ qs. contains_segment (get_or qs i []) x) r.kept_queues ∙ q

  old-Place : (x : ℕ) → Place c x → PlaceAt c2 (c.heap x).part (key_of c x) x
  old-Place x (inl q) =
      inl (t.stays_queued (pos_part (c.heap x).part) x (old_queue (pos_part (c.heap x).part) x q))
  old-Place x (inr (inl held)) =
      inr (inl (t.stays_held x (ap (λ h. contains_segment h x) r.kept_held ∙ held)))
  old-Place x (inr (inr flying)) =
      inr (inr (ap (λ m. lookup m (key_of c x)) (t.same_inflight ∙ r.kept_inflight) ∙ flying))

  new_index' : lookup c2.index (key_of c2 c.fresh) ≡ some c.fresh
  new_index' =
      ap (λ m. lookup m (key_of c2 c.fresh)) t.same_index
      ∙ ap (lookup c1.index) (t.same_key c.fresh ∙ r.new_key)
      ∙ r.new_index

  wide : length c2.queues ≡ length c.queues
  wide = t.same_length ∙ ap length r.kept_queues

  queued_before :
      (i x : ℕ)
      → contains_segment (get_or c1.queues i []) x ≡ true
      → (x < c.fresh)
        × (lookup c.index (key_of c x) ≡ some x)
        × (pos_part (c.heap x).part ≡ i)
        × ((c.heap x).delivered ≡ [])
  queued_before i x q =
      v.queued i x (ap (λ qs. contains_segment (get_or qs i []) x) (sym r.kept_queues) ∙ q)

  new_not_pending :
      contains_segment (get_or c1.queues (pos_part (c1.heap c.fresh).part) []) c.fresh ≡ false
  new_not_pending =
      elim (Bool-cases
        (contains_segment (get_or c1.queues (pos_part (c1.heap c.fresh).part) []) c.fresh)) [
          | inr out ↦ out
          | inl q ↦
              absurd (omega (arith, (queued_before (pos_part (c1.heap c.fresh).part) c.fresh q).0))
        ]

  known : c.fresh < c2.fresh
  known = omega (arith, t.same_fresh, r.next)

  within : pos_part (c1.heap c.fresh).part < length c1.queues
  within = omega (arith, ap pos_part r.new_part, range, ap length r.kept_queues)

  -- A segment of before has an older number.
  older : (x : ℕ) → x < c2.fresh → nat_beq c.fresh x ≡ false → x < c.fresh
  older x l other =
      let next : c2.fresh ≡ suc c.fresh = t.same_fresh ∙ r.next in
      let ne : c.fresh ≢ x = ground (arith, other) in omega (arith, next, ne, l)

  new_places :
      (c2.heap c.fresh).released ≡ false
      → (lookup c2.index (key_of c2 c.fresh) ≡ some c.fresh)
        × (pos_part (c2.heap c.fresh).part < length c2.queues)
        × Place c2 c.fresh
  new_places needed = (
    new_index',
    omega (arith, ap pos_part (t.same_part c.fresh), within, t.same_length),
    Place-at c2 (c1.heap c.fresh).part (key_of c1 c.fresh) c.fresh (t.same_part c.fresh)
        (t.same_key c.fresh) (t.is_somewhere within needed),
  )

  old_places :
      (x : ℕ)
      → x < c.fresh
      → (c2.heap x).released ≡ false
      → (lookup c2.index (key_of c2 x) ≡ some x)
        × (pos_part (c2.heap x).part < length c2.queues)
        × Place c2 x
  old_places x l needed =
      let ne : c.fresh ≢ x = omega (arith, l) in
      let (indexed, inside, place) =
        v.places x l
          (ap (λ s. s.released) (sym (r.kept x l)) ∙ sym (t.same_released x ne) ∙ needed) in
      (
        old_index x l indexed,
        omega (arith, ap pos_part (old_part x l), inside, wide),
        Place-at c2 (c.heap x).part (key_of c x) x (old_part x l) (old_key x l) (old-Place x place),
      )

  placed-IsAccounted : IsAccounted c2
  placed-IsAccounted = record {
    places = λ x l needed. elim (Bool-cases (nat_beq c.fresh x)) [
      | inl is ↦
          let e : c.fresh ≡ x = ground (arith, is) in
          subst
            (λ z.
              (c2.heap z).released ≡ false
              → (lookup c2.index (key_of c2 z) ≡ some z)
                × (pos_part (c2.heap z).part < length c2.queues)
                × Place c2 z)
            e new_places needed
      | inr other ↦ old_places x (older x l other) needed
    ];
    queued = λ i x q. elim (t.is_queued i x q) [
      | inl (is, at) ↦
          subst
            (λ z.
              (z < c2.fresh)
              × (lookup c2.index (key_of c2 z) ≡ some z)
              × (pos_part (c2.heap z).part ≡ i)
              × ((c2.heap z).delivered ≡ []))
            is
            (
              known,
              new_index',
              ap pos_part (t.same_part c.fresh) ∙ at,
              t.same_delivered c.fresh ∙ r.new_free,
            )
      | inr old ↦
          let (l, indexed, part, empty) = queued_before i x old in
          (
            omega (arith, l, known),
            old_index x l indexed,
            ap pos_part (old_part x l) ∙ part,
            t.same_delivered x ∙ ap (λ s. s.delivered) (r.kept x l) ∙ empty,
          )
    ];
    once =
        t.stays_once (λ i. subst (λ qs. NoDup (get_or qs i [])) (sym r.kept_queues) (v.once i))
          new_not_pending;
    exclusive = λ x l. elim (Bool-cases (nat_beq c.fresh x)) [
      | inl is ↦
          let e : c.fresh ≡ x = ground (arith, is) in
          subst (λ z. length (c2.heap z).delivered ≤ 1) e
            (omega (arith, ap length (t.same_delivered c.fresh ∙ r.new_free)))
      | inr other ↦ omega (
        arith,
        ap length (t.same_delivered x ∙ ap (λ s. s.delivered) (r.kept x (older x l other))),
        v.exclusive x (older x l other),
      )
    ];
  }

record_segment-spec : (c : Channel) (s : Segment) → (record_segment c s).spec ≡ c.spec
unfolding record_segment
record_segment-spec c s = refl

-- On a channel with partitions, indexing a segment that nobody holds and whose partition is within
-- range leaves every segment of the channel accounted for, the new one included, whether it is queued, held for a later epoch, dropped beyond the bound of its loop, or
-- already known.
pub index_segment-IsAccounted :
    (c : Channel) (s : Segment)
    → broadcast c ≡ false
    → pos_part s.part < length c.queues
    → s.delivered ≡ []
    → IsAccounted c
    → IsAccounted (index_segment c s)
unfolding index_segment
index_segment-IsAccounted c s b range free v =
    elim (Bool-cases (has c.index (segment_key s.holder s.id))) [
      | inl dup ↦ rw dup v
      | inr new ↦
          let c1 = record_segment c (with_append_id s) in
          rw new (
            placed-IsAccounted c s c1 (place_segment c1 c.fresh) v
              (record_segment-IsRecorded c s free)
              (place_segment-IsPlaced c1 c.fresh (
                ap (λ p. is_broadcast p.partitioning.mode)
                  (record_segment-spec c (with_append_id s))
                ∙ b))
              range (none_of_has c.index (segment_key s.holder s.id) new))
    ]
