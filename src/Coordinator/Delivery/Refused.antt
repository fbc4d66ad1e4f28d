-- ===== src/Coordinator/Delivery/Refused.antt =====
-- A refused delivery goes back to the front of its queue (`NackSession` of
-- pkg/coordinator/coordinator.go).
use stark8s.Prelude.{
  ℕ, ◌<◌, pos, pos_part, ltb_ℤ, String, true, false, [], ◌∷◌, is_empty, length, get_or, Map,
  contains, remove_key, Bool-cases, ◌==◌, string_eq, ◌≢◌, inl, inr, ◌≡◌, refl, sym, subst, ap, ◌∙◌,
  arith,
}
use stark8s.Coordinator.Api.{SegmentAck}
use stark8s.Coordinator.State.{Segment, Channel, update_segment, write_cell}
use stark8s.Graph.{is_broadcast}
use stark8s.Coordinator.Names.{segment_key}
use stark8s.Coordinator.Channels.{queue_at, set_queue, contains_segment, broadcast}
use stark8s.Coordinator.Acks.{nack_segment, drop_if_idle, return_pending, note_failure, delay}
use stark8s.Coordinator.Delivery.{IsAccounted, write_self}
use stark8s.Coordinator.Delivery.Touched.{
  Touches, Touches-trans, update-Touches, drop_if_idle-Touches, held-free, remove_only,
  remove_key-length,
}
use stark8s.Coordinator.Delivery.PutBack.{back-IsAccounted, back-front, not_pending}

-- The refusal before the segment goes back.
abbrev put_down : ℕ → String → SegmentAck → Segment → Segment
put_down now owned a s = delay now a owned (record s { delivered = remove_key s.delivered owned })

put_down-field {ℓ} :
    {A : Type ℓ} (g : Segment → A) (now : ℕ) (owned : String) (a : SegmentAck) (s : Segment)
    → ((m : Map String ℕ)
        → g (record s { delivered = remove_key s.delivered owned; retry_after = m })
          ≡ g (record s { delivered = remove_key s.delivered owned }))
    → g (put_down now owned a s) ≡ g (record s { delivered = remove_key s.delivered owned })
put_down-field g now owned a s h = elim (Bool-cases (ltb_ℤ (pos 0) a.retry_after_millis)) [
  | inl late ↦ rw late (h _)
  | inr soon ↦ rw soon refl
]

abbrev refused : ℕ → String → SegmentAck → Channel → ℕ → Channel
refused now owned a c p =
    drop_if_idle (note_failure a (update_segment c p (put_down now owned a))) p

drop_if_idle-heap :
    (c : Channel) (p : ℕ)
    → ((drop_if_idle c p).heap ≡ c.heap) × ((drop_if_idle c p).index ≡ c.index)
drop_if_idle-heap c p = elim (Bool-cases (is_empty (c.heap p).delivered)) [
  | inl idle ↦ rw idle (refl, refl)
  | inr busy ↦ rw busy (refl, refl)
]

note_failure-Touches :
    (a : SegmentAck) (c : Channel) (p : ℕ)
    → Touches c p (note_failure a c)
      × ((note_failure a c).heap ≡ c.heap)
      × ((note_failure a c).index ≡ c.index)
note_failure-Touches a c p = elim (Bool-cases (a.failure == "")) [
  | inl silent ↦ rw silent (nothing c.latest_delivery_failure, refl, refl)
  | inr said ↦ rw said (nothing a.failure, refl, refl)
]
  where
    nothing : (said : String) → Touches c p (record c { latest_delivery_failure = said })
    nothing said = record {
      elsewhere = λ x ne. refl;
      same_key = refl;
      same_part = refl;
      fewer = omega arith;
      same_fresh = refl;
      same_queues = refl;
      same_held = refl;
      same_index = λ k ne. refl;
      same_inflight = λ k ne. refl;
    }

refused-Touches :
    (now : ℕ) (owned : String) (a : SegmentAck) (c : Channel) (p : ℕ)
    → Touches c p (refused now owned a c p)
      × ((refused now owned a c p).heap ≡ write_cell c.heap p (put_down now owned a (c.heap p)))
      × ((refused now owned a c p).index ≡ c.index)
refused-Touches now owned a c p =
    let c1 = update_segment c p (put_down now owned a) in
    let c2 = note_failure a c1 in
    let one =
      update-Touches c p (put_down now owned a)
        (put_down-field (λ s. segment_key s.holder s.id) now owned a (c.heap p) (λ m. refl))
        (put_down-field (λ s. s.part) now owned a (c.heap p) (λ m. refl))
        (omega (
          arith,
          ap length (put_down-field (λ s. s.delivered) now owned a (c.heap p) (λ m. refl)),
          remove_key-length (c.heap p).delivered owned,
        )) in
    let (two, heap, index) = note_failure-Touches a c1 p in
    let (heap', index') = drop_if_idle-heap c2 p in
    (
      Touches-trans c c1 (drop_if_idle c2 p) p one
          (Touches-trans c1 c2 (drop_if_idle c2 p) p two (drop_if_idle-Touches c2 p)),
      heap' ∙ heap,
      index' ∙ index,
    )

refused-spec :
    (now : ℕ) (owned : String) (a : SegmentAck) (c : Channel) (p : ℕ)
    → (refused now owned a c p).spec ≡ c.spec
refused-spec now owned a c p =
    drop_if_idle-spec (note_failure a (update_segment c p (put_down now owned a)))
    ∙ note_failure-spec (update_segment c p (put_down now owned a))
  where
    drop_if_idle-spec : (c : Channel) → (drop_if_idle c p).spec ≡ c.spec
    drop_if_idle-spec c = elim (Bool-cases (is_empty (c.heap p).delivered)) [
      | inl idle ↦ rw idle refl
      | inr busy ↦ rw busy refl
    ]

    note_failure-spec : (c : Channel) → (note_failure a c).spec ≡ c.spec
    note_failure-spec c = elim (Bool-cases (a.failure == "")) [
      | inl silent ↦ rw silent refl
      | inr said ↦ rw said refl
    ]

goes_back :
    (pod_name : String) (c : Channel) (p : ℕ)
    → broadcast c ≡ false
    → (c.heap p).lost ≡ false
    → (c.heap p).released ≡ false
    → contains_segment (queue_at c (c.heap p).part) p ≡ false
    → return_pending pod_name c p ≡ set_queue c (c.heap p).part (p ∷ queue_at c (c.heap p).part)
goes_back pod_name c p b lost released new = rw (b, lost, released, new) refl

nack_segment-returns :
    (now : ℕ) (pod_name owned : String) (a : SegmentAck) (c : Channel) (p : ℕ)
    → nack_segment now pod_name owned a c p ≡ return_pending pod_name (refused now owned a c p) p
unfolding nack_segment
nack_segment-returns now pod_name owned a c p = refl

-- On a channel with partitions, a refusal by a process that holds the segment, which is neither lost
-- nor released, puts it back at the front of the queue of its partition, with no
-- process holding it, and leaves every segment accounted for.
pub nack_segment-IsAccounted :
    (now : ℕ) (pod_name owned : String) (a : SegmentAck) (c : Channel) (p : ℕ)
    → broadcast c ≡ false
    → IsAccounted c
    → p < c.fresh
    → (c.heap p).lost ≡ false
    → (c.heap p).released ≡ false
    → contains (c.heap p).delivered owned ≡ true
    → let c' = nack_segment now pod_name owned a c p in
      IsAccounted c'
      × (get_or c'.queues (pos_part (c.heap p).part) []
          ≡ p ∷ get_or c.queues (pos_part (c.heap p).part) [])
nack_segment-IsAccounted now pod_name owned a c p b v l lost needed m =
    let c1 = refused now owned a c p in
    let (t, heap, index) = refused-Touches now owned a c p in
    let at = ap (λ h. h p) heap ∙ write_self c.heap p (put_down now owned a (c.heap p)) in
    let idle =
      ap (λ s. s.delivered) at
      ∙ put_down-field (λ s. s.delivered) now owned a (c.heap p) (λ k. refl)
      ∙ remove_only (c.heap p).delivered owned (v.exclusive p l) m in
    let free : (i x : ℕ) → contains_segment (get_or c.queues i []) x ≡ true → p ≢ x =
      λ i x. held-free c i p x owned v m in
    let same_queue =
      ap (λ qs. get_or qs (pos_part (c1.heap p).part) []) t.same_queues
      ∙ ap (λ n. get_or c.queues (pos_part n) []) t.same_part in
    subst
      (λ c'.
        IsAccounted c'
        × (get_or c'.queues (pos_part (c.heap p).part) []
            ≡ p ∷ get_or c.queues (pos_part (c.heap p).part) []))
      (sym (
        nack_segment-returns now pod_name owned a c p
        ∙ goes_back pod_name c1 p
            (ap (λ s. is_broadcast s.partitioning.mode) (refused-spec now owned a c p) ∙ b)
            (ap (λ s. s.lost) at
              ∙ put_down-field (λ s. s.lost) now owned a (c.heap p) (λ k. refl)
              ∙ lost)
            (ap (λ s. s.released) at
              ∙ put_down-field (λ s. s.released) now owned a (c.heap p) (λ k. refl)
              ∙ needed)
            (ap (λ q. contains_segment q p) same_queue
              ∙ not_pending c c1 p v t l needed index idle free)))
      (
        back-IsAccounted c c1 p v t l needed index idle free,
        back-front c c1 p v t l needed index idle free,
      )
