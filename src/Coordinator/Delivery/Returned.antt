-- ===== src/Coordinator/Delivery/Returned.antt =====
-- Acknowledging keeps every segment accounted for (`AckSession` of pkg/coordinator/coordinator.go).
use stark8s.Prelude.{
  ℕ, ◌≤◌, ◌<◌, pos_part, String, true, false, some, [], length, get_or, lookup, contains, add64,
  nat_beq, Bool-cases, string_eq, ◌≢◌, inl, inr, ◌≡◌, refl, sym, subst, ap, ◌∙◌, arith,
}
use stark8s.Coordinator.State.{Channel, update_segment}
use stark8s.Coordinator.Names.{segment_key}
use stark8s.Coordinator.Channels.{contains_segment, broadcast}
use stark8s.Coordinator.Settle.{release}
use stark8s.Coordinator.Acks.{ack_segment, acknowledge, count_ack, drop_if_idle}
use stark8s.Coordinator.Delivery.{key_of, NoDup, IsAccounted, index-ne, Place-at}
use stark8s.Coordinator.Delivery.Touched.{
  remove_key-length, held-free, Touches, Touches-trans, update-Touches, drop_if_idle-Touches,
  release-Touches, kept-Place,
}

-- A step after which the segment is released keeps the others accounted for.
finished-IsAccounted :
    (c c' : Channel) (p : ℕ)
    → IsAccounted c
    → Touches c p c'
    → (c'.heap p).released ≡ true
    → lookup c.index (key_of c p) ≡ some p
    → ((i x : ℕ) → contains_segment (get_or c.queues i []) x ≡ true → p ≢ x)
    → IsAccounted c'
finished-IsAccounted c c' p v t done indexed free = record {
  places = λ x l needed.
      let ne : p ≢ x =
        λ e. ground (arith, sym needed ∙ ap (λ z. (c'.heap z).released) (sym e) ∙ done) in
      let same = t.elsewhere x ne in
      let old =
        v.places x (subst (λ n. x < n) t.same_fresh l) (ap (λ s. s.released) (sym same) ∙ needed) in
      let key = ap (λ s. segment_key s.holder s.id) same in
      let other = index-ne c.index (key_of c p) (key_of c x) p x indexed old.0 ne in
      (
        ap (lookup c'.index) key ∙ t.same_index (key_of c x) other ∙ old.0,
        subst (λ qs. pos_part (c'.heap x).part < length qs) (sym t.same_queues)
            (subst (λ s. pos_part s.part < length c.queues) (sym same) old.1),
        Place-at c' (c.heap x).part (key_of c x) x (ap (λ s. s.part) same) key
            (kept-Place c c' p x t other old.2),
      );
  queued = λ i x q.
      let q' = subst (λ qs. contains_segment (get_or qs i []) x ≡ true) t.same_queues q in
      let ne = free i x q' in
      let same = t.elsewhere x ne in
      let (l, k, part, empty) = v.queued i x q' in
      let key = ap (λ s. segment_key s.holder s.id) same in
      (
        subst (λ n. x < n) (sym t.same_fresh) l,
        ap (lookup c'.index) key
            ∙ t.same_index (key_of c x)
                (index-ne c.index (key_of c p) (key_of c x) p x indexed k ne)
            ∙ k,
        ap (λ s. pos_part s.part) same ∙ part,
        ap (λ s. s.delivered) same ∙ empty,
      );
  once = λ i. subst (λ qs. NoDup (get_or qs i [])) (sym t.same_queues) (v.once i);
  exclusive = λ x l. elim (Bool-cases (nat_beq p x)) [
    | inl is ↦
        let e : p ≡ x = ground (arith, is) in
        let known : p < c.fresh =
          subst (λ z. z < c.fresh) (sym e) (subst (λ n. x < n) t.same_fresh l) in
        subst (λ z. length (c'.heap z).delivered ≤ 1) e
          (omega (arith, t.fewer, v.exclusive p known))
    | inr other ↦
        subst (λ s. length s.delivered ≤ 1) (sym (t.elsewhere x (ground (arith, other))))
          (v.exclusive x (subst (λ n. x < n) t.same_fresh l))
  ];
}

-- The acknowledgement before the release.
abbrev noted : String → String → Channel → ℕ → Channel
noted owned by c p = record (update_segment c p (acknowledge owned by)) {
  acknowledged = add64 c.acknowledged (count_ack (c.heap p) by);
}

ack_segment-release :
    (owned by : String) (c : Channel) (p : ℕ)
    → broadcast c ≡ false
    → ack_segment owned by c p ≡ release (drop_if_idle (noted owned by c p) p) p
unfolding ack_segment
ack_segment-release owned by c p b = rw b refl

noted-Touches : (owned by : String) (c : Channel) (p : ℕ) → Touches c p (noted owned by c p)
noted-Touches owned by c p =
    let t =
      update-Touches c p (acknowledge owned by) refl refl
        (remove_key-length (c.heap p).delivered owned) in
    record {
      elsewhere = t.elsewhere;
      same_key = t.same_key;
      same_part = t.same_part;
      fewer = t.fewer;
      same_fresh = t.same_fresh;
      same_queues = t.same_queues;
      same_held = t.same_held;
      same_index = t.same_index;
      same_inflight = t.same_inflight;
    }

-- On a channel with partitions, an acknowledgement by a process that holds the segment, which is not
-- released yet, releases it, and leaves every segment accounted for.
pub ack_segment-IsAccounted :
    (owned by : String) (c : Channel) (p : ℕ)
    → broadcast c ≡ false
    → IsAccounted c
    → p < c.fresh
    → (c.heap p).released ≡ false
    → contains (c.heap p).delivered owned ≡ true
    → IsAccounted (ack_segment owned by c p) × (((ack_segment owned by c p).heap p).released ≡ true)
ack_segment-IsAccounted owned by c p b v l needed m =
    let c1 = noted owned by c p in
    let c2 = drop_if_idle c1 p in
    let (released, done) = release-Touches c2 p in
    let all_steps =
      Touches-trans c c1 (release c2 p) p (noted-Touches owned by c p)
        (Touches-trans c1 c2 (release c2 p) p (drop_if_idle-Touches c1 p) released) in
    subst (λ c'. IsAccounted c' × ((c'.heap p).released ≡ true))
      (sym (ack_segment-release owned by c p b))
      (
        finished-IsAccounted c (release c2 p) p v all_steps done (v.places p l needed).0
            (λ i x. held-free c i p x owned v m),
        done,
      )
