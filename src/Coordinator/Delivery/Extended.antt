-- ===== src/Coordinator/Delivery/Extended.antt =====
-- pkg/coordinator/coordinator.go: a channel to which segments have been added.
use stark8s.Prelude.{
  ℕ, ◌<◌, pos_part, String, true, some, [], ◌∷◌, ◌++◌, length, length-set, get_or, lookup,
  lookup-insert, has, is_some, Bool-cases, ◌==◌, string_eq, ◌⊎◌, inl, inr, ◌≡◌, refl, ap, ◌∙◌,
  arith,
}
use stark8s.Coordinator.Api.{SegmentAnnouncement}
use stark8s.Coordinator.State.{Segment, Channel}
use stark8s.Coordinator.Names.{segment_key}
use stark8s.Coordinator.Channels.{enqueue}
use stark8s.Coordinator.Segments.{
  append_id_of, index_segment, record_segment, place_segment, with_append_id,
}

-- What the checks have shown of an announcement: it brings no segment, or is known, or its partition
-- is within range.
abbrev pub IsReady : Channel → SegmentAnnouncement → Type 0
IsReady c a =
    ((a.id == "") ≡ true)
    ⊎ (has c.append_ids (append_id_of a) ≡ true)
    ⊎ (pos_part a.partition < length c.queues)

-- Indexing keeps the receipts, the queues' number and the kind of the channel.
pub record Extends (c c' : Channel) : Type 0 where
  pub receipts : (k : String) → has c.append_ids k ≡ true → has c'.append_ids k ≡ true
  pub same_length : length c'.queues ≡ length c.queues
  pub same_spec : c'.spec ≡ c.spec

place_segment-Extends : (c : Channel) (p : ℕ) → Extends c (place_segment c p)
unfolding place_segment enqueue
place_segment-Extends c p = record {
  receipts = λ k h. ground (arith, h);
  same_length = ground (
    arith,
    length-set c.queues (pos_part (c.heap p).part)
        (get_or c.queues (pos_part (c.heap p).part) [] ++ p ∷ []),
  );
  same_spec = ground arith;
}

record_segment-receipts :
    (c : Channel) (s : Segment) (k : String)
    → has c.append_ids k ≡ true
    → has (record_segment c s).append_ids k ≡ true
unfolding record_segment
record_segment-receipts c s k h = elim (Bool-cases (s.append_id == k)) [
  | inl same ↦
      ap is_some {y = some c.fresh}
        (lookup-insert c.append_ids s.append_id c.fresh k ∙ rw same refl)
  | inr other ↦
      ap is_some {y = lookup c.append_ids k}
        (lookup-insert c.append_ids s.append_id c.fresh k ∙ rw other refl)
      ∙ h
]

record_segment-Extends : (c : Channel) (s : Segment) → Extends c (record_segment c s)
unfolding record_segment
record_segment-Extends c s = record {
  receipts = record_segment-receipts c s;
  same_length = refl;
  same_spec = refl;
}

Extends-trans : (a b c : Channel) → Extends a b → Extends b c → Extends a c
Extends-trans a b c s t = record {
  receipts = λ k h. t.receipts k (s.receipts k h);
  same_length = t.same_length ∙ s.same_length;
  same_spec = t.same_spec ∙ s.same_spec;
}

pub index_segment-Extends : (c : Channel) (s : Segment) → Extends c (index_segment c s)
unfolding index_segment
index_segment-Extends c s = elim (Bool-cases (has c.index (segment_key s.holder s.id))) [
  | inl dup ↦ rw dup (record { receipts = λ k h. h; same_length = refl; same_spec = refl })
  | inr new ↦
      let c1 = record_segment c (with_append_id s) in
      rw new (
        Extends-trans c c1 (place_segment c1 c.fresh) (record_segment-Extends c (with_append_id s))
          (place_segment-Extends c1 c.fresh))
]

-- The channel with a count of diverted records.
