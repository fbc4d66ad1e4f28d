-- ===== src/Coordinator/Segments/History.antt =====
-- The retained history of a channel: the entry at position i of a partition has the offset base + i.
use stark8s.Prelude.{
  ℕ, suc, ◌+◌, ◌<◌, some, List, [], ◌∷◌, ◌++◌, length, get_or, get_elem?, set, set-beyond,
  get_or-set_self, get_or-set_ne, get_elem?-append_one, has, Bool-cases, ltb, nat_beq, ◌⊎◌, inl,
  inr, ◌≡◌, sym, subst, arith, nat_eq, string_eq,
}
use stark8s.Coordinator.State.{Segment, Channel, write_cell}
use stark8s.Coordinator.Names.{segment_key}
use stark8s.Coordinator.Segments.{
  history_partition, record_segment, place_segment, index_segment, with_append_id,
}

-- The entries of the history are segments that exist, and are numbered without gaps.
abbrev pub IsNumbered : Channel → Type 0
IsNumbered c =
    (p i e : ℕ)
    → get_elem? (get_or c.history p []) i ≡ some e
    → ((c.heap e).offset ≡ get_or c.history_base p 0 + i) × (e < c.fresh)

-- A write to an unused pointer leaves the entries alone.
kept_entry :
    (heap : ℕ → Segment) (fresh e n : ℕ) (s : Segment)
    → ((heap e).offset ≡ n) × (e < fresh)
    → ((write_cell heap fresh s e).offset ≡ n) × (e < suc fresh)
kept_entry heap fresh e n s h = ground arith

-- What the history of one partition holds after a segment was recorded: an entry of before, or the
-- new one in the next place.
recorded_entry :
    (hs : List (List ℕ)) (p q i e fresh : ℕ)
    → get_elem? (get_or (set hs p (get_or hs p [] ++ fresh ∷ [])) q []) i ≡ some e
    → (get_elem? (get_or hs q []) i ≡ some e)
      ⊎ ((p ≡ q) × (i ≡ length (get_or hs p [])) × (e ≡ fresh))
recorded_entry hs p q i e fresh m = elim (Bool-cases (nat_beq p q)) [
  | inr other ↦
      inl (rw (get_or-set_ne hs p q (get_or hs p [] ++ fresh ∷ []) [] (ground arith)) at m)
  | inl same ↦ elim (Bool-cases (ltb p (length hs))) [
    | inr outside ↦ inl (rw (set-beyond hs p (get_or hs p [] ++ fresh ∷ []) (ground arith)) at m)
    | inl inside ↦ at_end (ground arith) (ground arith)
  ]
]
  where
    at_end :
        p ≡ q
        → p < length hs
        → (get_elem? (get_or hs q []) i ≡ some e)
          ⊎ ((p ≡ q) × (i ≡ length (get_or hs p [])) × (e ≡ fresh))
    at_end pq l =
        let m' : get_elem? (get_or hs p [] ++ fresh ∷ []) i ≡ some e =
          rw (← get_or-set_self hs p (get_or hs p [] ++ fresh ∷ []) [] l) (
            subst
              (λ r. get_elem? (get_or (set hs p (get_or hs p [] ++ fresh ∷ [])) r []) i ≡ some e)
              (sym pq) m) in
        elim (get_elem?-append_one (get_or hs p []) fresh i e m') [
          | inl old ↦ inl (rw pq at old)
          | inr (l', e') ↦ inr (pq, l', e')
        ]

-- The new entry is put at the end of its partition, with the next offset.
record_segment-IsNumbered :
    (c : Channel) (s : Segment) → IsNumbered c → IsNumbered (record_segment c s)
unfolding record_segment
record_segment-IsNumbered c s h q i e m =
    elim (recorded_entry c.history (history_partition c s) q i e c.fresh m) [
      | inl old ↦ kept_entry c.heap c.fresh e _ _ (h q i e old)
      | inr (pq, l, new) ↦ rw (new, ← pq, l) (ground arith)
    ]

place_segment-IsNumbered : (c : Channel) (p : ℕ) → IsNumbered c → IsNumbered (place_segment c p)
unfolding place_segment
place_segment-IsNumbered c p h q i e m = ground (arith, h q i e)

-- Indexing a segment, whatever becomes of it, keeps the history numbered.
pub index_segment-IsNumbered :
    (c : Channel) (s : Segment) → IsNumbered c → IsNumbered (index_segment c s)
unfolding index_segment
index_segment-IsNumbered c s h = elim (Bool-cases (has c.index (segment_key s.holder s.id))) [
  | inl dup ↦ rw dup h
  | inr new ↦ rw new (
      place_segment-IsNumbered (record_segment c (with_append_id s)) c.fresh
        (record_segment-IsNumbered c (with_append_id s) h))
]
