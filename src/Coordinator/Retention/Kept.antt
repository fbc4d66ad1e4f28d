-- ===== src/Coordinator/Retention/Kept.antt =====
-- What `DeleteRetainedBefore` keeps.
use stark8s.Prelude.{
  ℕ, ◌+◌, ◌-◌, ◌≤◌, ◌<◌, pos_part, some, List, [], ◌∷◌, foldl, length, get_or, get_elem?,
  get_elem?-drop, set, get_or-set_self, get_or-set_ne, take, drop, Bool-cases, nat_beq, ◌≢◌, inl,
  inr, ◌≡◌, refl, sym, subst, ap, ◌∙◌, arith,
}
use stark8s.Coordinator.Api.{PartitionPosition}
use stark8s.Coordinator.State.{Channel}
use stark8s.Coordinator.Subscriptions.{base_at, history_at}
use stark8s.Coordinator.Segments.History.{IsNumbered}
use stark8s.Coordinator.Retention.{forget_entry, truncate}

-- Forgetting entries leaves the numbering and the history lists alone.
record SameNumbers (c c' : Channel) : Type 0 where
  same_offset : (e : ℕ) → (c'.heap e).offset ≡ (c.heap e).offset
  same_history : c'.history ≡ c.history
  same_base : c'.history_base ≡ c.history_base
  same_fresh : c'.fresh ≡ c.fresh

forget_entry-SameNumbers : (c : Channel) (p : ℕ) → SameNumbers c (forget_entry c p)
unfolding forget_entry
forget_entry-SameNumbers c p = record {
  same_offset = λ e. ground arith;
  same_history = ground arith;
  same_base = ground arith;
  same_fresh = ground arith;
}

forget_all-SameNumbers : (ps : List ℕ) (c : Channel) → SameNumbers c (foldl forget_entry c ps)
forget_all-SameNumbers [] c = record {
  same_offset = λ e. refl;
  same_history = refl;
  same_base = refl;
  same_fresh = refl;
}
forget_all-SameNumbers (p ∷ ps) c =
    let a = forget_entry-SameNumbers c p in
    let b = forget_all-SameNumbers ps (forget_entry c p) in
    record {
      same_offset = λ e. b.same_offset e ∙ a.same_offset e;
      same_history = b.same_history ∙ a.same_history;
      same_base = b.same_base ∙ a.same_base;
      same_fresh = b.same_fresh ∙ a.same_fresh;
    }

-- A position that the checks let pass.
abbrev pub IsAvailable : Channel → PartitionPosition → Type 0
IsAvailable c a =
    let p = pos_part a.partition in
    (p < length c.history)
    × (length c.history ≡ length c.history_base)
    × (base_at c p ≤ pos_part a.offset)
    × (pos_part a.offset ≤ base_at c p + length (history_at c p))

-- Deleting up to an available position keeps the history numbered: each entry that stays keeps its
-- absolute offset.
pub truncate-IsNumbered :
    (c : Channel) (a : PartitionPosition)
    → IsNumbered c
    → IsAvailable c a
    → IsNumbered (truncate c a)
unfolding truncate
truncate-IsNumbered c a h (inside, even, low, high) q i e m = elim (Bool-cases (nat_beq p q)) [
  | inl same ↦ here (ground arith)
  | inr other ↦ there (ground arith)
]
  where
    p : ℕ
    p = pos_part a.partition

    rest : List ℕ
    rest = drop (pos_part a.offset - base_at c p) (history_at c p)

    kept :
        SameNumbers c
          (foldl forget_entry c (take (pos_part a.offset - base_at c p) (history_at c p)))
    kept = forget_all-SameNumbers (take (pos_part a.offset - base_at c p) (history_at c p)) c

    there :
        p ≢ q
        → (((truncate c a).heap e).offset
            ≡ get_or (set c.history_base p (pos_part a.offset)) q 0 + i)
          × (e < (truncate c a).fresh)
    there ne =
        let old = h q i e (rw (get_or-set_ne c.history p q rest [] ne) at m) in
        (
          kept.same_offset e
              ∙ old.0
              ∙ ap (λ b. b + i) (sym (get_or-set_ne c.history_base p q (pos_part a.offset) 0 ne)),
          rw kept.same_fresh old.1,
        )

    here :
        p ≡ q
        → (((truncate c a).heap e).offset
            ≡ get_or (set c.history_base p (pos_part a.offset)) q 0 + i)
          × (e < (truncate c a).fresh)
    here pq =
        let m' : get_elem? (get_or (set c.history p rest) p []) i ≡ some e =
          subst (λ r. get_elem? (get_or (set c.history p rest) r []) i ≡ some e) (sym pq) m in
        let m'' : get_elem? rest i ≡ some e =
          rw (get_or-set_self c.history p rest [] inside) at m' in
        let old =
          h p (pos_part a.offset - base_at c p + i) e
            (rw (get_elem?-drop (pos_part a.offset - base_at c p) i (history_at c p)) at m'') in
        let moved : get_or (set c.history_base p (pos_part a.offset)) q 0 ≡ pos_part a.offset =
          subst (λ r. get_or (set c.history_base p (pos_part a.offset)) r 0 ≡ pos_part a.offset) pq
            (get_or-set_self c.history_base p (pos_part a.offset) 0 (omega arith)) in
        (kept.same_offset e ∙ old.0 ∙ omega (arith, moved), rw kept.same_fresh old.1)
