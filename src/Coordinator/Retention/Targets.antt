-- ===== src/Coordinator/Retention/Targets.antt =====
-- The whole loop of `DeleteRetainedBefore`, behind its checks.
use stark8s.Prelude.{
  ℕ, ℤ, pos, negsuc, ◌-◌, ◌≤◌, ◌<◌, pos_part, Bool, true, false, none, some, List, [], ◌∷◌, ◌||◌,
  ltb_ℤ, All, foldl, length, length-set, get_or-set_ne, drop, Option-cases, ◌≢◌, inl, inr, ◌≡◌,
  refl, sym, ap, ◌∙◌, arith, if◌then◌else◌,
}
use stark8s.Coordinator.Api.{Error, PartitionPosition}
use stark8s.Coordinator.State.{Channel}
use stark8s.Coordinator.Subscriptions.{
  base_at, history_at, check_position, check_positions, out_of_range,
}
use stark8s.Coordinator.Segments.{next_offset}
use stark8s.Coordinator.Segments.History.{IsNumbered}
use stark8s.Coordinator.Retention.{truncate}
use stark8s.Coordinator.Retention.Kept.{IsAvailable, truncate-IsNumbered}

-- The history and its bases have one entry for each partition.
abbrev pub IsEven : Channel → Type 0
IsEven c = length c.history ≡ length c.history_base

-- No partition is named twice.
abbrev pub Distinct : List PartitionPosition → Type 0
Distinct [] = Unit
Distinct (a ∷ as') = All (λ b. pos_part a.partition ≢ pos_part b.partition) as' × Distinct as'

out_of_range-lt : (p : ℤ) (n : ℕ) → out_of_range p n ≡ false → pos_part p < n
out_of_range-lt (pos p) n h = ground arith
out_of_range-lt (negsuc p) n h = absurd (ground arith)

offset-ge : (o : ℤ) (n : ℕ) → ltb_ℤ o (pos n) ≡ false → n ≤ pos_part o
offset-ge (pos o) n h = ground arith
offset-ge (negsuc o) n h = absurd (ground arith)

offset-le : (o : ℤ) (n : ℕ) → ltb_ℤ (pos n) o ≡ false → pos_part o ≤ n
offset-le (pos o) n h = ground arith
offset-le (negsuc o) n h = omega arith

guards-none :
    (b1 b2 b3 : Bool) (e1 e2 : Error)
    → (if b1 then some e1 else if b2 || b3 then some e2 else none) ≡ none
    → (b1 ≡ false) × (b2 ≡ false) × (b3 ≡ false)
guards-none true b2 b3 e1 e2 h = absurd (ground (arith, h))
guards-none false true b3 e1 e2 h = absurd (ground (arith, h))
guards-none false false true e1 e2 h = absurd (ground (arith, h))
guards-none false false false e1 e2 h = (refl, refl, refl)

-- The tests of one position.
check_position-none :
    (c : Channel) (n : ℕ) (late : Error) (a : PartitionPosition)
    → check_position c n late a ≡ none
    → (out_of_range a.partition n ≡ false)
      × (ltb_ℤ a.offset (pos (base_at c (pos_part a.partition))) ≡ false)
      × (ltb_ℤ (pos (next_offset c (pos_part a.partition))) a.offset ≡ false)
check_position-none c n late a h = guards-none _ _ _ _ _ h

check_position-IsAvailable :
    (c : Channel) (late : Error) (a : PartitionPosition)
    → IsEven c
    → check_position c (length c.history) late a ≡ none
    → IsAvailable c a
check_position-IsAvailable c late a even h =
    let (inside, low, high) = check_position-none c (length c.history) late a h in
    (
      out_of_range-lt a.partition (length c.history) inside,
      even,
      offset-ge a.offset (base_at c (pos_part a.partition)) low,
      offset-le a.offset (next_offset c (pos_part a.partition)) high,
    )

check_positions-IsAvailable :
    (c : Channel) (late : Error) (as' : List PartitionPosition)
    → IsEven c
    → check_positions c (length c.history) late as' ≡ none
    → All (IsAvailable c) as'
unfolding check_positions
check_positions-IsAvailable c late [] even h = tt
check_positions-IsAvailable c late (a ∷ as') even h =
    elim (Option-cases (check_position c (length c.history) late a)) [
      | inl free ↦ (
        check_position-IsAvailable c late a even free,
        check_positions-IsAvailable c late as' even (rw free at h),
      )
      | inr (e, late') ↦ absurd (ground (arith, sym (rw late' at h)))
    ]

-- Truncating one partition leaves the positions of another available.
truncate-IsAvailable :
    (c : Channel) (a b : PartitionPosition)
    → pos_part a.partition ≢ pos_part b.partition
    → IsAvailable c b
    → IsAvailable (truncate c a) b
unfolding truncate
truncate-IsAvailable c a b ne (inside, even, low, high) =
    let p = pos_part a.partition in
    let q = pos_part b.partition in
    let rest = drop (pos_part a.offset - base_at c p) (history_at c p) in
    let same_history = get_or-set_ne c.history p q rest [] ne in
    let same_base = get_or-set_ne c.history_base p q (pos_part a.offset) 0 ne in
    (
      omega (arith, length-set c.history p rest),
      length-set c.history p rest ∙ even ∙ sym (length-set c.history_base p (pos_part a.offset)),
      omega (arith, same_base),
      omega (arith, same_base, ap length same_history),
    )

truncate-All :
    (c : Channel) (a : PartitionPosition) (bs : List PartitionPosition)
    → All (λ b. pos_part a.partition ≢ pos_part b.partition) bs
    → All (IsAvailable c) bs
    → All (IsAvailable (truncate c a)) bs
truncate-All c a [] d h = tt
truncate-All c a (b ∷ bs) d h = (truncate-IsAvailable c a b d.0 h.0, truncate-All c a bs d.1 h.1)

truncate-All-IsNumbered :
    (c : Channel) (as' : List PartitionPosition)
    → IsNumbered c
    → Distinct as'
    → All (IsAvailable c) as'
    → IsNumbered (foldl truncate c as')
truncate-All-IsNumbered c [] h d v = h
truncate-All-IsNumbered c (a ∷ as') h d v =
    truncate-All-IsNumbered (truncate c a) as' (truncate-IsNumbered c a h v.0) d.1
      (truncate-All c a as' d.0 v.1)

-- Deleting retained records up to positions that pass the checks, at most one for each partition,
-- keeps the history numbered: each entry that stays keeps its absolute offset.
pub delete_retained-IsNumbered :
    (c : Channel) (late : Error) (targets : List PartitionPosition)
    → IsNumbered c
    → length c.history ≡ length c.history_base
    → Distinct targets
    → check_positions c (length c.history) late targets ≡ none
    → IsNumbered (foldl truncate c targets)
delete_retained-IsNumbered c late targets h even d checked =
    truncate-All-IsNumbered c targets h d (check_positions-IsAvailable c late targets even checked)
