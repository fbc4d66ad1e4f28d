-- ===== src/Coordinator/Settle/Cycle.antt =====
-- `cycleMembers` of pkg/coordinator/coordinator.go: the loop ends, and it finds exactly the operations
-- that are reachable over the inner edges.
use stark8s.Prelude.{
  ℕ, zero, suc, ◌+◌, ◌≤◌, ◌<◌, String, true, false, List, [], ◌∷◌, All, foldl, length, contains,
  ==-refl, string_eq, if◌then◌else◌, ◌⊎◌, inl, inr, ◌≡◌, refl, ap, arith,
}
use stark8s.Coordinator.State.{Channel}
use stark8s.Coordinator.Settle.{
  Reach, reach_edge, reach_round, reach_loop, reach_start, reach_fuel, cycle_reach,
}

-- How many channels lead to, or from, an operation that is not in the set yet.
abbrev missing_to : List Channel → List String → ℕ
missing_to [] seen = 0
missing_to (c ∷ cs) seen =
    let rest = missing_to cs seen in if contains seen c.spec.to then rest else suc rest

abbrev missing_from : List Channel → List String → ℕ
missing_from [] seen = 0
missing_from (c ∷ cs) seen =
    let rest = missing_from cs seen in if contains seen c.spec.from then rest else suc rest

abbrev slack : List Channel → Reach → ℕ
slack cs r = missing_to cs r.forward + missing_from cs r.backward

missing_to-cons :
    (cs : List Channel) (x : String) (seen : List String)
    → missing_to cs (x ∷ seen) ≤ missing_to cs seen
missing_to-cons [] x seen = omega arith
missing_to-cons (c ∷ cs) x seen = ground (arith, missing_to-cons cs x seen)

missing_from-cons :
    (cs : List Channel) (x : String) (seen : List String)
    → missing_from cs (x ∷ seen) ≤ missing_from cs seen
missing_from-cons [] x seen = omega arith
missing_from-cons (c ∷ cs) x seen = ground (arith, missing_from-cons cs x seen)

missing_to-le : (cs : List Channel) (seen : List String) → missing_to cs seen ≤ length cs
missing_to-le [] seen = omega arith
missing_to-le (c ∷ cs) seen = ground (arith, missing_to-le cs seen)

missing_from-le : (cs : List Channel) (seen : List String) → missing_from cs seen ≤ length cs
missing_from-le [] seen = omega arith
missing_from-le (c ∷ cs) seen = ground (arith, missing_from-le cs seen)

-- Adding an end of the channel that is missing lowers the counts.
record Drops (cs : List Channel) (c : Channel) : Type 0 where
  to_drops :
      (seen : List String)
      → contains seen c.spec.to ≡ false
      → missing_to cs (c.spec.to ∷ seen) < missing_to cs seen
  from_drops :
      (seen : List String)
      → contains seen c.spec.from ≡ false
      → missing_from cs (c.spec.from ∷ seen) < missing_from cs seen

Drops-cons : (d : Channel) (cs : List Channel) (c : Channel) → Drops cs c → Drops (d ∷ cs) c
Drops-cons d cs c h = record {
  to_drops = λ seen m. ground (arith, h.to_drops seen m, missing_to-cons cs c.spec.to seen);
  from_drops = λ seen m. ground (arith, h.from_drops seen m, missing_from-cons cs c.spec.from seen);
}

Drops-head : (c : Channel) (cs : List Channel) → Drops (c ∷ cs) c
Drops-head c cs = record {
  to_drops = λ seen m. ground (arith, ==-refl c.spec.to, missing_to-cons cs c.spec.to seen);
  from_drops = λ seen m. ground (arith, ==-refl c.spec.from, missing_from-cons cs c.spec.from seen);
}

All-Drops-cons : (d : Channel) (cs xs : List Channel) → All (Drops cs) xs → All (Drops (d ∷ cs)) xs
All-Drops-cons d cs [] h = tt
All-Drops-cons d cs (x ∷ xs) h = (Drops-cons d cs x h.0, All-Drops-cons d cs xs h.1)

All-Drops : (cs : List Channel) → All (Drops cs) cs
All-Drops [] = tt
All-Drops (c ∷ cs) = (Drops-head c cs, All-Drops-cons c cs cs (All-Drops cs))

-- An edge changes nothing, or lowers the slack and notes the change.
abbrev Shrinks : List Channel → Reach → Reach → Type 0
Shrinks cs r r' = (r' ≡ r) ⊎ ((slack cs r' < slack cs r) × (r'.changed ≡ true))

reach_edge-Shrinks :
    (cs : List Channel) (ch : Channel) (r : Reach) → Drops cs ch → Shrinks cs r (reach_edge r ch)
unfolding reach_edge
reach_edge-Shrinks cs ch r d = ground (arith, d.to_drops r.forward, d.from_drops r.backward)

foldl-Shrinks :
    (cs xs : List Channel) (r : Reach) → All (Drops cs) xs → Shrinks cs r (foldl reach_edge r xs)
foldl-Shrinks cs [] r h = inl refl
foldl-Shrinks cs (x ∷ xs) r h =
    ground (arith, reach_edge-Shrinks cs x r h.0, foldl-Shrinks cs xs (reach_edge r x) h.1)

-- A round that ends where it began passes over no edge that would change something.
abbrev pub IsClosed : List Channel → Reach → Type 0
IsClosed xs r = All (λ ch. reach_edge r ch ≡ r) xs

foldl-IsClosed :
    (cs xs : List Channel) (r : Reach)
    → All (Drops cs) xs
    → foldl reach_edge r xs ≡ r
    → IsClosed xs r
foldl-IsClosed cs [] r h e = tt
foldl-IsClosed cs (x ∷ xs) r h e = elim (reach_edge-Shrinks cs x r h.0) [
  | inl same ↦ (same, foldl-IsClosed cs xs r h.1 (rw same at e))
  | inr (lower, _) ↦
      absurd (ground (arith, ap (slack cs) e, foldl-Shrinks cs xs (reach_edge r x) h.1))
]

-- With more fuel than slack the loop ends because a round changed nothing.
reach_loop-IsClosed :
    (fuel : ℕ) (chs : List Channel) (r : Reach)
    → slack chs r < fuel
    → IsClosed chs (reach_loop fuel chs r)
unfolding reach_loop reach_round
reach_loop-IsClosed zero chs r h = absurd (omega arith)
reach_loop-IsClosed (suc fuel) chs r h =
    elim (foldl-Shrinks chs chs (record r { changed = false }) (All-Drops chs)) [
      | inr (lower, noted) ↦
          rw noted (reach_loop-IsClosed fuel chs (reach_round chs r) (omega arith))
      | inl same ↦
          rw same (foldl-IsClosed chs chs (record r { changed = false }) (All-Drops chs) same)
    ]

-- The fuel is enough: `cycleMembers` stops at sets that no inner edge extends.
pub cycle_reach-IsClosed : (chs : List Channel) (c : Channel) → IsClosed chs (cycle_reach chs c)
unfolding cycle_reach
cycle_reach-IsClosed chs c =
    reach_loop-IsClosed (reach_fuel chs) chs (reach_start c)
      (omega (arith, missing_to-le chs (c.spec.to ∷ []), missing_from-le chs (c.spec.from ∷ [])))
