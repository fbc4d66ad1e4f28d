-- ===== src/Coordinator/Settle/Sound.antt =====
-- `cycleMembers` of pkg/coordinator/coordinator.go: what its sets mean.
use mathlib.Core.List.{Memᴰ}
use stark8s.Prelude.{
  String, true, List, [], ◌∷◌, All, contains, length, Bool-cases, eq_of_==, ◌==◌, string_eq, ◌⊎◌,
  inl, inr, ◌≡◌, sym, subst, ap, arith,
}
use stark8s.Coordinator.State.{Channel}
use stark8s.Coordinator.Settle.{Reach, is_inner_edge, reach_edge, reach_start}

-- The operations that inner edges lead to from `start`.
pub data Leads (chs : List Channel) (start : String) : String → Type 0 where
  here : Leads chs start start
  then_edge :
      {x y : String} (ch : Channel)
      → Memᴰ ch chs
      → is_inner_edge ch ≡ true
      → Leads chs start x
      → ch.spec.from ≡ x
      → ch.spec.to ≡ y
      → Leads chs start y

-- The operations from which inner edges lead to `goal`.
pub data LeadsTo (chs : List Channel) (goal : String) : String → Type 0 where
  here : LeadsTo chs goal goal
  edge_then :
      {x y : String} (ch : Channel)
      → Memᴰ ch chs
      → is_inner_edge ch ≡ true
      → LeadsTo chs goal y
      → ch.spec.to ≡ y
      → ch.spec.from ≡ x
      → LeadsTo chs goal x

pub All-mem {ℓ} :
    (P : Channel → Type ℓ) {ch : Channel} (xs : List Channel) → All P xs → Memᴰ ch xs → P ch
All-mem P [] h m = elim m [ ]
All-mem P (x ∷ xs) h (Memᴰ.head e) = subst P (sym e) h.0
All-mem P (x ∷ xs) h (Memᴰ.tail m) = All-mem P xs h.1 m

pub closed_forward :
    (r : Reach) (ch : Channel)
    → reach_edge r ch ≡ r
    → is_inner_edge ch ≡ true
    → contains r.forward ch.spec.from ≡ true
    → contains r.forward ch.spec.to ≡ true
unfolding reach_edge
closed_forward r ch e i h = ground (arith, ap (λ (q : Reach). length q.forward) e)

pub closed_backward :
    (r : Reach) (ch : Channel)
    → reach_edge r ch ≡ r
    → is_inner_edge ch ≡ true
    → contains r.backward ch.spec.to ≡ true
    → contains r.backward ch.spec.from ≡ true
unfolding reach_edge
closed_backward r ch e i h = ground (arith, ap (λ (q : Reach). length q.backward) e)

-- What the sets hold is reachable.
pub record IsSound (chs : List Channel) (c : Channel) (r : Reach) : Type 0 where
  pub forward_sound : (x : String) → contains r.forward x ≡ true → Leads chs c.spec.to x
  pub backward_sound : (x : String) → contains r.backward x ≡ true → LeadsTo chs c.spec.from x

pub reach_start-IsSound : (chs : List Channel) (c : Channel) → IsSound chs c (reach_start c)
reach_start-IsSound chs c = record {
  forward_sound =
      λ x h. subst (Leads chs c.spec.to) (eq_of_== c.spec.to x (ground arith)) Leads.here;
  backward_sound =
      λ x h. subst (LeadsTo chs c.spec.from) (eq_of_== c.spec.from x (ground arith)) LeadsTo.here;
}

-- A set with one more operation is sound if the operation is reached.
pub forward-cons :
    (chs : List Channel) (c : Channel) (seen : List String) (y : String)
    → ((x : String) → contains seen x ≡ true → Leads chs c.spec.to x)
    → Leads chs c.spec.to y
    → (x : String) → contains (y ∷ seen) x ≡ true
    → Leads chs c.spec.to x
forward-cons chs c seen y h l x m = elim (Bool-cases (y == x)) [
  | inl same ↦ subst (Leads chs c.spec.to) (eq_of_== y x same) l
  | inr other ↦ h x (rw other at m)
]

pub backward-cons :
    (chs : List Channel) (c : Channel) (seen : List String) (y : String)
    → ((x : String) → contains seen x ≡ true → LeadsTo chs c.spec.from x)
    → LeadsTo chs c.spec.from y
    → (x : String) → contains (y ∷ seen) x ≡ true
    → LeadsTo chs c.spec.from x
backward-cons chs c seen y h l x m = elim (Bool-cases (y == x)) [
  | inl same ↦ subst (LeadsTo chs c.spec.from) (eq_of_== y x same) l
  | inr other ↦ h x (rw other at m)
]

-- What an edge does to each set.
pub grown_forward :
    (r : Reach) (ch : Channel)
    → ((reach_edge r ch).forward ≡ r.forward)
      ⊎ (((reach_edge r ch).forward ≡ ch.spec.to ∷ r.forward)
          × (is_inner_edge ch ≡ true)
          × (contains r.forward ch.spec.from ≡ true))
unfolding reach_edge
grown_forward r ch = ground arith

pub grown_backward :
    (r : Reach) (ch : Channel)
    → ((reach_edge r ch).backward ≡ r.backward)
      ⊎ (((reach_edge r ch).backward ≡ ch.spec.from ∷ r.backward)
          × (is_inner_edge ch ≡ true)
          × (contains r.backward ch.spec.to ≡ true))
unfolding reach_edge
grown_backward r ch = ground arith
