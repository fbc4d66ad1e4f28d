-- ===== src/Coordinator/Settle/Members.antt =====
-- What `cycleMembers` of pkg/coordinator/coordinator.go finds: the operations on the cycle.
use mathlib.Core.List.{Memᴰ}
use stark8s.Prelude.{
  ℕ, zero, suc, String, true, false, List, [], ◌∷◌, foldl, contains, Bool-cases, ==-refl, eq_of_==,
  ◌==◌, string_eq, ◌⊎◌, inl, inr, ◌≡◌, refl, sym, subst, arith, ◌↔◌,
}
use stark8s.Coordinator.State.{Channel}
use stark8s.Coordinator.Settle.{
  Reach, reach_edge, reach_round, reach_loop, reach_start, reach_fuel, cycle_reach, is_member,
}
use stark8s.Coordinator.Settle.Cycle.{IsClosed, cycle_reach-IsClosed}
use stark8s.Coordinator.Settle.Sound.{
  Leads, LeadsTo, All-mem, closed_forward, closed_backward, IsSound, reach_start-IsSound,
  forward-cons, backward-cons, grown_forward, grown_backward,
}

module _ (chs : List Channel) (c : Channel) where
  reach_edge-IsSound :
      (r : Reach) (ch : Channel) → Memᴰ ch chs → IsSound chs c r → IsSound chs c (reach_edge r ch)
  reach_edge-IsSound r ch m v = record {
    forward_sound = λ x h. elim (grown_forward r ch) [
      | inl same ↦ v.forward_sound x (rw same at h)
      | inr (more, inner, from) ↦
          forward-cons chs c r.forward ch.spec.to v.forward_sound
            (Leads.then_edge ch m inner (v.forward_sound ch.spec.from from) refl refl) x
            (rw more at h)
    ];
    backward_sound = λ x h. elim (grown_backward r ch) [
      | inl same ↦ v.backward_sound x (rw same at h)
      | inr (more, inner, to) ↦
          backward-cons chs c r.backward ch.spec.from v.backward_sound
            (LeadsTo.edge_then ch m inner (v.backward_sound ch.spec.to to) refl refl) x
            (rw more at h)
    ];
  }

  foldl-IsSound :
      (xs : List Channel) (r : Reach)
      → ((ch : Channel) → Memᴰ ch xs → Memᴰ ch chs)
      → IsSound chs c r
      → IsSound chs c (foldl reach_edge r xs)
  foldl-IsSound [] r sub v = v
  foldl-IsSound (x ∷ xs) r sub v =
      foldl-IsSound xs (reach_edge r x) (λ ch m. sub ch (Memᴰ.tail m))
        (reach_edge-IsSound r x (sub x (Memᴰ.head refl)) v)

  reach_round-IsSound : (r : Reach) → IsSound chs c r → IsSound chs c (reach_round chs r)
  unfolding reach_round
  reach_round-IsSound r v =
      foldl-IsSound chs (record r { changed = false }) (λ ch m. m)
        (record { forward_sound = v.forward_sound; backward_sound = v.backward_sound })

  reach_loop-IsSound :
      (fuel : ℕ) (r : Reach) → IsSound chs c r → IsSound chs c (reach_loop fuel chs r)
  unfolding reach_loop
  reach_loop-IsSound zero r v = v
  reach_loop-IsSound (suc fuel) r v = elim (Bool-cases (reach_round chs r).changed) [
    | inl on ↦ rw on (reach_loop-IsSound fuel (reach_round chs r) (reach_round-IsSound r v))
    | inr off ↦ rw off (reach_round-IsSound r v)
  ]

  cycle_reach-IsSound : IsSound chs c (cycle_reach chs c)
  unfolding cycle_reach
  cycle_reach-IsSound =
      reach_loop-IsSound (reach_fuel chs) (reach_start c) (reach_start-IsSound chs c)

  closed_edge : (r : Reach) (ch : Channel) → IsClosed chs r → Memᴰ ch chs → reach_edge r ch ≡ r
  closed_edge r ch h m = All-mem (λ d. reach_edge r d ≡ r) chs h m

  -- A closed set that holds the start holds all that is reached.
  forward_complete :
      (r : Reach) {x : String}
      → IsClosed chs r
      → contains r.forward c.spec.to ≡ true
      → Leads chs c.spec.to x
      → contains r.forward x ≡ true
  forward_complete r h s Leads.here = s
  forward_complete r h s (Leads.then_edge ch m inner l from to) =
      subst (λ y. contains r.forward y ≡ true) to
        (closed_forward r ch (closed_edge r ch h m) inner
          (subst (λ y. contains r.forward y ≡ true) (sym from) (forward_complete r h s l)))

  backward_complete :
      (r : Reach) {x : String}
      → IsClosed chs r
      → contains r.backward c.spec.from ≡ true
      → LeadsTo chs c.spec.from x
      → contains r.backward x ≡ true
  backward_complete r h s LeadsTo.here = s
  backward_complete r h s (LeadsTo.edge_then ch m inner l to from) =
      subst (λ y. contains r.backward y ≡ true) from
        (closed_backward r ch (closed_edge r ch h m) inner
          (subst (λ y. contains r.backward y ≡ true) (sym to) (backward_complete r h s l)))

-- The sets only grow, so they hold their starts.
reach_edge-keeps :
    (r : Reach) (ch : Channel) (a b : String)
    → (contains r.forward a ≡ true) × (contains r.backward b ≡ true)
    → (contains (reach_edge r ch).forward a ≡ true) × (contains (reach_edge r ch).backward b ≡ true)
unfolding reach_edge
reach_edge-keeps r ch a b h = ground arith

foldl-keeps :
    (xs : List Channel) (r : Reach) (a b : String)
    → (contains r.forward a ≡ true) × (contains r.backward b ≡ true)
    → let r' = foldl reach_edge r xs in
      (contains r'.forward a ≡ true) × (contains r'.backward b ≡ true)
foldl-keeps [] r a b h = h
foldl-keeps (x ∷ xs) r a b h = foldl-keeps xs (reach_edge r x) a b (reach_edge-keeps r x a b h)

reach_loop-keeps :
    (fuel : ℕ) (chs : List Channel) (r : Reach) (a b : String)
    → (contains r.forward a ≡ true) × (contains r.backward b ≡ true)
    → let r' = reach_loop fuel chs r in
      (contains r'.forward a ≡ true) × (contains r'.backward b ≡ true)
unfolding reach_loop reach_round
reach_loop-keeps zero chs r a b h = h
reach_loop-keeps (suc fuel) chs r a b h =
    let k = foldl-keeps chs (record r { changed = false }) a b h in
    elim (Bool-cases (reach_round chs r).changed) [
      | inl on ↦ rw on (reach_loop-keeps fuel chs (reach_round chs r) a b k)
      | inr off ↦ rw off k
    ]

cycle_reach-keeps :
    (chs : List Channel) (c : Channel)
    → (contains (cycle_reach chs c).forward c.spec.to ≡ true)
      × (contains (cycle_reach chs c).backward c.spec.from ≡ true)
unfolding cycle_reach
cycle_reach-keeps chs c =
    reach_loop-keeps (reach_fuel chs) chs (reach_start c) c.spec.to c.spec.from
      (ground (arith, ==-refl c.spec.to), ground (arith, ==-refl c.spec.from))

-- `cycleMembers` finds the operations on the cycle that the channel closes, and no others: its two
-- ends, and each operation that inner edges lead to from its consumer and from which they lead to
-- its producer.
pub is_member_iff :
    (chs : List Channel) (c : Channel) (op : String)
    → (is_member c (cycle_reach chs c) op ≡ true) ↔ (
        (op ≡ c.spec.to)
        ⊎ (op ≡ c.spec.from)
        ⊎ (Leads chs c.spec.to op × LeadsTo chs c.spec.from op))
unfolding is_member
is_member_iff chs c op = (
  found,
  λ d. elim d [
    | inl e ↦ rw e (ground (arith, ==-refl c.spec.to))
    | inr d' ↦ elim d' [
      | inl e ↦ rw e (ground (arith, ==-refl c.spec.from))
      | inr (to, from) ↦ ground (
        arith,
        forward_complete chs c (cycle_reach chs c) (cycle_reach-IsClosed chs c)
            (cycle_reach-keeps chs c).0 to,
        backward_complete chs c (cycle_reach chs c) (cycle_reach-IsClosed chs c)
            (cycle_reach-keeps chs c).1 from,
      )
    ]
  ],
)
  where
    v : IsSound chs c (cycle_reach chs c)
    v = cycle_reach-IsSound chs c

    found :
        is_member c (cycle_reach chs c) op ≡ true
        → ((op ≡ c.spec.to)
            ⊎ (op ≡ c.spec.from)
            ⊎ (Leads chs c.spec.to op × LeadsTo chs c.spec.from op))
    found h = elim (Bool-cases (op == c.spec.to)) [
      | inl e ↦ inl (eq_of_== op c.spec.to e)
      | inr ne ↦ elim (Bool-cases (op == c.spec.from)) [
        | inl e ↦ inr (inl (eq_of_== op c.spec.from e))
        | inr ne' ↦
            inr (inr (v.forward_sound op (ground arith), v.backward_sound op (ground arith)))
      ]
    ]
