-- ===== src/Controller/Cycles/Bounded.antt =====
-- `Validate` of pkg/controller/reconciler.go: the search for cycles comes to its end.
use stark8s.Prelude.{
  All-map, some-inj, ℕ, zero, suc, ◌≤◌, String, Bool, true, ◌&&◌, none, some, List, [], ◌∷◌,
  contains, length, Map, insert, lookup, map, ◌||◌, ◌==◌, ==-refl, string_eq, ◌≡◌, ◌≢◌, inl, inr,
  refl, sym, ap, Bool-cases, All, arith,
}
use stark8s.Graph.{ChannelSpec}
use stark8s.Controller.Types.{WorkloadSpec, DeclaredOperation}
use stark8s.Controller.Validate.{Invalid}
use stark8s.Controller.Cycles.{
  Color, color_of, Visit, visit_next, visit_each, visit, visit_if_white, visit_roots, blacken,
  adjacent, is_edge, operation_names, fault_of, find_cycle, check_channels,
}
use stark8s.Controller.Cycles.Colors.{Color-cases, grey_ne_white}
use stark8s.Controller.Cycles.Ranked.{
  IsRanked, Visits, visit_next-Visited, visit_if_white-Visited, grey-IsRanked, visit-Visits,
}
use stark8s.Controller.Cycles.Acyclic.{Declared, check_channels-Declared, no_colors}
use stark8s.Controller.Cycles.Counted.{
  whites, at_most_one, whites-Kept, whites_fall, Ends, then_visit-Ends, colored-Ends, cycle-Ends,
}

module _ (chs : List ChannelSpec) (names : List String)
    (closed : (n : String)
      → contains names n ≡ true
      → All (λ m. contains names m ≡ true) (adjacent chs n)) where
  -- A search that ends wherever no more operations are white than `depth`.
  abbrev EndsWithin : ℕ → (String → Map String Color → Visit) → Type 0
  EndsWithin depth go =
      (n : String) (cs : Map String Color)
      → color_of cs n ≡ Color.white
      → IsRanked chs cs
      → contains names n ≡ true
      → whites names cs ≤ depth
      → Ends (go n cs)

  visit_next-Ends :
      (depth : ℕ) (go : String → Map String Color → Visit) (n m : String) (cs : Map String Color)
      → EndsWithin depth go
      → IsRanked chs cs
      → contains names m ≡ true
      → whites names cs ≤ depth
      → Ends (visit_next go n m cs (color_of cs m))
  visit_next-Ends depth go n m cs ok r h k = elim (Color-cases (color_of cs m)) [
    | inl w ↦ rw w (ok m cs w r h k)
    | inr (inl g) ↦ rw g (cycle-Ends n m)
    | inr (inr b) ↦ rw b (colored-Ends cs)
  ]

  visit_each-Ends :
      (depth : ℕ) (go : String → Map String Color → Visit) (n : String) (ms : List String)
      (cs : Map String Color)
      → Visits chs go
      → EndsWithin depth go
      → IsRanked chs cs
      → All (λ m. contains names m ≡ true) ms
      → whites names cs ≤ depth
      → Ends (visit_each go n ms cs)
  unfolding visit_each
  visit_each-Ends depth go n [] cs sound ok r h k = colored-Ends cs
  visit_each-Ends depth go n (m ∷ ms) cs sound ok r h k =
      then_visit-Ends (visit_next go n m cs (color_of cs m)) (visit_each go n ms)
        (visit_next-Ends depth go n m cs ok r h.0 k)
        (λ ds e.
          let v = visit_next-Visited chs go n m cs ds sound r e in
          let fewer = whites-Kept names cs ds v.kept in
          visit_each-Ends depth go n ms ds sound ok v.ranked h.1 (omega (arith, fewer)))

  visit-EndsWithin : (depth : ℕ) → EndsWithin depth (visit chs depth)
  unfolding visit
  visit-EndsWithin zero n cs w r h k =
      let fewer = whites_fall names cs n w h in absurd (omega (arith, fewer))
  visit-EndsWithin (suc depth) n cs w r h k =
      let gs = insert cs n Color.grey in
      let fewer = whites_fall names cs n w h in
      then_visit-Ends (visit_each (visit chs depth) n (adjacent chs n) gs) (blacken n)
        (visit_each-Ends depth (visit chs depth) n (adjacent chs n) gs (visit-Visits chs depth)
          (visit-EndsWithin depth) (grey-IsRanked chs cs n w r) (closed n h) (omega (arith, fewer)))
        (λ ds e. colored-Ends (insert ds n Color.black))

  visit_if_white-Ends :
      (depth : ℕ) (go : String → Map String Color → Visit) (n : String) (cs : Map String Color)
      → EndsWithin depth go
      → IsRanked chs cs
      → contains names n ≡ true
      → whites names cs ≤ depth
      → Ends (visit_if_white go n cs (color_of cs n))
  visit_if_white-Ends depth go n cs ok r h k = elim (Color-cases (color_of cs n)) [
    | inl w ↦ rw w (ok n cs w r h k)
    | inr (inl g) ↦ rw g (colored-Ends cs)
    | inr (inr b) ↦ rw b (colored-Ends cs)
  ]

  visit_roots-Ends :
      (depth : ℕ) (go : String → Map String Color → Visit) (ns : List String)
      (cs : Map String Color)
      → Visits chs go
      → EndsWithin depth go
      → IsRanked chs cs
      → ((x : String) → color_of cs x ≢ Color.grey)
      → All (λ m. contains names m ≡ true) ns
      → whites names cs ≤ depth
      → Ends (visit_roots go ns cs)
  unfolding visit_roots
  visit_roots-Ends depth go [] cs sound ok r g h k = colored-Ends cs
  visit_roots-Ends depth go (n ∷ ns) cs sound ok r g h k =
      then_visit-Ends (visit_if_white go n cs (color_of cs n)) (visit_roots go ns)
        (visit_if_white-Ends depth go n cs ok r h.0 k)
        (λ ds e.
          let v = visit_if_white-Visited chs go n cs ds sound r (g n) e in
          let fewer = whites-Kept names cs ds v.kept in
          visit_roots-Ends depth go ns ds sound ok v.ranked (λ x q. g x (v.no_new_grey x q)) h.1
            (omega (arith, fewer)))

whites-length :
    (os : List DeclaredOperation) (cs : Map String Color)
    → whites (map (λ o. o.name) os) cs ≤ length os
whites-length [] cs = omega arith
whites-length (o ∷ os) cs = omega (arith, whites-length os cs, at_most_one (color_of cs o.name))

contains_more : (a b : Bool) → b ≡ true → (a || b) ≡ true
contains_more a b h = ground arith

contains-All : (ns : List String) → All (λ m. contains ns m ≡ true) ns
contains-All [] = tt
contains-All (n ∷ ns) = (
  rw (==-refl n) refl,
  All-map (λ m h. contains_more (n == m) (contains ns m) h) ns (contains-All ns),
)

adjacent-Declared :
    (s : WorkloadSpec) (cs : List ChannelSpec) (n : String)
    → All (Declared s) cs
    → All (λ m. contains (operation_names s) m ≡ true) (adjacent cs n)
unfolding adjacent
adjacent-Declared s [] n h = tt
adjacent-Declared s (c ∷ cs) n h = elim (Bool-cases (is_edge c && c.from == n)) [
  | inl t ↦ rw t ((h.0 (first_of (is_edge c) (c.from == n) t)).1, adjacent-Declared s cs n h.1)
  | inr f ↦ rw f (adjacent-Declared s cs n h.1)
]
  where
    first_of : (a b : Bool) → (a && b) ≡ true → a ≡ true
    first_of a b h = ground arith

some_ne_none : {e : Invalid} → none ≡ some e → ⊥
some_ne_none p = cc

fault_of-Ends : (v : Visit) → Ends v → fault_of v ≢ some Invalid.too_deep
fault_of-Ends (Visit.colored cs) h p = some_ne_none p
fault_of-Ends (Visit.fault e) h p = h (ap Visit.fault (some-inj p))

-- The search for cycles is never cut off by its bound, the number of operations: when the channels
-- have passed their own checks, as they have when the search begins, it finds a cycle or none.
pub find_cycle-bounded :
    (s : WorkloadSpec) → check_channels s s.channels ≡ none → find_cycle s ≢ some Invalid.too_deep
unfolding find_cycle lookup
find_cycle-bounded s h =
    let names = operation_names s in
    let chs = s.channels in
    let closed = λ (n : String) (k : contains names n ≡ true).
      adjacent-Declared s chs n (check_channels-Declared s chs h) in
    let depth = length s.operations in
    fault_of-Ends (visit_roots (visit chs depth) names []) (
      visit_roots-Ends chs names closed depth (visit chs depth) names [] (visit-Visits chs depth)
        (visit-EndsWithin chs names closed depth) (no_colors s) (λ x g. grey_ne_white (sym g))
        (contains-All names) (whites-length s.operations []))
