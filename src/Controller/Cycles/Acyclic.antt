-- ===== src/Controller/Cycles/Acyclic.antt =====
-- `Validate` of pkg/controller/reconciler.go: an accepted workload has no cycle without feedback.
use stark8s.Prelude.{
  ℕ, ◌<◌, String, Bool, true, false, not, ◌&&◌, Option, none, some, List, [], ◌∷◌, contains, length,
  Map, lookup, is_some, ◌==◌, ==-refl, eq_of_==, if◌then◌else◌, string_eq, ◌≡◌, inl, inr, refl,
  subst, Bool-cases, All, arith,
}
use stark8s.Graph.{ChannelSpec}
use stark8s.Controller.Types.{WorkloadSpec}
use stark8s.Controller.Validate.{
  Invalid, first_fault, and_also, check_object_store, check_operations, check_names,
}
use stark8s.Controller.Cycles.{
  Color, color_of, Visit, visit, visit_roots, adjacent, is_edge, operation_names, fault_of,
  find_cycle, check_channel, check_channels, check_feedback, check_ends, validate,
}
use stark8s.Controller.Cycles.Colors.{white_ne_black}
use stark8s.Controller.Cycles.Ranked.{IsRanked, visit-Visits, visit_roots-AllVisited}

some_ne_none : {e : Invalid} → some e ≡ none → ⊥
some_ne_none p = cc

pub and_also-none : (a b : Option Invalid) → and_also a b ≡ none → (a ≡ none) × (b ≡ none)
and_also-none none b h = (refl, h)
and_also-none (some e) b h = absurd (some_ne_none h)

pub first_fault-All :
    (checks : List (Bool × Invalid))
    → first_fault checks ≡ none
    → All (λ check. check.0 ≡ false) checks
first_fault-All [] h = tt
first_fault-All ((true, e) ∷ checks) h = absurd (some_ne_none h)
first_fault-All ((false, e) ∷ checks) h = (refl, first_fault-All checks h)

pub All-contains {ℓ} :
    (P : String → Type ℓ) (xs : List String) (a : String) → All P xs → contains xs a ≡ true → P a
All-contains P [] a h c = absurd (false_ne_true c)
  where
    false_ne_true : false ≡ true → ⊥
    false_ne_true p = cc
All-contains P (x ∷ xs) a h c = elim (Bool-cases (x == a)) [
  | inl t ↦ subst P (eq_of_== x a t) h.0
  | inr f ↦ All-contains P xs a h.1 (rw f at c)
]

-- The ends of an edge are declared operations.
abbrev pub Declared : WorkloadSpec → ChannelSpec → Type 0
Declared s c =
    is_edge c ≡ true
    → (contains (operation_names s) c.from ≡ true) × (contains (operation_names s) c.to ≡ true)

edge_declared :
    (a b c d : Bool) (f : Bool)
    → (not a && not b) ≡ false
    → (not c && not d) ≡ false
    → (not a && not c && not f) ≡ true
    → (b ≡ true) × (d ≡ true)
edge_declared a b c d f h k e = ground arith

check_channel-Declared :
    (s : WorkloadSpec) (c : ChannelSpec) → check_channel s c ≡ none → Declared s c
unfolding check_channel
check_channel-Declared s c h e =
    let f = (and_also-none (first_fault (check_ends s c)) (check_feedback s c c.feedback) h).0 in
    let ends = first_fault-All (check_ends s c) f in
    edge_declared (c.from == "") (contains (operation_names s) c.from) (c.to == "")
      (contains (operation_names s) c.to) (is_some c.feedback) ends.0 ends.1.0 e

pub check_channels-Declared :
    (s : WorkloadSpec) (cs : List ChannelSpec) → check_channels s cs ≡ none → All (Declared s) cs
unfolding check_channels
check_channels-Declared s [] h = tt
check_channels-Declared s (c ∷ cs) h =
    let p = and_also-none (check_channel s c) (check_channels s cs) h in
    (check_channel-Declared s c p.0, check_channels-Declared s cs p.1)

-- What holds of all operations next to one holds at the end of each edge from it.
pub adjacent-All {ℓ κ} :
    (P : String → String → Type ℓ) (Q : String → Type κ) (cs : List ChannelSpec)
    → ((n : String) → Q n → All (P n) (adjacent cs n))
    → All (λ c. is_edge c ≡ true → Q c.from → P c.from c.to) cs
unfolding adjacent
adjacent-All P Q [] h = tt
adjacent-All P Q (c ∷ cs) h = (
  λ e q. head c.from (rw (e, ==-refl c.from) refl) (h c.from q),
  adjacent-All P Q cs (λ n q. rest n (h n q)),
)
  where
    head :
        (n : String)
        → (is_edge c && c.from == n) ≡ true
        → All (P n) (if is_edge c && c.from == n then c.to ∷ adjacent cs n else adjacent cs n)
        → P n c.to
    head n e h = (rw e at h).0

    rest :
        (n : String)
        → All (P n) (if is_edge c && c.from == n then c.to ∷ adjacent cs n else adjacent cs n)
        → All (P n) (adjacent cs n)
    rest n h = elim (Bool-cases (is_edge c && c.from == n)) [
      | inl t ↦ (rw t at h).1
      | inr f ↦ rw f at h
    ]

All-zip {ℓ κ η} :
    {A : Type 0} {P : A → Type ℓ} {Q : A → Type κ} {R : A → Type η}
    → ((a : A) → P a → Q a → R a)
    → (xs : List A) → All P xs
    → All Q xs
    → All R xs
All-zip f [] h k = tt
All-zip f (x ∷ xs) h k = (f x h.0 k.0, All-zip f xs h.1 k.1)

fault_of-none : (v : Visit) → fault_of v ≡ none → (cs : Map String Color) × (v ≡ Visit.colored cs)
fault_of-none (Visit.colored cs) h = (cs, refl)
fault_of-none (Visit.fault e) h = absurd (some_ne_none h)

pub no_colors : (s : WorkloadSpec) → IsRanked s.channels []
unfolding lookup
no_colors s = record {
  rank = λ n. 0;
  bound = 0;
  below = λ n b. absurd (white_ne_black b);
  falls = λ n b. absurd (white_ne_black b);
}

-- A workload that `Validate` accepts has no cycle without a feedback channel: the operations have
-- ranks, and each channel that has both ends and is no feedback leads from one rank to a lower one.
pub validate-acyclic :
    (s : WorkloadSpec)
    → validate s ≡ none
    → (rank : String → ℕ) × All (λ c. is_edge c ≡ true → rank c.to < rank c.from) s.channels
unfolding validate find_cycle lookup
validate-acyclic s h =
    let a = and_also-none (check_object_store s.object_store) _ h in
    let b = and_also-none (check_operations s [] s.operations) _ a.1 in
    let c = and_also-none (check_names [] s.channels) _ b.1 in
    let d = and_also-none (check_channels s s.channels) (find_cycle s) c.1 in
    let declared = check_channels-Declared s s.channels d.0 in
    let go = visit s.channels (length s.operations) in
    let v = fault_of-none (visit_roots go (operation_names s) []) d.1 in
    let done =
      visit_roots-AllVisited s.channels go (operation_names s) [] v.0
        (visit-Visits s.channels (length s.operations)) (no_colors s) (λ x e. white_ne_grey e)
        v.1 in
    let r = done.ranked in
    let edges =
      adjacent-All (λ n m. (color_of v.0 m ≡ Color.black) × (r.rank m < r.rank n))
        (λ n. color_of v.0 n ≡ Color.black) s.channels r.falls in
    (
      r.rank,
      All-zip
          (λ c declared falls e.
            (falls e (
              All-contains (λ n. color_of v.0 n ≡ Color.black) (operation_names s) c.from
                done.blackened (declared e).0)).1)
          s.channels declared edges,
    )
  where
    white_ne_grey : Color.white ≡ Color.grey → ⊥
    white_ne_grey p = cc
