-- ===== src/Controller/Cycles.antt =====
-- `Validate` of pkg/controller/reconciler.go: the checks of channels, and the search for cycles.
pub mod Counted
pub mod Colors
pub mod Ranked
pub mod Acyclic
pub mod Bounded
use stark8s.Prelude.{
  ℕ, zero, suc, String, Bool, true, false, not, ◌&&◌, ◌||◌, Option, none, some, List, [], ◌∷◌, ◌++◌,
  map, contains, length, Map, lookup, insert, or_else, is_some, ◌==◌, if◌then◌else◌, string_eq,
}
use stark8s.Graph.{ChannelSpec, Feedback}
use stark8s.Controller.Types.{WorkloadSpec, DeclaredOperation}
use stark8s.Controller.Validate.{
  Invalid, first_fault, and_also, check_object_store, check_operations, check_names,
}

abbrev pub operation_names : WorkloadSpec → List String
operation_names s = map (λ o. o.name) s.operations

abbrev is_collective : List DeclaredOperation → String → Bool
is_collective [] name = false
is_collective (o ∷ os) name = (o.name == name && is_some o.collective) || is_collective os name

abbrev declared_channels : List ChannelSpec → List String
declared_channels cs = map (λ c. c.name) cs

check_feedback : WorkloadSpec → ChannelSpec → Option Feedback → Option Invalid
check_feedback s c none = none
check_feedback s c (some f) = first_fault (
    (c.to == "", Invalid.open_feedback c.name)
    ∷ (
      not (f.overflow == "") && not (contains (declared_channels s.channels) f.overflow),
      Invalid.unknown_overflow c.name,
    )
    ∷ (not (f.overflow == "") && f.overflow == c.name, Invalid.own_overflow c.name)
    ∷ [])

abbrev pub check_ends : WorkloadSpec → ChannelSpec → List (Bool × Invalid)
check_ends s c =
    (
      not (c.from == "") && not (contains (operation_names s) c.from),
      Invalid.unknown_producer c.name,
    )
    ∷ (not (c.to == "") && not (contains (operation_names s) c.to), Invalid.unknown_consumer c.name)
    ∷ (
      not (c.to == "") && is_collective s.operations c.from && not (is_some s.object_store),
      Invalid.volatile_output c.name,
    )
    ∷ []

unfoldable pub check_channel : WorkloadSpec → ChannelSpec → Option Invalid
unfolding check_feedback
check_channel s c = and_also (first_fault (check_ends s c)) (check_feedback s c c.feedback)

unfoldable pub check_channels : WorkloadSpec → List ChannelSpec → Option Invalid
unfolding check_channel
check_channels s [] = none
check_channels s (c ∷ cs) = and_also (check_channel s c) (check_channels s cs)

-- Feedback channels close cycles; the others are the edges that must not.
abbrev pub is_edge : ChannelSpec → Bool
is_edge c = not (c.from == "") && not (c.to == "") && not (is_some c.feedback)

unfoldable pub adjacent : List ChannelSpec → String → List String
adjacent [] n = []
adjacent (c ∷ cs) n =
    let rest = adjacent cs n in if is_edge c && c.from == n then c.to ∷ rest else rest

pub data Color : Type 0 where
  white grey black : Color

abbrev pub color_of : Map String Color → String → Color
color_of colors n = or_else (lookup colors n) Color.white

-- The colours after a visit, or the fault that it has found.
pub data Visit : Type 0 where
  colored : Map String Color → Visit
  fault : Invalid → Visit

abbrev pub then_visit : Visit → (Map String Color → Visit) → Visit
then_visit (Visit.colored colors) f = f colors
then_visit (Visit.fault e) f = Visit.fault e

abbrev pub visit_next :
    (String → Map String Color → Visit) → String → String → Map String Color → Color → Visit
visit_next go n m colors Color.grey = Visit.fault (Invalid.unbroken_cycle n m)
visit_next go n m colors Color.white = go m colors
visit_next go n m colors Color.black = Visit.colored colors

-- The loop of `visit` over the operations next to `n`, where `go` is the recursive call.
unfoldable pub visit_each :
    (String → Map String Color → Visit) → String → List String → Map String Color → Visit
visit_each go n [] colors = Visit.colored colors
visit_each go n (m ∷ ms) colors =
    then_visit (visit_next go n m colors (color_of colors m)) (visit_each go n ms)

abbrev pub blacken : String → Map String Color → Visit
blacken n colors = Visit.colored (insert colors n Color.black)

-- The depth of the recursion is bounded by the number of operations that are white.
unfoldable pub visit : List ChannelSpec → ℕ → String → Map String Color → Visit
unfolding adjacent visit_each
visit chs zero n colors = Visit.fault Invalid.too_deep
visit chs (suc depth) n colors =
    then_visit (visit_each (visit chs depth) n (adjacent chs n) (insert colors n Color.grey))
      (blacken n)

abbrev pub visit_if_white :
    (String → Map String Color → Visit) → String → Map String Color → Color → Visit
visit_if_white go n colors Color.white = go n colors
visit_if_white go n colors _ = Visit.colored colors

unfoldable pub visit_roots :
    (String → Map String Color → Visit) → List String → Map String Color → Visit
visit_roots go [] colors = Visit.colored colors
visit_roots go (n ∷ ns) colors =
    then_visit (visit_if_white go n colors (color_of colors n)) (visit_roots go ns)

abbrev pub fault_of : Visit → Option Invalid
fault_of (Visit.colored colors) = none
fault_of (Visit.fault e) = some e

unfoldable pub find_cycle : WorkloadSpec → Option Invalid
unfolding visit_roots visit
find_cycle s =
    fault_of (visit_roots (visit s.channels (length s.operations)) (operation_names s) [])

unfoldable pub validate : WorkloadSpec → Option Invalid
unfolding find_cycle check_channels
validate s = and_also (check_object_store s.object_store) (
    and_also (check_operations s [] s.operations) (
      and_also (check_names [] s.channels) (and_also (check_channels s s.channels) (find_cycle s))))
