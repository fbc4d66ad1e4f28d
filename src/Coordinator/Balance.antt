-- ===== src/Coordinator/Balance.antt =====
-- Partition ownership in pkg/coordinator/coordinator.go: `liveIDs`, `balanceHash` and `assigned`.
pub mod Scanned
pub mod Ownership
use Prim.Native.String.{compare as compare_text}
use text.Mathlib.Text.{is_le, is_lt}
use stark8s.Prelude.{
  ℕ, suc, ◌%◌, String, Option, none, some, List, [], ◌∷◌, ◌++◌, Map, length, contains, remove_key,
  keep, keys, range_from, lookup, insert, delete, or_else, ltb, ◌==◌, string_eq, nat_beq,
  if◌then◌else◌,
}
use stark8s.Graph.{is_hash}
use stark8s.Coordinator.State.{Operation, Channel}
use stark8s.Coordinator.Names.{owner_key}
use stark8s.Coordinator.Channels.{partitions}

-- `sort.Strings`, as an insertion sort.
unfoldable pub insert_text : String → List String → List String
insert_text s [] = s ∷ []
insert_text s (t ∷ ts) = if is_le (compare_text s t) then s ∷ t ∷ ts else t ∷ insert_text s ts

unfoldable pub sort_texts : List String → List String
unfolding insert_text
sort_texts [] = []
sort_texts (s ∷ ss) = insert_text s (sort_texts ss)

-- `sort.SearchStrings`: the first position in a sorted list that does not hold less.
unfoldable pub search_texts : List String → String → ℕ
search_texts [] s = 0
search_texts (t ∷ ts) s = if is_lt (compare_text t s) then suc (search_texts ts s) else 0

unfoldable pub live_ids : Operation → List String
unfolding sort_texts
live_ids o = sort_texts (keys o.pods)

-- The variables of `balanceHash`: the ownership maps, the load by pod, the free partitions.
pub record Balance : Type 0 where
  pub owner : Map String String
  pub pinned : List String
  pub load : Map String ℕ
  pub free : List ℕ

abbrev pub load_of : Map String ℕ → String → ℕ
load_of load id = or_else (lookup load id) 0

abbrev pub add_load : Map String ℕ → String → Map String ℕ
add_load load id = insert load id (suc (load_of load id))

abbrev add_free : Balance → ℕ → Balance
add_free b p = record b { free = b.free ++ p ∷ [] }

-- One round of the first loop, by what `o.owner[k]` holds.
abbrev scan_owned : List String → String → ℕ → Balance → Option String → Balance
scan_owned ids k p b none = add_free b p
scan_owned ids k p b (some owner) =
    if contains ids owner
    then if contains b.pinned k then record b { load = add_load b.load owner } else add_free b p
    else record b {
      owner = delete b.owner k;
      pinned = remove_key b.pinned k;
      free = b.free ++ p ∷ [];
    }

unfoldable pub scan_partition : List String → ℕ → ℕ → Balance → Balance
scan_partition ids n p b = scan_owned ids (owner_key n p) p b (lookup b.owner (owner_key n p))

unfoldable pub scan : List String → ℕ → List ℕ → Balance → Balance
scan ids n [] b = b
scan ids n (p ∷ ps) b = scan ids n ps (scan_partition ids n p b)

unfoldable pub least_loaded : Map String ℕ → String → List String → String
least_loaded load best [] = best
least_loaded load best (id ∷ ids) =
    least_loaded load (if ltb (load_of load id) (load_of load best) then id else best) ids

-- The second loop: each free partition goes to the pod with the least load.
unfoldable pub assign_free : String → List String → ℕ → List ℕ → Balance → Balance
unfolding least_loaded
assign_free first rest n [] b = b
assign_free first rest n (p ∷ ps) b =
    let best = least_loaded b.load first rest in
    assign_free first rest n ps
      (record b { owner = insert b.owner (owner_key n p) best; load = add_load b.load best })

abbrev pub start_balance : Operation → Balance
start_balance o = record { owner = o.owner; pinned = o.pinned; load = []; free = [] }

balance_over : List String → ℕ → Operation → Operation
unfolding scan scan_partition assign_free
balance_over [] n o = o
balance_over (first ∷ rest) n o =
    let b = scan (first ∷ rest) n (range_from 0 n) (start_balance o) in
    let b' = assign_free first rest n b.free b in record o { owner = b'.owner; pinned = b'.pinned }

unfoldable pub balance_hash : ℕ → Operation → Operation
unfolding balance_over live_ids
balance_hash n o = balance_over (live_ids o) n o

-- The partitions that stand at this pod's place in the rotation over the live pods.
unfoldable pub rotation : List String → String → ℕ → List ℕ
unfolding search_texts
rotation [] id n = []
rotation (first ∷ rest) id n =
    let ids = first ∷ rest in
    keep (λ p. nat_beq (p % length ids) (search_texts ids id)) (range_from 0 n)

abbrev pub owned_partitions : Operation → String → ℕ → List ℕ
owned_partitions o id n =
    keep (λ p. or_else (lookup o.owner (owner_key n p)) "" == id) (range_from 0 n)

-- `assigned`, with the operation as it leaves it.
unfoldable pub assigned : Channel → Operation → String → Operation × List ℕ
assigned c o id =
    if is_hash c.spec.partitioning.mode
    then (let o' = balance_hash (partitions c) o in (o', owned_partitions o' id (partitions c)))
    else (o, rotation (live_ids o) id (partitions c))
