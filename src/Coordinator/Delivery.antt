-- ===== src/Coordinator/Delivery.antt =====
-- Where the segments of a channel with partitions are, between the operations of
-- pkg/coordinator/coordinator.go: an invariant of `channel` and its `segment`s.
pub mod Extended
pub mod Queued
pub mod Touched
pub mod Returned
pub mod PutBack
pub mod Refused
pub mod Placed
pub mod Announced
pub mod Indexed
use stark8s.Prelude.{
  ℕ, ℤ, ◌≤◌, ◌<◌, pos_part, String, Bool, true, false, Option, none, some, List, [], ◌∷◌, length,
  get_or, lookup, string_eq, nat_beq, Map, Bool-cases, ◌⊎◌, inl, inr, ◌≢◌, ◌≡◌, refl, sym, subst,
  ap, ◌∙◌, arith,
}
use stark8s.Coordinator.State.{Segment, Channel, write_cell}
use stark8s.Coordinator.Names.{segment_key}
use stark8s.Coordinator.Channels.{queue_at, contains_segment}

abbrev pub key_of : Channel → ℕ → String
key_of c p = segment_key (c.heap p).holder (c.heap p).id

-- The segment is pending, held for a later epoch, or in flight.
abbrev pub PlaceAt : Channel → ℤ → String → ℕ → Type 0
PlaceAt c part key p =
    (contains_segment (queue_at c part) p ≡ true)
    ⊎ (contains_segment c.held p ≡ true)
    ⊎ (lookup c.inflight key ≡ some p)

abbrev pub Place : Channel → ℕ → Type 0
Place c p = PlaceAt c (c.heap p).part (key_of c p) p

abbrev pub NoDup : List ℕ → Type 0
NoDup [] = Unit
NoDup (x ∷ xs) = (contains_segment xs x ≡ false) × NoDup xs

-- A segment that is needed is indexed under its key, and is somewhere; what is pending is in the
-- queue of its partition once, and with no process; and no segment is with two processes.
pub record IsAccounted (c : Channel) : Type 0 where
  pub places :
      (p : ℕ)
      → p < c.fresh
      → (c.heap p).released ≡ false
      → (lookup c.index (key_of c p) ≡ some p)
        × (pos_part (c.heap p).part < length c.queues)
        × Place c p
  pub queued :
      (i p : ℕ)
      → contains_segment (get_or c.queues i []) p ≡ true
      → (p < c.fresh)
        × (lookup c.index (key_of c p) ≡ some p)
        × (pos_part (c.heap p).part ≡ i)
        × ((c.heap p).delivered ≡ [])
  pub once : (i : ℕ) → NoDup (get_or c.queues i [])
  pub exclusive : (p : ℕ) → p < c.fresh → length (c.heap p).delivered ≤ 1

-- A write to one segment, and what it leaves of another, or of itself.
pub write-field {ℓ} :
    {A : Type ℓ} (g : Segment → A) (heap : ℕ → Segment) (p : ℕ) (s : Segment) (x : ℕ)
    → g s ≡ g (heap p)
    → g (write_cell heap p s x) ≡ g (heap x)
write-field g heap p s x h = elim (Bool-cases (nat_beq p x)) [
  | inl same ↦ rw same (h ∙ ap (λ n. g (heap n)) (ground (arith, same)))
  | inr other ↦ rw other refl
]

pub write-ne :
    (heap : ℕ → Segment) (p : ℕ) (s : Segment) (x : ℕ) → p ≢ x → write_cell heap p s x ≡ heap x
write-ne heap p s x h = ground arith

pub write_self : (heap : ℕ → Segment) (p : ℕ) (s : Segment) → write_cell heap p s p ≡ s
write_self heap p s = ground arith

-- Two keys under which the index has different segments are different.
pub index-ne :
    (m : Map String ℕ) (k k' : String) (p x : ℕ)
    → lookup m k ≡ some p
    → lookup m k' ≡ some x
    → p ≢ x
    → k ≢ k'
index-ne m k k' p x h h' ne e = ne (ground (arith, sym h ∙ ap (lookup m) e ∙ h'))

pub Place-at :
    (c : Channel) (part : ℤ) (key : String) (x : ℕ)
    → (c.heap x).part ≡ part
    → key_of c x ≡ key
    → PlaceAt c part key x
    → Place c x
Place-at c part key x h k place =
    subst (λ n. PlaceAt c n (key_of c x) x) (sym h) (subst (λ n. PlaceAt c part n x) (sym k) place)
