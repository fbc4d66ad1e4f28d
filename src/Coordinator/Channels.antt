-- ===== src/Coordinator/Channels.antt =====
-- The methods of `channel` in pkg/coordinator/coordinator.go that only read it, or that move its
-- segments.
use stark8s.Prelude.{
  ℕ, ℤ, pos, pos_part, Bool, false, not, ◌&&◌, ◌||◌, Option, none, some, List, [], ◌∷◌, ◌++◌, map,
  length, is_empty, get_or, set, drop, keep, contains, values, add64, mul64, ◌==◌, string_eq,
  int_eq, nat_beq, if◌then◌else◌,
}
use stark8s.Graph.{
  FeedbackMode, Feedback, is_broadcast, is_materialized, is_synchronous, is_asynchronous,
}
use stark8s.Coordinator.State.{Segment, Channel}

abbrev pub partitions : Channel → ℕ
partitions c = pos_part c.spec.partitioning.partitions

abbrev pub external : Channel → Bool
external c = c.spec.to == ""

abbrev pub broadcast : Channel → Bool
broadcast c = is_broadcast c.spec.partitioning.mode

-- A feedback mode other than Asynchronous counts as Synchronous.
abbrev pub mode_of : Option Feedback → FeedbackMode
mode_of none = FeedbackMode.unset
mode_of (some f) =
    if is_asynchronous f.mode then FeedbackMode.asynchronous else FeedbackMode.synchronous

abbrev pub feedback_mode : Channel → FeedbackMode
feedback_mode c = mode_of c.spec.feedback

abbrev pub synchronous : Channel → Bool
synchronous c = is_synchronous (feedback_mode c)

abbrev pub max_epochs_of : Option Feedback → ℤ
max_epochs_of none = pos 0
max_epochs_of (some f) = f.max_epochs

-- `s.key()` of the source is `segment_key s.holder s.id`.
abbrev pub queue_at : Channel → ℤ → List ℕ
queue_at c p = get_or c.queues (pos_part p) []

abbrev pub set_queue : Channel → ℤ → List ℕ → Channel
set_queue c p q = record c { queues = set c.queues (pos_part p) q }

-- `enqueue`: to the log, or to the end of the queue of its partition.
unfoldable pub enqueue : Channel → ℕ → Channel
enqueue c p =
    if broadcast c
    then record c { log = c.log ++ p ∷ [] }
    else set_queue c (c.heap p).part (queue_at c (c.heap p).part ++ p ∷ [])

-- Pointers are compared.
abbrev pub remove_segment : List ℕ → ℕ → List ℕ
remove_segment list p = keep (λ x. not (nat_beq x p)) list

abbrev pub contains_segment : List ℕ → ℕ → Bool
contains_segment [] p = false
contains_segment (x ∷ xs) p = nat_beq x p || contains_segment xs p

abbrev pub sum_records : (ℕ → Segment) → List ℕ → ℕ
sum_records heap [] = 0
sum_records heap (p ∷ ps) = add64 (heap p).records (sum_records heap ps)

abbrev pub sum64 : List ℕ → ℕ
sum64 [] = 0
sum64 (n ∷ ns) = add64 n (sum64 ns)

-- The segments that are neither lost nor released.
abbrev pub wanted : Channel → List ℕ → List ℕ
wanted c = keep (λ p. not (c.heap p).lost && not (c.heap p).released)

-- What the consumer pods have not read of the log, or all of it where there are none.
abbrev unread : Channel → List ℕ → ℕ
unread c [] = sum_records c.heap (wanted c c.log)
unread c (cur ∷ curs) = sum64 (map (λ n. sum_records c.heap (wanted c (drop n c.log))) (cur ∷ curs))

unfoldable pub pending_by_partition : Channel → List ℕ
pending_by_partition c =
    if broadcast c then unread c (values c.cursor) ∷ [] else map (sum_records c.heap) c.queues

unfoldable pub pending : Channel → ℕ
unfolding pending_by_partition
pending c = sum64 (pending_by_partition c)

unfoldable pub held_records : Channel → ℕ
held_records c = sum_records c.heap c.held

abbrev inflight_of : Channel → ℕ → ℕ
inflight_of c p =
    if broadcast c
    then mul64 (c.heap p).records (length (c.heap p).delivered)
    else (c.heap p).records

unfoldable pub inflight_records : Channel → ℕ
inflight_records c = sum64 (map (inflight_of c) (values c.inflight))

unfoldable pub quiet : Channel → Bool
unfolding pending
quiet c = nat_beq (pending c) 0 && is_empty c.inflight

-- Whether records are withheld until production closes.
unfoldable pub gated : Channel → Bool
gated c =
    if is_materialized c.spec.delivery
    then if c.finite_epochs then not (contains c.production_closed c.epoch) else not c.sealed
    else false
