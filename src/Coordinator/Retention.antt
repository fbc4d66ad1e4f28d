-- ===== src/Coordinator/Retention.antt =====
-- `DeleteRetainedBefore` of pkg/coordinator/subscriptions.go.
pub mod Kept
pub mod Targets
use stark8s.Prelude.{
  ℕ, ◌-◌, pos_part, String, true, not, Option, none, some, List, foldl, length, set, take, drop,
  delete, ◌==◌, string_eq, if◌then◌else◌,
}
use stark8s.Graph.{is_retained}
use stark8s.Coordinator.Api.{Error, PartitionPosition}
use stark8s.Coordinator.State.{
  Channel, M, ◌>>=◌, ◌>>◌, return, fail, modify, refuse_if, commit_locked, update_segment,
}
use stark8s.Coordinator.Names.{segment_key}
use stark8s.Coordinator.Pods.{get, put_channel}
use stark8s.Coordinator.Subscriptions.{base_at, history_at, check_positions}

-- A deleted entry loses its receipt and its records; one with no producer is forgotten at once.
unfoldable pub forget_entry : Channel → ℕ → Channel
forget_entry c p =
    let s = c.heap p in
    let c' =
      record (update_segment c p
        (λ t. record t { payload = none; retention_deleted = true; released = true })) {
          append_ids = delete c.append_ids s.append_id;
        } in
    if s.producer == ""
    then record c' { index = delete c.index (segment_key s.holder s.id) }
    else c'

-- The history of one partition before an absolute position goes. The positions were checked before
-- the first of them is applied: where a later one for the same partition is lower, the source's
-- slice bound is negative and it panics, and here nothing is taken.
unfoldable pub truncate : Channel → PartitionPosition → Channel
unfolding forget_entry
truncate c a =
    let p = pos_part a.partition in
    let count = pos_part a.offset - base_at c p in
    let c' = foldl forget_entry c (take count (history_at c p)) in
    record c' {
      history = set c.history p (drop count (history_at c p));
      history_base = set c.history_base p (pos_part a.offset);
    }

abbrev refuse : Option Error → M (Unit {0})
refuse none = return tt
refuse (some e) = fail e

unfoldable pub delete_retained_before : String → List PartitionPosition → M (Unit {0})
delete_retained_before channel targets = do
  c ← get channel
  refuse_if (not (is_retained c.spec.durability)) Error.not_retained
  refuse (check_positions c (length c.history) Error.retention_out_of_range targets)
  modify (put_channel channel (foldl truncate c targets))
  commit_locked
