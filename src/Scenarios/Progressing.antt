-- ===== src/Scenarios/Progressing.antt =====
-- Witnesses for loops and epochs, completion, subscriptions, retention and keys.
use stark8s.Prelude.{
  ◌+◌, or_else, ℕ, zero, suc, ◌≤◌, ◌<◌, pos, negsuc, pos_part, List, [], ◌∷◌, ◌++◌, All, true,
  false, not, any, keep, values, String, length, get_or, nat_beq, string_eq, int_eq, lookup, foldl,
  inc32, ◌==◌, ◌&&◌, ◌≤ℤ◌, some, none, ◌≢◌, ◌⊎◌, ◌↔◌, ◌≡◌, refl, sym, ◌∙◌, arith, get_elem?,
}
use stark8s.Graph.{FeedbackMode}
use stark8s.Coordinator.Api.{Error, Record, PartitionPosition, SubscriptionAck}
use stark8s.Coordinator.State.{Pod, Channel, Subscription}
use stark8s.Coordinator.Channels.{broadcast}
use stark8s.Coordinator.Pods.{op_of, pod_ttl}
use stark8s.Coordinator.Settle.{cycle_reach, is_member}
use stark8s.Coordinator.Settle.Cycle.{IsClosed, cycle_reach-IsClosed}
use stark8s.Coordinator.Settle.Sound.{Leads, LeadsTo}
use stark8s.Coordinator.Settle.Members.{is_member_iff}
use stark8s.Coordinator.Epochs.{
  barrier_reached, keeps_open, finish_epoch, record_operation_epoch_done, advance_epoch,
}
use stark8s.Coordinator.Epochs.Barrier.{barrier_reached-All, record_operation_epoch_done-channels}
use stark8s.Coordinator.Epochs.Release.{advance_epoch-releases}
use stark8s.Coordinator.Metrics.{look, selected}
use stark8s.Coordinator.Metrics.Progress.{look-resume}
use stark8s.Coordinator.Segments.{index_segment, record_segment, place_segment}
use stark8s.Coordinator.Segments.History.{IsNumbered, index_segment-IsNumbered}
use stark8s.Coordinator.Subscriptions.{
  Reading, read_partition, read_partitions, ack_position, check_positions,
}
use stark8s.Coordinator.Subscriptions.Cursor.{
  AtCursor, read_partitions-AtCursor, ack_position-AtCursor, ack_position-advance,
}
use stark8s.Coordinator.Retention.{truncate}
use stark8s.Coordinator.Retention.Targets.{delete_retained-IsNumbered}
use stark8s.Scenarios.{lines, empty_lines, one_line, first_segment, counting, running}

-- A loop: `lines` from `read` to `count`, and `back` from `count` to `read` that closes it.
abbrev back_channel : Channel
back_channel = record empty_lines {
  spec = record lines {
    name = "back";
    from = "count";
    to = "read";
    feedback =
        some (record { mode = FeedbackMode.asynchronous; max_epochs = pos 0; overflow = "" });
  };
}

abbrev loop_channels : List Channel
loop_channels = empty_lines ∷ back_channel ∷ []

cycle_reach-IsClosed_example : IsClosed loop_channels (cycle_reach loop_channels back_channel)
cycle_reach-IsClosed_example = cycle_reach-IsClosed loop_channels back_channel

is_member_iff_example :
    (is_member back_channel (cycle_reach loop_channels back_channel) "count" ≡ true) ↔ (
      (◌≡◌ {A = String} "count" "read")
      ⊎ (◌≡◌ {A = String} "count" "count")
      ⊎ (Leads loop_channels "read" "count" × LeadsTo loop_channels "count" "count"))
is_member_iff_example = is_member_iff loop_channels back_channel "count"

barrier_reached-All_example :
    All
      (λ (e : String × Pod).
        (100 < e.1.last_seen + pod_ttl)
        × (pos 0 ≤ℤ or_else (lookup counting.epoch_done e.0) (pos 0)))
      counting.pods
    × (1 ≤ length counting.pods)
    × (0 < length counting.pods)
unfolding barrier_reached lookup
barrier_reached-All_example = barrier_reached-All counting (pos 0) 100 refl

record_operation_epoch_done-channels_example :
    let co' = (record_operation_epoch_done "count" "a" (pos 1) running).0 in
    (co'.channels ≡ running.channels)
    ⊎ ((co'.channels ≡ (finish_epoch "count" (pos 1) running).channels)
        × (barrier_reached (op_of co' "count") (pos 1) 100 ≡ true)
        × (any (keeps_open "count" (pos 1)) (values running.channels) ≡ false))
record_operation_epoch_done-channels_example =
    record_operation_epoch_done-channels "count" "a" (pos 1) running

-- A segment of the next epoch waits.
abbrev waiting : Channel
waiting = record one_line { held = 0 ∷ []; finite_epochs = true }

advance_epoch-releases_example :
    let c' = advance_epoch waiting in
    let e = inc32 waiting.epoch in
    (c'.epoch ≡ e)
    × (c'.heap ≡ waiting.heap)
    × (c'.held ≡ keep (λ p. not ((waiting.heap p).epoch == e)) waiting.held)
    × (broadcast waiting ≡ true
        → c'.log ≡ waiting.log ++ keep (λ p. (waiting.heap p).epoch == e) waiting.held)
    × (broadcast waiting ≡ false
        → (q : ℕ) → q < length waiting.queues
        → get_or c'.queues q []
          ≡ get_or waiting.queues q []
            ++ keep
                (λ p. (waiting.heap p).epoch == e && nat_beq (pos_part (waiting.heap p).part) q)
                waiting.held)
advance_epoch-releases_example = advance_epoch-releases waiting

abbrev word : Record
word = record { key = "w"; value = "1"; epoch = pos 0 }

abbrev results : Channel
results = record empty_lines { records = word ∷ [] }

abbrev more_results : Channel
more_results = record empty_lines { records = word ∷ word ∷ [] }

look-resume_example :
    (look "w" (pos (look "w" (negsuc 0) results).next) more_results).found
    ≡ selected "w" (word ∷ [])
look-resume_example = look-resume "w" (negsuc 0) results more_results (word ∷ []) refl

-- A retained channel with one entry, and a subscription to it.
no_entry : (p i : ℕ) → get_elem? (get_or empty_lines.history p []) i ≡ none
no_entry zero i = refl
no_entry (suc zero) i = refl
no_entry (suc (suc p)) i = refl

empty_lines-IsNumbered : IsNumbered empty_lines
empty_lines-IsNumbered p i e h = absurd (ground (arith, sym (no_entry p i) ∙ h))

index_segment-IsNumbered_example : IsNumbered (index_segment empty_lines first_segment)
index_segment-IsNumbered_example =
    index_segment-IsNumbered empty_lines first_segment empty_lines-IsNumbered

one_line-IsNumbered : IsNumbered one_line
one_line-IsNumbered = index_segment-IsNumbered empty_lines first_segment empty_lines-IsNumbered

abbrev first_target : PartitionPosition
first_target = record { partition = pos 1; offset = pos 1 }

delete_retained-IsNumbered_example : IsNumbered (foldl truncate one_line (first_target ∷ []))
unfolding index_segment record_segment place_segment lookup check_positions
delete_retained-IsNumbered_example =
    delete_retained-IsNumbered one_line Error.retention_out_of_range (first_target ∷ [])
      one_line-IsNumbered refl (tt, tt) refl

abbrev fresh_subscription : Subscription
fresh_subscription = record { name = "s"; operation = ""; positions = 0 ∷ 0 ∷ []; inflight = [] }

abbrev fresh_reading : Reading
fresh_reading = record { subscription = fresh_subscription; work = [] }

fresh-AtCursor : AtCursor fresh_subscription
unfolding lookup
fresh-AtCursor k d h = absurd (ground (arith, h))

read_partitions-AtCursor_example :
    AtCursor (read_partitions one_line "reader" 100 (0 ∷ 1 ∷ []) fresh_reading).0.subscription
read_partitions-AtCursor_example =
    read_partitions-AtCursor one_line "reader" 100 (0 ∷ 1 ∷ []) fresh_reading fresh-AtCursor

abbrev lent : Subscription
lent = (read_partitions one_line "reader" 100 (0 ∷ 1 ∷ []) fresh_reading).0.subscription

lent-AtCursor : AtCursor lent
lent-AtCursor =
    read_partitions-AtCursor one_line "reader" 100 (0 ∷ 1 ∷ []) fresh_reading fresh-AtCursor

abbrev read_ack : SubscriptionAck
read_ack = record { partition = pos 1; offset = pos 0; append_id = "r/s1" }

ack_position-AtCursor_example : AtCursor (ack_position "reader" lent read_ack)
ack_position-AtCursor_example = ack_position-AtCursor "reader" lent read_ack lent-AtCursor

ack_position-advance_example :
    let sub' = ack_position "reader" lent read_ack in
    (sub' ≡ lent)
    ⊎ ((get_or sub'.positions 1 0 ≡ suc (get_or lent.positions 1 0))
        × (lookup sub'.inflight (pos 1) ≡ none)
        × ((q : ℕ) → 1 ≢ q → get_or sub'.positions q 0 ≡ get_or lent.positions q 0))
unfolding read_partitions read_partition index_segment record_segment place_segment lookup
ack_position-advance_example =
    ack_position-advance "reader" lent read_ack lent-AtCursor (omega arith)
