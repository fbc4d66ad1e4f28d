-- ===== src/Scenarios/Serving.antt =====
-- Witnesses for registration, announcing, consuming, acknowledging and the ownership of partitions.
use stark8s.Prelude.{
  ◌+◌, ◌≤◌, pos, [], ◌∷◌, ◌++◌, All, true, false, String, length, contains, get_or, string_eq,
  lookup, insert, delete, ne_of_==, some, ◌≢◌, ◌≡◌, refl, arith,
}
use stark8s.Coordinator.Api.{Error}
use stark8s.Coordinator.State.{Operation, ok, err, commit_locked, require_durable_writer}
use stark8s.Coordinator.Names.{owner_key}
use stark8s.Coordinator.Channels.{enqueue, gated}
use stark8s.Coordinator.Pods.{
  new_operation, expire_all_except, expire_ops, expire_pods, return_consumer_deliveries,
  return_on_channel, return_inflight,
}
use stark8s.Coordinator.Registration.{register, touch}
use stark8s.Coordinator.Segments.{may_produce, index_segment, record_segment, place_segment}
use stark8s.Coordinator.Consume.{Reader, Round, consume_partition, take_queue, hand_out}
use stark8s.Coordinator.Balance.{balance_hash, live_ids}
use stark8s.Coordinator.Produce.{announce_one, announce_session, check_announcement}
use stark8s.Coordinator.Registration.Replaced.{register-fences}
use stark8s.Coordinator.Produce.Retry.{announce_one-retry}
use stark8s.Coordinator.Produce.Announce.{announce_session-err}
use stark8s.Coordinator.Consume.Fifo.{segment_count, consume_partition-append, hand_out-limit}
use stark8s.Coordinator.Balance.Ownership.{balance_hash-owned, balance_hash-pinned}
use stark8s.Scenarios.{
  empty_lines, one_line, first_announcement, pod_a_again, running, counting, live_pod,
}

register-fences_example :
    (register
      (record pod_a_again { incarnation = "i1"; addr = "b:1"; slots = pos 2 })
      (record ((register pod_a_again running).0) { now = 900 })).1
    ≡ err Error.incarnation_replaced
unfolding register touch expire_all_except expire_ops expire_pods return_consumer_deliveries
    return_on_channel return_inflight commit_locked lookup insert delete
register-fences_example =
    register-fences pod_a_again live_pod running refl (ne_of_== "i1" "" refl)
      (ne_of_== "i1" "i2" refl) refl "b:1" (pos 2) 900

announce_one-retry_example :
    let c' = announce_one "lines" "read" empty_lines first_announcement in
    (check_announcement c' "lines" first_announcement ≡ ok false)
    × (announce_one "lines" "read" c' first_announcement ≡ c')
unfolding lookup
announce_one-retry_example =
    announce_one-retry "lines" "read" empty_lines first_announcement (ne_of_== "s1" "" refl) refl
      (λ e. absurd (ne_of_== "read" "" refl e)) refl refl

announce_session-err_example :
    (announce_session "lines" "count" "" "" (first_announcement ∷ []) running).0.channels
    ≡ running.channels
unfolding announce_session require_durable_writer may_produce lookup
announce_session-err_example =
    announce_session-err "lines" "count" "" "" (first_announcement ∷ []) running
      Error.may_not_produce (record { no_store = refl; no_failure = refl }) refl

abbrev reader_a : Reader
reader_a = record { delivery = "a"; cohort = "slot:0"; now = 100; limit = 10 }

abbrev start_round : Round
start_round = record { channel = one_line; operation = new_operation; count = 0; work = [] }

consume_partition-append_example :
    let round' = consume_partition reader_a 1 start_round in
    let taken = (take_queue reader_a one_line 0 (get_or one_line.queues 1 [])).taken in
    (taken ++ get_or round'.channel.queues 1 [] ≡ get_or one_line.queues 1 [])
    × (round'.count ≡ 0 + length taken)
    × All (λ x. contains (round'.channel.heap x).delivered "a" ≡ true) taken
unfolding index_segment record_segment place_segment enqueue lookup
consume_partition-append_example = consume_partition-append reader_a 1 start_round (omega arith)

hand_out-limit_example :
    let round = hand_out reader_a "a" one_line counting in
    (segment_count round.work ≡ round.count)
    × (round.count ≤ 10)
    × (gated one_line ≡ true
        → (round.work ≡ []) × (round.channel ≡ one_line) × (round.operation ≡ counting))
hand_out-limit_example = hand_out-limit reader_a "a" one_line counting

has_pod : live_ids counting ≢ []
unfolding live_ids
has_pod e = ground (arith, e)

balance_hash-owned_example :
    (id : String) × (lookup (balance_hash 2 counting).owner (owner_key 2 1) ≡ some id)
    × (contains (live_ids counting) id ≡ true)
balance_hash-owned_example = balance_hash-owned 2 counting 1 has_pod (omega arith)

abbrev pinned_counting : Operation
pinned_counting = record counting { owner = ("2/1", "a") ∷ []; pinned = "2/1" ∷ [] }

balance_hash-pinned_example :
    (lookup (balance_hash 2 pinned_counting).owner "2/1" ≡ some "a")
    × (contains (balance_hash 2 pinned_counting).pinned "2/1" ≡ true)
unfolding live_ids lookup
balance_hash-pinned_example = balance_hash-pinned 2 pinned_counting "2/1" "a" refl refl refl
