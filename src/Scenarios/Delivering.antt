-- ===== src/Scenarios/Delivering.antt =====
-- Witnesses for the theorems on segments in flight.
use stark8s.Prelude.{
  ℕ, zero, suc, [], ◌∷◌, true, false, get_or, string_eq, lookup, insert, ◌≡◌, refl, arith,
}
use stark8s.Coordinator.State.{Channel}
use stark8s.Coordinator.Channels.{contains_segment, enqueue}
use stark8s.Coordinator.Pods.{new_operation}
use stark8s.Coordinator.Segments.{index_segment, record_segment, place_segment}
use stark8s.Coordinator.Consume.{Reader, Round, consume_partition, consume_partitions, take_queue}
use stark8s.Coordinator.Acks.{ack_segment, nack_segment}
use stark8s.Coordinator.Delivery.{NoDup, IsAccounted}
use stark8s.Coordinator.Delivery.Indexed.{index_segment-IsAccounted}
use stark8s.Coordinator.Produce.{announce_all, check_all, check_announcement}
use stark8s.Coordinator.Delivery.Announced.{announce_all-IsAccounted}
use stark8s.Coordinator.Delivery.Queued.{consume_partitions-IsAccounted}
use stark8s.Coordinator.Delivery.Returned.{ack_segment-IsAccounted}
use stark8s.Coordinator.Delivery.Refused.{nack_segment-IsAccounted}
use stark8s.Scenarios.{first_announcement, empty_lines, one_line, first_segment, first_ack}

-- The empty channel.
no_pointer : (i p : ℕ) → contains_segment (get_or empty_lines.queues i []) p ≡ false
no_pointer zero p = refl
no_pointer (suc zero) p = refl
no_pointer (suc (suc i)) p = refl

no_queue : (i : ℕ) → NoDup (get_or empty_lines.queues i [])
no_queue zero = tt
no_queue (suc zero) = tt
no_queue (suc (suc i)) = tt

empty_lines-IsAccounted : IsAccounted empty_lines
empty_lines-IsAccounted = record {
  places = λ p l needed. absurd (omega (arith, l));
  queued = λ i p q. absurd (ground (arith, q, no_pointer i p));
  once = no_queue;
  exclusive = λ p l. absurd (omega (arith, l));
}

index_segment-IsAccounted_example : IsAccounted (index_segment empty_lines first_segment)
index_segment-IsAccounted_example =
    index_segment-IsAccounted empty_lines first_segment refl (omega arith) refl
      empty_lines-IsAccounted

one_line-IsAccounted : IsAccounted one_line
one_line-IsAccounted =
    index_segment-IsAccounted empty_lines first_segment refl (omega arith) refl
      empty_lines-IsAccounted

abbrev reader : Reader
reader = record { delivery = "a"; cohort = "slot:0"; now = 100; limit = 10 }

abbrev before : Round
before = record { channel = one_line; operation = new_operation; count = 0; work = [] }

abbrev after : Channel
after = (consume_partitions reader (1 ∷ []) before).channel

consume_partitions-IsAccounted_example :
    IsAccounted (consume_partitions reader (1 ∷ []) before).channel
unfolding index_segment record_segment place_segment enqueue lookup
consume_partitions-IsAccounted_example =
    consume_partitions-IsAccounted reader (1 ∷ []) before (omega arith, tt) one_line-IsAccounted

after-IsAccounted : IsAccounted after
unfolding index_segment record_segment place_segment enqueue lookup
after-IsAccounted =
    consume_partitions-IsAccounted reader (1 ∷ []) before (omega arith, tt) one_line-IsAccounted

ack_segment-IsAccounted_example :
    IsAccounted (ack_segment "a" "a" after 0)
    × (((ack_segment "a" "a" after 0).heap 0).released ≡ true)
unfolding index_segment record_segment place_segment enqueue lookup insert consume_partitions
    consume_partition take_queue
ack_segment-IsAccounted_example =
    ack_segment-IsAccounted "a" "a" after 0 refl after-IsAccounted (omega arith) refl refl

nack_segment-IsAccounted_example :
    let c' = nack_segment 100 "a" "a" first_ack after 0 in
    IsAccounted c' × (get_or c'.queues 1 [] ≡ 0 ∷ get_or after.queues 1 [])
unfolding index_segment record_segment place_segment enqueue lookup insert consume_partitions
    consume_partition take_queue
nack_segment-IsAccounted_example =
    nack_segment-IsAccounted 100 "a" "a" first_ack after 0 refl after-IsAccounted (omega arith) refl
      refl refl

announce_all-IsAccounted_example :
    IsAccounted (announce_all "lines" "read" (first_announcement ∷ []) empty_lines)
unfolding check_all check_announcement lookup
announce_all-IsAccounted_example =
    announce_all-IsAccounted "lines" "read" (first_announcement ∷ []) empty_lines true refl refl
      refl empty_lines-IsAccounted
