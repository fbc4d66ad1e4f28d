-- ===== src/Coordinator/Consume/Fifo.antt =====
-- What `ConsumeSession` hands out of a queue: a prefix, in order, within the limit.
use stark8s.Prelude.{
  ℕ, suc, ◌+◌, ◌≤◌, ◌<◌, get_or-set_self, drop, String, Bool, true, not, ◌&&◌, List, [], ◌∷◌, ◌++◌,
  All, length, contains, contains-add_key, contains-add_key_self, get_or, ltb, Bool-cases, inl, inr,
  ◌≡◌, refl, ap, arith, string_eq,
}
use stark8s.Coordinator.State.{Channel, Operation}
use stark8s.Coordinator.Api.{PartitionWork}
use stark8s.Coordinator.Channels.{gated, broadcast}
use stark8s.Coordinator.Balance.{assigned}
use stark8s.Coordinator.Consume.{
  Reader, Round, must_wait, deliver, take_queue, take_log, consume_partition, consume_partitions,
  hand_out, refs_of, work_of, cursor_of, consume_log, is_skipped,
}

-- The test of the loop.
abbrev takes : Reader → Channel → ℕ → ℕ → Bool
takes r c n p = ltb n r.limit && not (must_wait r (c.heap p))

-- How many segments a response holds.
abbrev pub segment_count : List PartitionWork → ℕ
segment_count [] = 0
segment_count (w ∷ ws) = length w.segments + segment_count ws

segment_count-append :
    (ws vs : List PartitionWork) → segment_count (ws ++ vs) ≡ segment_count ws + segment_count vs
segment_count-append [] vs = omega arith
segment_count-append (w ∷ ws) vs = omega (arith, segment_count-append ws vs)

length-refs_of : (c : Channel) (xs : List ℕ) → length (refs_of c xs) ≡ length xs
length-refs_of c [] = refl
length-refs_of c (x ∷ xs) = ap suc (length-refs_of c xs)

segment_count-work_of :
    (c : Channel) (p : ℕ) (xs : List ℕ) → segment_count (work_of c p xs) ≡ length xs
segment_count-work_of c p [] = refl
segment_count-work_of c p (x ∷ xs) = omega (arith, length-refs_of c xs)

-- The work of a round is counted, within the limit.
record IsCounted (r : Reader) (round : Round) : Type 0 where
  counted : segment_count round.work ≡ round.count
  limited : round.count ≤ r.limit

module _ (r : Reader) where
  -- A loop over a queue takes a prefix of it, in order, and leaves the rest.
  take_queue-append :
      (c : Channel) (n : ℕ) (q : List ℕ)
      → (take_queue r c n q).taken ++ (take_queue r c n q).left ≡ q
  unfolding take_queue
  take_queue-append c n [] = refl
  take_queue-append c n (p ∷ ps) = elim (Bool-cases (takes r c n p)) [
    | inl go ↦ rw go (ap (◌∷◌ p) (take_queue-append (deliver r c p) (suc n) ps))
    | inr halt ↦ rw halt
  ]

  take_queue-count :
      (c : Channel) (n : ℕ) (q : List ℕ)
      → (take_queue r c n q).count ≡ n + length (take_queue r c n q).taken
  unfolding take_queue
  take_queue-count c n [] = omega arith
  take_queue-count c n (p ∷ ps) = elim (Bool-cases (takes r c n p)) [
    | inl go ↦ rw go (omega (arith, take_queue-count (deliver r c p) (suc n) ps))
    | inr halt ↦ rw halt (omega arith)
  ]

  take_queue-limit :
      (c : Channel) (n : ℕ) (q : List ℕ) → n ≤ r.limit → (take_queue r c n q).count ≤ r.limit
  unfolding take_queue
  take_queue-limit c n [] h = h
  take_queue-limit c n (p ∷ ps) h = elim (Bool-cases (takes r c n p)) [
    | inl go ↦ rw go (take_queue-limit (deliver r c p) (suc n) ps (ground arith))
    | inr halt ↦ rw halt h
  ]

  -- A delivery that is there stays while the loop goes on.
  take_queue-keeps :
      (c : Channel) (n : ℕ) (q : List ℕ) (x : ℕ)
      → contains (c.heap x).delivered r.delivery ≡ true
      → contains ((take_queue r c n q).channel.heap x).delivered r.delivery ≡ true
  unfolding take_queue
  take_queue-keeps c n [] x h = h
  take_queue-keeps c n (p ∷ ps) x h = elim (Bool-cases (takes r c n p)) [
    | inl go ↦ rw go (
        take_queue-keeps (deliver r c p) (suc n) ps x
          (ground (arith, contains-add_key (c.heap p).delivered r.delivery r.delivery)))
    | inr halt ↦ rw halt h
  ]

  take_queue-delivered :
      (c : Channel) (n : ℕ) (q : List ℕ)
      → let h = take_queue r c n q in
        All (λ p. contains (h.channel.heap p).delivered r.delivery ≡ true) h.taken
  unfolding take_queue
  take_queue-delivered c n [] = tt
  take_queue-delivered c n (p ∷ ps) = elim (Bool-cases (takes r c n p)) [
    | inl go ↦ rw go (
      take_queue-keeps (deliver r c p) (suc n) ps p
          (ground (arith, contains-add_key_self (c.heap p).delivered r.delivery)),
      take_queue-delivered (deliver r c p) (suc n) ps,
    )
    | inr halt ↦ rw halt tt
  ]

  -- A partition within range is served from the front of its queue: what is taken, followed by what stays, is
  -- the queue that was there; the count grows by what is taken; and each taken segment is delivered
  -- to the process that asks.
  pub consume_partition-append :
      (p : ℕ) (round : Round)
      → p < length round.channel.queues
      → let round' = consume_partition r p round in
        let taken =
          (take_queue r round.channel round.count (get_or round.channel.queues p [])).taken in
        (taken ++ get_or round'.channel.queues p [] ≡ get_or round.channel.queues p [])
        × (round'.count ≡ round.count + length taken)
        × All (λ x. contains (round'.channel.heap x).delivered r.delivery ≡ true) taken
  unfolding consume_partition
  consume_partition-append p round h =
      let c = round.channel in
      let q = get_or c.queues p [] in
      let t = take_queue r c round.count q in
      (
        rw (get_or-set_self c.queues p t.left [] h) (take_queue-append c round.count q),
        take_queue-count c round.count q,
        take_queue-delivered c round.count q,
      )

  take_log-count :
      (c : Channel) (n : ℕ) (q : List ℕ)
      → (take_log r c n q).count ≡ n + length (take_log r c n q).taken
  unfolding take_log
  take_log-count c n [] = omega arith
  take_log-count c n (p ∷ ps) = elim (Bool-cases (takes r c n p)) [
    | inr halt ↦ rw halt (omega arith)
    | inl go ↦ elim (Bool-cases (is_skipped r (c.heap p))) [
      | inl skip ↦ rw (go, skip) (take_log-count c n ps)
      | inr fresh ↦ rw (go, fresh) (omega (arith, take_log-count (deliver r c p) (suc n) ps))
    ]
  ]

  take_log-limit :
      (c : Channel) (n : ℕ) (q : List ℕ) → n ≤ r.limit → (take_log r c n q).count ≤ r.limit
  unfolding take_log
  take_log-limit c n [] h = h
  take_log-limit c n (p ∷ ps) h = elim (Bool-cases (takes r c n p)) [
    | inr halt ↦ rw halt h
    | inl go ↦ elim (Bool-cases (is_skipped r (c.heap p))) [
      | inl skip ↦ rw (go, skip) (take_log-limit c n ps h)
      | inr fresh ↦ rw (go, fresh) (take_log-limit (deliver r c p) (suc n) ps (ground arith))
    ]
  ]

  consume_partition-IsCounted :
      (p : ℕ) (round : Round) → IsCounted r round → IsCounted r (consume_partition r p round)
  unfolding consume_partition
  consume_partition-IsCounted p round v =
      let c = round.channel in
      let q = get_or c.queues p [] in
      let h = take_queue r c round.count q in
      record {
        counted = omega (
          arith,
          segment_count-append round.work (work_of h.channel p h.taken),
          segment_count-work_of h.channel p h.taken,
          take_queue-count c round.count q,
          v.counted,
        );
        limited = take_queue-limit c round.count q v.limited;
      }

  consume_partitions-IsCounted :
      (ps : List ℕ) (round : Round)
      → IsCounted r round
      → IsCounted r (consume_partitions r ps round)
  unfolding consume_partitions
  consume_partitions-IsCounted [] round v = v
  consume_partitions-IsCounted (p ∷ ps) round v =
      consume_partitions-IsCounted ps (consume_partition r p round)
        (consume_partition-IsCounted p round v)

  consume_log-IsCounted :
      (pod_name : String) (round : Round)
      → IsCounted r round
      → IsCounted r (consume_log r pod_name round)
  unfolding consume_log
  consume_log-IsCounted pod_name round v =
      let c = round.channel in
      let q = drop (cursor_of c pod_name) c.log in
      let h = take_log r c round.count q in
      record {
        counted = omega (
          arith,
          segment_count-append round.work (work_of h.channel 0 h.taken),
          segment_count-work_of h.channel 0 h.taken,
          take_log-count c round.count q,
          v.counted,
        );
        limited = take_log-limit c round.count q v.limited;
      }

  -- Whatever the channel is, a call hands out as many segments as it counts, never more than the
  -- limit of the request; a gated channel hands out nothing and is left as it is.
  pub hand_out-limit :
      (pod_name : String) (c : Channel) (o : Operation)
      → let round = hand_out r pod_name c o in
        (segment_count round.work ≡ round.count)
        × (round.count ≤ r.limit)
        × (gated c ≡ true → (round.work ≡ []) × (round.channel ≡ c) × (round.operation ≡ o))
  unfolding hand_out
  hand_out-limit pod_name c o = elim (Bool-cases (gated c)) [
    | inl shut ↦ rw shut (refl, omega arith, λ _. (refl, refl, refl))
    | inr free ↦ elim (Bool-cases (broadcast c)) [
      | inl all_of ↦
          rw (free, all_of)
            (let v = consume_log-IsCounted pod_name start first in (v.counted, v.limited, λ g. cc))
      | inr part ↦
          rw (free, part)
            (let v =
                consume_partitions-IsCounted (assigned c o pod_name).1
                  (record start { operation = (assigned c o pod_name).0 })
                  (record { counted = refl; limited = omega arith }) in
              (v.counted, v.limited, λ g. cc))
    ]
  ]
    where
      start : Round
      start = record { channel = c; operation = o; count = 0; work = [] }

      first : IsCounted r start
      first = record { counted = refl; limited = omega arith }
