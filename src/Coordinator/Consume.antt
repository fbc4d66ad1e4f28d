-- ===== src/Coordinator/Consume.antt =====
-- The consuming side of pkg/coordinator/coordinator.go: `ConsumeSession`.
pub mod Fifo
use stark8s.Prelude.{
  ℕ, pos, negsuc, suc, ◌-◌, String, Bool, true, false, not, ◌&&◌, ◌||◌, none, some, List, [], ◌∷◌,
  ◌++◌, contains, add_key, drop, lookup, insert, has, or_else, ltb, get_or, set, ◌==◌, string_eq,
  int_eq, if◌then◌else◌,
}
use stark8s.Graph.{is_hash}
use stark8s.Coordinator.Api.{Error, SegmentRef, PartitionWork, ConsumeResponse}
use stark8s.Coordinator.State.{
  Operation, Segment, Channel, Coordinator, M, ◌>>=◌, ◌>>◌, return, modify, refuse_if, get_state,
  commit_locked, update_segment, Result, ok, err,
}
use stark8s.Coordinator.Names.{segment_key, delivery_key, cohort_key, owner_key}
use stark8s.Coordinator.Channels.{
  partitions, external, broadcast, feedback_mode, max_epochs_of, gated, quiet,
}
use stark8s.Coordinator.Balance.{assigned}
use stark8s.Coordinator.Pods.{op_of, set_op, op, get, put_channel, expire_all}
use stark8s.Coordinator.Registration.{require_incarnation, touch, update_pod}
use stark8s.Coordinator.Settle.{settle}
use stark8s.Coordinator.Persistence.{snapshot, restore}

unfoldable pub ref : Segment → SegmentRef
ref s = record {
  id = s.id;
  append_id = s.append_id;
  holder = s.holder;
  records = s.records;
  bytes = s.bytes;
  epoch = s.epoch;
  offset = s.offset;
}

-- Who consumes: the delivery key and the cohort key of the process, the clock, and the limit (a
-- negative `max` acts as 0).
pub record Reader : Type 0 where
  pub delivery : String
  pub cohort : String
  pub now : ℕ
  pub limit : ℕ

-- `co.now().Before(s.retryAfter[...])`
abbrev pub must_wait : Reader → Segment → Bool
must_wait r s = ltb r.now (or_else (lookup s.retry_after r.delivery) 0)

-- The segment is in flight to the reader.
abbrev pub deliver : Reader → Channel → ℕ → Channel
deliver r c p =
    let s = c.heap p in
    record (update_segment c p (λ t. record t { delivered = add_key t.delivered r.delivery })) {
      inflight = insert c.inflight (segment_key s.holder s.id) p;
    }

-- What a loop over segments has handed out: pointers of the taken segments in order, the number
-- of segments taken in the whole call, and the part of the list that it did not reach.
pub record Handout : Type 0 where
  pub channel : Channel
  pub taken : List ℕ
  pub count : ℕ
  pub left : List ℕ

abbrev stop : Channel → ℕ → List ℕ → Handout
stop c count left = record { channel = c; taken = []; count = count; left = left }

abbrev also : ℕ → Handout → Handout
also p h = record h { taken = p ∷ h.taken }

-- The loop over the queue of a partition.
unfoldable pub take_queue : Reader → Channel → ℕ → List ℕ → Handout
take_queue r c n [] = stop c n []
take_queue r c n (p ∷ ps) =
    let rest = also p (take_queue r (deliver r c p) (suc n) ps) in
    if ltb n r.limit && not (must_wait r (c.heap p)) then rest else stop c n (p ∷ ps)

abbrev is_skipped : Reader → Segment → Bool
is_skipped r s = s.lost || s.released || contains s.acked r.cohort

-- The loop over the log of a broadcast channel, from the cursor of the pod.
unfoldable pub take_log : Reader → Channel → ℕ → List ℕ → Handout
take_log r c n [] = stop c n []
take_log r c n (p ∷ ps) =
    let rest : Handout = elim (is_skipped r (c.heap p)) [
      | true ↦ take_log r c n ps
      | false ↦ also p (take_log r (deliver r c p) (suc n) ps)
    ] in
    if ltb n r.limit && not (must_wait r (c.heap p)) then rest else stop c n (p ∷ ps)

abbrev refs_of : Channel → List ℕ → List SegmentRef
refs_of c [] = []
refs_of c (p ∷ ps) = ref (c.heap p) ∷ refs_of c ps

abbrev work_of : Channel → ℕ → List ℕ → List PartitionWork
work_of c p [] = []
work_of c p (x ∷ xs) = record { partition = p; segments = refs_of c (x ∷ xs) } ∷ []

-- The state of the loop over the partitions of the pod.
pub record Round : Type 0 where
  pub channel : Channel
  pub operation : Operation
  pub count : ℕ
  pub work : List PartitionWork

abbrev pin : Channel → ℕ → List ℕ → Operation → Operation
pin c p [] o = o
pin c p (x ∷ xs) o =
    if is_hash c.spec.partitioning.mode
    then (record o { pinned = add_key o.pinned (owner_key (partitions c) p) })
    else o

unfoldable pub consume_partition : Reader → ℕ → Round → Round
consume_partition r p round =
    let c = round.channel in
    let h = take_queue r c round.count (get_or c.queues p []) in
    record {
      channel = record h.channel { queues = set c.queues p h.left };
      operation = pin c p h.taken round.operation;
      count = h.count;
      work = round.work ++ work_of h.channel p h.taken;
    }

unfoldable pub consume_partitions : Reader → List ℕ → Round → Round
consume_partitions r [] round = round
consume_partitions r (p ∷ ps) round = consume_partitions r ps (consume_partition r p round)

abbrev cursor_of : Channel → String → ℕ
cursor_of c pod_name = or_else (lookup c.cursor pod_name) 0

abbrev log_length : List ℕ → ℕ
log_length [] = 0
log_length (p ∷ ps) = suc (log_length ps)

unfoldable pub consume_log : Reader → String → Round → Round
unfolding take_log
consume_log r pod_name round =
    let c = round.channel in
    let h = take_log r c round.count (drop (cursor_of c pod_name) c.log) in
    record round {
      channel = record h.channel {
        cursor = insert c.cursor pod_name (log_length c.log - log_length h.left);
      };
      count = h.count;
      work = round.work ++ work_of h.channel 0 h.taken;
    }

-- What the pod is handed, with the channel and the operation as they are left.
unfoldable pub hand_out : Reader → String → Channel → Operation → Round
hand_out r pod_name c o =
    let start : Round = record { channel = c; operation = o; count = 0; work = [] } in
    let (o', parts) = assigned c o pod_name in
    let open_round =
      if broadcast c
      then consume_log r pod_name start
      else consume_partitions r parts (record start { operation = o' }) in
    if gated c then start else open_round

-- A caller without an incarnation, unknown so far, is registered by consuming.
abbrev register_reader : String → String → String → Operation → M (Unit {0})
register_reader op_name pod_name incarnation o =
    if incarnation == "" && not (has o.pods pod_name)
    then modify (touch op_name pod_name "" (pos 0))
    else (require_incarnation op_name pod_name incarnation >>= λ _. return tt)

abbrev open_cursor : String → Channel → Channel
open_cursor pod_name c = if has c.cursor pod_name then c else (record c {
  cursor = insert c.cursor pod_name 0;
  epoch_done = insert c.epoch_done pod_name (negsuc 0);
})

abbrev slot_of : Operation → String → ℕ
slot_of o pod_name = elim (lookup o.pods pod_name) [ none ↦ 0 | some p ↦ p.cohort_slot ]

abbrev response : Channel → List PartitionWork → Channel → ConsumeResponse
response c work c' =
    let closed = contains c.production_closed c.epoch in
    record {
      work = work;
      sealed = c.sealed;
      drained = c.sealed && quiet c';
      epoch = c.epoch;
      quiescent = c.finite_epochs && closed && quiet c';
      production_closed = closed;
      finite_epochs = c.finite_epochs;
      max_epochs = if c.finite_epochs then c.max_epochs else max_epochs_of c.spec.feedback;
      mode = feedback_mode c;
    }

-- After a failed commit, the state is restored from a snapshot of the one that the call found.
abbrev roll_back :
    Coordinator
    → ConsumeResponse
    → Coordinator × Result (Unit {0})
    → Coordinator × Result ConsumeResponse
roll_back before resp (co, ok u) = (co, ok resp)
roll_back before resp (co, err e) = (restore (snapshot before) co, err e)

abbrev consume_now :
    String → String → String → ℕ → Channel → Coordinator → Coordinator × ConsumeResponse
consume_now name pod_name incarnation limit c co =
    let o = op_of co c.spec.to in
    let r : Reader = record {
      delivery = delivery_key pod_name incarnation;
      cohort = cohort_key (slot_of o pod_name);
      now = co.now;
      limit = limit;
    } in
    let done = hand_out r pod_name c o in
    (
      put_channel name done.channel (set_op c.spec.to done.operation co),
      response c done.work done.channel,
    )

abbrev finish_consume :
    Coordinator → Coordinator × ConsumeResponse → Coordinator × Result ConsumeResponse
finish_consume before (co, resp) = roll_back before resp (commit_locked co)

unfoldable pub consume_session : String → String → String → String → ℕ → M ConsumeResponse
consume_session name op_name pod_name incarnation limit = do
  c ← get name
  refuse_if (external c) Error.no_consumer
  refuse_if (not (op_name == "") && not (c.spec.to == op_name)) Error.may_not_consume
  refuse_if (pod_name == "") Error.pod_required
  before ← get_state
  o ← op c.spec.to
  register_reader c.spec.to pod_name incarnation o
  modify (λ co. update_pod c.spec.to pod_name (λ p. record p { last_seen = co.now }) co)
  modify (put_channel name (open_cursor pod_name c))
  modify expire_all
  modify settle
  c' ← get name
  λ co. finish_consume before (consume_now name pod_name incarnation limit c' co)
