-- ===== src/Coordinator/Acks.antt =====
-- Acknowledgements in pkg/coordinator/coordinator.go: `AckSession` and `NackSession`.
pub mod Once
use stark8s.Prelude.{
  ℕ, pos, ◌+◌, ◌-◌, ◌*◌, ◌%◌, ◌^◌, pos_part, String, Bool, not, ◌&&◌, ◌||◌, Option, none, some,
  List, ◌∷◌, foldl, is_empty, contains, add_key, remove_key, lookup, insert, delete, ltb, ltb_ℤ,
  add64, ◌==◌, string_eq, if◌then◌else◌,
}
use stark8s.Coordinator.Api.{SegmentAck}
use stark8s.Coordinator.State.{
  Pod, Operation, Segment, Channel, M, ◌>>=◌, ◌>>◌, modify, get_state, commit_locked,
  update_segment,
}
use stark8s.Coordinator.Names.{segment_key, delivery_key, cohort_key}
use stark8s.Coordinator.Channels.{broadcast, queue_at, set_queue, contains_segment}
use stark8s.Coordinator.Pods.{op_of, get, put_channel}
use stark8s.Coordinator.Registration.{require_incarnation, verify_pod}
use stark8s.Coordinator.Settle.{release, settle}

-- `segmentForAck`: the segment, and whether the id that came with an append id fits it.
unfoldable pub segment_for_ack : Channel → SegmentAck → Option ℕ
segment_for_ack c a =
    if a.append_id == ""
    then lookup c.index (segment_key a.holder a.id)
    else lookup c.append_ids a.append_id

abbrev pub fits_ack : Channel → SegmentAck → ℕ → Bool
fits_ack c a p = a.append_id == "" || (c.heap p).id == a.id

-- `s.acked[acknowledger] = true`, counted once for each acknowledger.
abbrev pub count_ack : Segment → String → ℕ
count_ack s by = if contains s.acked by then 0 else s.records

abbrev pub acknowledge : String → String → Segment → Segment
acknowledge owned by s = record s {
  delivered = remove_key s.delivered owned;
  retry_after = delete s.retry_after owned;
  acked = add_key s.acked by;
}

-- `delete(c.inflight, s.key())` once nobody holds a delivery.
abbrev pub drop_if_idle : Channel → ℕ → Channel
drop_if_idle c p =
    let s = c.heap p in
    if is_empty s.delivered
    then record c { inflight = delete c.inflight (segment_key s.holder s.id) }
    else c

unfoldable pub ack_segment : String → String → Channel → ℕ → Channel
unfolding release
ack_segment owned by c p =
    let c' = record (update_segment c p (acknowledge owned by)) {
      acknowledged = add64 c.acknowledged (count_ack (c.heap p) by);
    } in
    let c'' = drop_if_idle c' p in if broadcast c then c'' else release c'' p

abbrev acknowledger : Channel → String → Option Pod → String
acknowledger c ack_pod none = ack_pod
acknowledger c ack_pod (some p) = if broadcast c then cohort_key p.cohort_slot else ack_pod

-- Whether the acknowledgement counts: the segment is known and not lost, and the process holds it.
abbrev pub accepts_ack : Channel → SegmentAck → String → ℕ → Bool
accepts_ack c a owned p =
    fits_ack c a p && not (c.heap p).lost && contains (c.heap p).delivered owned

abbrev ack_found : SegmentAck → String → String → Channel → Option ℕ → Channel
ack_found a owned by c none = c
ack_found a owned by c (some p) = if accepts_ack c a owned p then ack_segment owned by c p else c

-- The pod that acknowledges: the verified one, or the one that the message names.
abbrev ack_pod_of : String → SegmentAck → String
ack_pod_of pod_name a = if pod_name == "" then a.pod else pod_name

abbrev ack_op_of : String → String → Channel → String
ack_op_of op_name pod_name c = if pod_name == "" then c.spec.to else op_name

-- One round of the loop of `AckSession`.
unfoldable pub ack_one : Operation → String → String → Channel → SegmentAck → Channel
unfolding segment_for_ack ack_segment
ack_one o pod_name incarnation c a =
    let ack_pod = ack_pod_of pod_name a in
    ack_found a (delivery_key ack_pod incarnation) (acknowledger c ack_pod (lookup o.pods ack_pod))
      c (segment_for_ack c a)

unfoldable pub ack_session : String → String → String → String → List SegmentAck → M (Unit {0})
ack_session name op_name pod_name incarnation acks = do
  c ← get name
  verify_pod op_name pod_name incarnation
  co ← get_state
  let o = op_of co (ack_op_of op_name pod_name c)
  modify (put_channel name (foldl (ack_one o pod_name incarnation) c acks))
  modify settle
  commit_locked

-- `co.now().Add(time.Duration(millis) * time.Millisecond)`, in nanoseconds, with the int64 product.
abbrev retry_time : ℕ → ℕ → ℕ
retry_time now millis =
    let d = (millis * 1000000) % 2 ^ 64 in if ltb d (2 ^ 63) then now + d else now + d - 2 ^ 64

abbrev pub delay : ℕ → SegmentAck → String → Segment → Segment
delay now a owned s =
    if ltb_ℤ (pos 0) a.retry_after_millis
    then (record s {
      retry_after = insert s.retry_after owned (retry_time now (pos_part a.retry_after_millis));
    })
    else s

abbrev pub note_failure : SegmentAck → Channel → Channel
note_failure a c = if a.failure == "" then c else record c { latest_delivery_failure = a.failure }

-- The delivery goes back: a broadcast reader starts over, a partitioned segment is pending first.
abbrev pub return_pending : String → Channel → ℕ → Channel
return_pending pod_name c p =
    let s = c.heap p in
    if broadcast c
    then record c { cursor = insert c.cursor pod_name 0 }
    else if not s.lost && not s.released && not (contains_segment (queue_at c s.part) p)
    then set_queue c s.part (p ∷ queue_at c s.part)
    else c

unfoldable pub nack_segment : ℕ → String → String → SegmentAck → Channel → ℕ → Channel
nack_segment now pod_name owned a c p =
    let c' =
      update_segment c p
        (λ s. delay now a owned (record s { delivered = remove_key s.delivered owned })) in
    return_pending pod_name (drop_if_idle (note_failure a c') p) p

-- A refusal looks the segment up by its append id alone: the id is not compared.
abbrev nack_found : ℕ → String → String → SegmentAck → Channel → Option ℕ → Channel
nack_found now pod_name owned a c none = c
nack_found now pod_name owned a c (some p) =
    if contains (c.heap p).delivered owned then nack_segment now pod_name owned a c p else c

unfoldable pub nack_one : ℕ → String → String → Channel → SegmentAck → Channel
unfolding segment_for_ack nack_segment
nack_one now pod_name incarnation c a =
    nack_found now pod_name (delivery_key pod_name incarnation) a c (segment_for_ack c a)

unfoldable pub nack_session : String → String → String → String → List SegmentAck → M (Unit {0})
nack_session name op_name pod_name incarnation acks = do
  c ← get name
  p ← require_incarnation op_name pod_name incarnation
  co ← get_state
  modify (put_channel name (foldl (nack_one co.now pod_name incarnation) c acks))
  modify settle
  commit_locked
