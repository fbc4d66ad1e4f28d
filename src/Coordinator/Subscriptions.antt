-- ===== src/Coordinator/Subscriptions.antt =====
-- pkg/coordinator/subscriptions.go: appends, named subscriptions and retention.
pub mod Cursor
use stark8s.Prelude.{
  ℕ, ℤ, pos, suc, ◌-◌, ◌%◌, ◌^◌, pos_part, String, Bool, true, false, not, ◌&&◌, ◌||◌, Option, none,
  some, List, [], ◌∷◌, ◌++◌, foldl, is_empty, length, get_or, get_elem?, set, range_from, lookup,
  insert, delete, ltb, leb, ltb_ℤ, add64, nat_beq, ◌==◌, string_eq, int_eq, if◌then◌else◌,
}
use stark8s.Graph.{is_retained, FeedbackMode}
use stark8s.Coordinator.Api.{
  Error, Record, AppendBatch, PartitionPosition, SubscriptionAck, PartitionWork, ConsumeResponse,
}
use stark8s.Coordinator.State.{
  Segment, Subscription, SubscriptionDelivery, Channel, Coordinator, M, ◌>>=◌, ◌>>◌, return, fail,
  modify, refuse_if, require, get_state, commit_locked, require_durable_writer, ok,
}
use stark8s.Coordinator.Names.{coordinator_id, delivery_key}
use stark8s.Coordinator.Channels.{partitions}
use stark8s.Coordinator.Balance.{assigned}
use stark8s.Coordinator.Pods.{op_of, set_op, get, put_channel}
use stark8s.Coordinator.Registration.{require_incarnation, verify_pod}
use stark8s.Coordinator.Topology.{blank_segment}
use stark8s.Coordinator.Segments.{may_produce, index_segment, next_offset}
use stark8s.Coordinator.Consume.{ref}

-- `sameRecords`; values are compared by their JSON text.
unfoldable pub same_records : List Record → List Record → Bool
same_records [] [] = true
same_records [] (b ∷ bs) = false
same_records (a ∷ as') [] = false
same_records (a ∷ as') (b ∷ bs) =
    a.key == b.key && a.epoch == b.epoch && a.value == b.value && same_records as' bs

abbrev payload_records : Option (List Record) → List Record
payload_records none = []
payload_records (some rs) = rs

-- `append([]Record(nil), records...)` is nil where there are no records.
abbrev copy_records : List Record → Option (List Record)
copy_records [] = none
copy_records (r ∷ rs) = some (r ∷ rs)

abbrev pub out_of_range : ℤ → ℕ → Bool
out_of_range p n = ltb_ℤ p (pos 0) || leb n (pos_part p)

-- The segment of a batch that the coordinator accepts under the given number.
abbrev pub batch_segment : Coordinator → String → ℕ → AppendBatch → Segment
batch_segment co name n b = record blank_segment {
  id = coordinator_id n;
  holder = co.self_addr;
  channel = name;
  part = b.partition;
  records = length b.records % 2 ^ 64;
  append_id = b.append_id;
  payload = copy_records b.records;
}

abbrev pub repeats : Channel → AppendBatch → ℕ → Bool
repeats c b p =
    (c.heap p).part == b.partition && same_records (payload_records (c.heap p).payload) b.records

-- The offset that is answered is that of the segment built here, which `index` leaves at 0 where it
-- drops the segment, since its key is taken.
abbrev append_new : String → Channel → AppendBatch → M ℕ
append_new name c b = do
  refuse_if c.sealed Error.channel_sealed
  modify (λ co. record co { next_id = add64 co.next_id 1 })
  co ← get_state
  let c' = index_segment c (batch_segment co name co.next_id b)
  modify (put_channel name c')
  commit_locked
  return (if nat_beq c'.fresh c.fresh then 0 else (c'.heap c.fresh).offset)

abbrev append_prior : String → Channel → AppendBatch → Option ℕ → M ℕ
append_prior name c b none = append_new name c b
append_prior name c b (some p) =
    if repeats c b p then return (c.heap p).offset else fail Error.append_conflict

unfoldable pub append_session : String → String → String → String → AppendBatch → M ℕ
append_session name op_name pod_name incarnation b = do
  require_durable_writer
  c ← get name
  co ← get_state
  refuse_if (not (is_retained c.spec.durability)) Error.not_retained
  refuse_if (not (may_produce co c op_name)) Error.may_not_produce
  verify_pod op_name pod_name incarnation
  refuse_if (b.append_id == "") Error.append_id_required
  refuse_if (out_of_range b.partition (partitions c)) Error.partition_out_of_range
  append_prior name c b (lookup c.append_ids b.append_id)

abbrev pub new_subscription : String → String → Channel → Subscription
new_subscription name op_name c = record {
  name = name;
  operation = op_name;
  positions = c.history_base;
  inflight = [];
}

abbrev pub put_subscription : String → Subscription → Channel → Channel
put_subscription name sub c = record c { subscriptions = insert c.subscriptions name sub }

abbrev bind_subscription : String → String → String → Channel → Option Subscription → M (Unit {0})
bind_subscription channel name op_name c (some prior) =
    if prior.operation == op_name then return tt else fail Error.subscription_bound
bind_subscription channel name op_name c none = do
  modify (put_channel channel (put_subscription name (new_subscription name op_name c) c))
  commit_locked

unfoldable pub set_subscription : String → String → String → M (Unit {0})
set_subscription channel name op_name = do
  refuse_if (name == "") Error.subscription_name_required
  require_durable_writer
  c ← get channel
  refuse_if (not (is_retained c.spec.durability)) Error.not_retained
  bind_subscription channel name op_name c (lookup c.subscriptions name)

-- The loop of `ConsumeSubscription`: the subscription as it is left, and the work.
pub record Reading : Type 0 where
  pub subscription : Subscription
  pub work : List PartitionWork

abbrev pub base_at : Channel → ℕ → ℕ
base_at c p = get_or c.history_base p 0

abbrev pub history_at : Channel → ℕ → List ℕ
history_at c p = get_or c.history p []

abbrev entry_work : Channel → ℕ → Option ℕ → List PartitionWork
entry_work c p none = []
entry_work c p (some e) = record { partition = p; segments = ref (c.heap e) ∷ [] } ∷ []

-- The entry at an absolute offset, where it is retained.
abbrev pub entry_at : Channel → ℕ → ℕ → Option ℕ
entry_at c p offset =
    if ltb offset (base_at c p) then none else get_elem? (history_at c p) (offset - base_at c p)

-- An external reader gets the delivery that it holds once more.
abbrev repeat_delivery : Channel → String → ℕ → Reading → SubscriptionDelivery → Reading
repeat_delivery c owner p r d =
    if r.subscription.operation == "" && d.owner == owner
    then record r { work = r.work ++ entry_work c p (entry_at c p d.offset) }
    else r

abbrev lend : Channel → String → ℕ → Reading → Option ℕ → Reading
lend c owner p r none = r
lend c owner p r (some e) = record {
  subscription = record (r.subscription) {
    inflight = insert (r.subscription).inflight (pos p) (record {
      offset = get_or (r.subscription).positions p 0;
      append_id = (c.heap e).append_id;
      owner = owner;
    });
  };
  work = r.work ++ entry_work c p (some e);
}

abbrev read_free : Channel → String → ℕ → Reading → Option SubscriptionDelivery → Reading
read_free c owner p r (some d) = repeat_delivery c owner p r d
read_free c owner p r none = lend c owner p r (entry_at c p (get_or (r.subscription).positions p 0))

unfoldable pub read_partition : Channel → String → ℕ → Reading → Reading
unfolding ref
read_partition c owner p r = read_free c owner p r (lookup (r.subscription).inflight (pos p))

-- A position before the retained history stops the call with an error.
unfoldable pub read_partitions : Channel → String → ℕ → List ℕ → Reading → Reading × Option Error
unfolding read_partition
read_partitions c owner limit [] r = (r, none)
read_partitions c owner limit (p ∷ ps) r =
    let rest = read_partitions c owner limit ps (read_partition c owner p r) in
    if leb limit (length r.work)
    then (r, none)
    else if ltb (get_or (r.subscription).positions p 0) (base_at c p)
    then (r, some Error.position_not_retained)
    else rest

abbrev position_drained : Channel → ℕ → ℕ → Bool
position_drained c p position = leb (next_offset c p) position

all_drained : Channel → ℕ → List ℕ → Bool
all_drained c p [] = true
all_drained c p (n ∷ ns) = position_drained c p n && all_drained c (suc p) ns

unfoldable pub subscription_drained : Channel → Subscription → Bool
unfolding all_drained
subscription_drained c sub = is_empty sub.inflight && all_drained c 0 sub.positions

-- The partitions that the reader may read, with the operation as `assigned` leaves it.
abbrev readable : String → Channel → Subscription → M (List ℕ)
readable pod_name c sub co =
    if sub.operation == ""
    then (co, ok (range_from 0 (partitions c)))
    else (let (o, parts) = assigned c (op_of co sub.operation) pod_name in
        (set_op sub.operation o co, ok parts))

abbrev reading_response : Channel → Subscription → List PartitionWork → ConsumeResponse
reading_response c sub work = record {
  work = work;
  sealed = c.sealed;
  drained = c.sealed && subscription_drained c sub;
  epoch = pos 0;
  quiescent = false;
  production_closed = false;
  finite_epochs = false;
  max_epochs = pos 0;
  mode = FeedbackMode.unset;
}

abbrev answer_reading : String → String → Channel → Reading × Option Error → M ConsumeResponse
answer_reading channel name c (r, some e) = do
  modify (put_channel channel (put_subscription name r.subscription c))
  fail e
answer_reading channel name c (r, none) = do
  modify (put_channel channel (put_subscription name r.subscription c))
  if is_empty r.work then return tt else commit_locked
  return (reading_response c r.subscription r.work)

unfoldable pub consume_subscription : String → String → String → String → ℕ → M ConsumeResponse
consume_subscription channel name pod_name incarnation limit = do
  c ← get channel
  sub ← require (lookup c.subscriptions name) Error.subscription_not_found
  if sub.operation == ""
      then refuse_if (pod_name == "") Error.reader_required
      else (require_incarnation sub.operation pod_name incarnation >>= λ _. return tt)
  parts ← readable pod_name c sub
  answer_reading channel name c (
      read_partitions c (delivery_key pod_name incarnation) (if nat_beq limit 0 then 100 else limit)
        parts (record { subscription = sub; work = [] }))

-- One round of `AckSubscription`.
abbrev fits_delivery : String → SubscriptionAck → SubscriptionDelivery → Bool
fits_delivery owner a d = d.owner == owner && pos d.offset == a.offset && d.append_id == a.append_id

abbrev advance_found :
    String → SubscriptionAck → Subscription → Option SubscriptionDelivery → Subscription
advance_found owner a sub none = sub
advance_found owner a sub (some d) =
    if fits_delivery owner a d
    then (record sub {
      inflight = delete sub.inflight a.partition;
      positions = set sub.positions (pos_part a.partition) (suc d.offset);
    })
    else sub

unfoldable pub ack_position : String → Subscription → SubscriptionAck → Subscription
ack_position owner sub a = advance_found owner a sub (lookup sub.inflight a.partition)

unfoldable pub ack_subscription :
    String → String → String → String → List SubscriptionAck → M (Unit {0})
ack_subscription channel name pod_name incarnation acks = do
  c ← get channel
  sub ← require (lookup c.subscriptions name) Error.subscription_not_found
  if sub.operation == ""
      then return tt
      else (require_incarnation sub.operation pod_name incarnation >>= λ _. return tt)
  modify (
      put_channel channel (
        put_subscription name (foldl (ack_position (delivery_key pod_name incarnation)) sub acks)
          c))
  commit_locked

-- The first position that is not available, as an error.
abbrev pub check_position : Channel → ℕ → Error → PartitionPosition → Option Error
check_position c n late a =
    if out_of_range a.partition n
    then some Error.partition_out_of_range
    else if ltb_ℤ a.offset (pos (base_at c (pos_part a.partition)))
        || ltb_ℤ (pos (next_offset c (pos_part a.partition))) a.offset
    then some late
    else none

abbrev first_error : Option Error → Option Error → Option Error
first_error (some e) rest = some e
first_error none rest = rest

unfoldable pub check_positions : Channel → ℕ → Error → List PartitionPosition → Option Error
check_positions c n late [] = none
check_positions c n late (a ∷ as') =
    first_error (check_position c n late a) (check_positions c n late as')

abbrev refuse : Option Error → M (Unit {0})
refuse none = return tt
refuse (some e) = fail e

abbrev move_position : List ℕ → PartitionPosition → List ℕ
move_position positions a = set positions (pos_part a.partition) (pos_part a.offset)

unfoldable pub replay_subscription : String → String → List PartitionPosition → M (Unit {0})
replay_subscription channel name targets = do
  c ← get channel
  sub ← require (lookup c.subscriptions name) Error.subscription_not_found
  refuse_if (not (is_empty sub.inflight)) Error.deliveries_in_flight
  refuse (check_positions c (length sub.positions) Error.position_unavailable targets)
  modify (
      put_channel channel (
        put_subscription name (record sub { positions = foldl move_position sub.positions targets })
          c))
  commit_locked
