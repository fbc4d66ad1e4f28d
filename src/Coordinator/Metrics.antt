-- ===== src/Coordinator/Metrics.antt =====
-- `operationMetrics`, `Metrics` and `Records` of pkg/coordinator/coordinator.go.
pub mod Progress
use stark8s.Prelude.{
  ℕ, ℤ, pos, suc, pos_part, String, Bool, true, false, not, ◌&&◌, ◌||◌, Option, none, some, List,
  [], ◌∷◌, ◌++◌, any, all, is_empty, length, contains, add_key, keep, drop, keys, values, lookup,
  is_some, ltb, ltb_ℤ, add64, nat_beq, ◌==◌, string_eq, int_eq, if◌then◌else◌,
}
use stark8s.Graph.{is_hash, is_retained}
use stark8s.Coordinator.Api.{Error, Record, ChannelMetrics, OperationMetrics, Metrics}
use stark8s.Coordinator.State.{Operation, Segment, Channel, Coordinator, Result, ok, err}
use stark8s.Coordinator.Names.{decimal, owner_key, segment_key}
use stark8s.Coordinator.Channels.{
  partitions, external, broadcast, pending, pending_by_partition, held_records, inflight_records,
  quiet, gated,
}
use stark8s.Coordinator.Balance.{sort_texts}
use stark8s.Coordinator.Pods.{op_of, set_op, expire_all}
use stark8s.Coordinator.Settle.{settle, broadcast_fully_consumed}

-- The key of a runnable task: hash partitions of equal counts are one task.
unfoldable pub task_key : Channel → ℕ → String
task_key c p =
    if is_hash c.spec.partitioning.mode
    then segment_key "hash" (owner_key (partitions c) p)
    else segment_key c.spec.name (decimal p)

runnable_in : Channel → ℕ → List ℕ → List String → List String
runnable_in c p [] keys' = keys'
runnable_in c p (v ∷ vs) keys' =
    runnable_in c (suc p) vs (if nat_beq v 0 then keys' else add_key keys' (task_key c p))

abbrev runnable_from : String → Channel → List String → List String
runnable_from name c keys' =
    if c.spec.to == name && not (gated c)
    then runnable_in c 0 (pending_by_partition c) keys'
    else keys'

unfoldable pub runnable_tasks : String → List Channel → List String → List String
unfolding runnable_in task_key
runnable_tasks name [] keys' = keys'
runnable_tasks name (c ∷ cs) keys' = runnable_tasks name cs (runnable_from name c keys')

-- An input that is finished with: sealed, drained, and read by every replica if it is broadcast.
unfoldable pub is_finished_input : Operation → Channel → Bool
is_finished_input o c =
    c.sealed
    && quiet c
    && nat_beq (held_records c) 0
    && (not (broadcast c) || broadcast_fully_consumed o c)

abbrev pub inbound : String → List Channel → List Channel
inbound name = keep (λ c. c.spec.to == name)

abbrev holds_segment : String → Segment → Bool
holds_segment name s = not (is_some s.payload) && not s.durable && not s.released && s.op == name

unfoldable pub holds_unconsumed : String → Channel → Bool
holds_unconsumed name c =
    not (is_retained c.spec.durability) && any (λ p. holds_segment name (c.heap p)) (values c.index)

-- Whether the pods of the operation are there, as many as wanted, and have all reported done.
unfoldable pub pods_done : Operation → Bool
pods_done o =
    (o.completed || not (nat_beq (length o.pods) 0))
    && (o.completed || not (ltb_ℤ (pos (length o.pods)) o.replicas))
    && all (λ p. p.done) (values o.pods)

unfoldable pub is_complete_now : String → Operation → List Channel → Bool
unfolding is_finished_input runnable_tasks pods_done
is_complete_now name o chs =
    let ins = inbound name chs in
    all (is_finished_input o) ins
    && is_empty (runnable_tasks name chs [])
    && (not (is_empty ins) || not (nat_beq (length o.pods) 0))
    && pods_done o

-- The latch: set by completion, and cleared by runnable work alone.
unfoldable pub completed_after : String → Operation → List Channel → Bool
unfolding is_complete_now runnable_tasks
completed_after name o chs =
    if is_complete_now name o chs
    then true
    else if is_empty (runnable_tasks name chs [])
    then o.completed
    else false

unfoldable pub operation_metrics : String → Coordinator → Coordinator × OperationMetrics
unfolding completed_after holds_unconsumed
operation_metrics name co =
    let o = op_of co name in
    let chs = values co.channels in
    let complete = completed_after name o chs in
    (
      set_op name (record o { completed = complete }) co,
      record {
        name = name;
        runnable_tasks = length (runnable_tasks name chs []);
        complete = complete;
        holds_unconsumed = any (holds_unconsumed name) chs;
        live_pods = length o.pods;
      },
    )

abbrev channel_metrics : String → Channel → ChannelMetrics
channel_metrics name c = record {
  name = name;
  from = c.spec.from;
  to = c.spec.to;
  sealed = c.sealed;
  pending = add64 (pending c) (held_records c);
  in_flight = inflight_records c;
  produced = c.produced;
  epoch = c.epoch;
  overflowed = c.overflowed;
  lost = c.lost;
  production_closed = contains c.production_closed c.epoch;
  acknowledged = c.acknowledged;
  latest_delivery_failure = c.latest_delivery_failure;
  pending_by_partition = pending_by_partition c;
}

abbrev found_metrics : String → Option Channel → List ChannelMetrics
found_metrics name none = []
found_metrics name (some c) = channel_metrics name c ∷ []

unfoldable pub all_channel_metrics : Coordinator → List String → List ChannelMetrics
all_channel_metrics co [] = []
all_channel_metrics co (n ∷ ns) =
    found_metrics n (lookup co.channels n) ++ all_channel_metrics co ns

unfoldable pub all_operation_metrics :
    List String → Coordinator → Coordinator × List OperationMetrics
unfolding operation_metrics
all_operation_metrics [] co = (co, [])
all_operation_metrics (n ∷ ns) co =
    let (co', m) = operation_metrics n co in
    let (co'', ms) = all_operation_metrics ns co' in (co'', m ∷ ms)

-- `Metrics`
unfoldable pub metrics : Coordinator → Coordinator × Metrics
metrics co =
    let settled = settle (expire_all co) in
    let (co', ops) = all_operation_metrics (sort_texts (keys settled.ops)) settled in
    (
      co',
      record {
        channels = all_channel_metrics settled (sort_texts (keys settled.channels));
        operations = ops;
      },
    )

-- One look of `Records` at the log: the offset that it started from, the records found, the next
-- offset, and whether the reader has to wait for more.
pub record Look : Type 0 where
  pub start : ℕ
  pub found : List Record
  pub next : ℕ
  pub waits : Bool

abbrev clamp_offset : Channel → ℤ → ℕ
clamp_offset c after =
    if ltb (length c.records) (pos_part after) then length c.records else pos_part after

abbrev pub selected : String → List Record → List Record
selected key = keep (λ r. key == "" || r.key == key)

unfoldable pub look : String → ℤ → Channel → Look
look key after c =
    let found = selected key (drop (clamp_offset c after) c.records) in
    record {
      start = clamp_offset c after;
      found = found;
      next = length c.records;
      waits = is_empty found && not c.sealed;
    }

abbrev look_at : String → String → ℤ → Coordinator → Option Channel → Result Look
look_at name key after co none = err Error.channel_not_found
look_at name key after co (some c) =
    if external c then ok (look key after c) else err Error.has_consumer

-- `Records` on the states that it sees: the first at once, the others one at each wake-up before the
-- deadline. An offset beyond the log is cut down once for all looks. The last look is the answer.
unfoldable pub records : String → String → ℤ → Coordinator → List Coordinator → Result Look
unfolding look
records name key after co [] = look_at name key after co (lookup co.channels name)
records name key after co (co' ∷ later) =
    elim (look_at name key after co (lookup co.channels name)) [
      | err e ↦ err e
      | ok l ↦ let rest = records name key (pos l.start) co' later in if l.waits then rest else ok l
    ]
