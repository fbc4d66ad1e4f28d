-- ===== src/Coordinator/Topology.antt =====
-- The declared graph in pkg/coordinator/coordinator.go: `Configure`, `markFiniteEpochChannels`,
-- `componentMaxEpochs`, `SetOperations` and `Topology`.
use stark8s.Prelude.{
  ℕ, ℤ, pos, zero, suc, ◌*◌, pos_part, String, Bool, true, false, not, ◌&&◌, ◌||◌, Option, none,
  some, List, [], ◌∷◌, ◌++◌, foldl, length, contains, add_key, keys, values, map_values, lookup,
  insert, replicate, leb_ℤ, ltb_ℤ, ◌==◌, string_eq, int_eq, if◌then◌else◌,
}
use stark8s.Graph.{PartitioningMode, Durability, FeedbackMode, Feedback, ChannelSpec}
use stark8s.Coordinator.Api.{OperationSpec}
use stark8s.Coordinator.State.{Segment, Channel, Coordinator, M, ◌>>◌, modify, commit_locked}
use stark8s.Coordinator.Channels.{synchronous, max_epochs_of}
use stark8s.Coordinator.Balance.{sort_texts}
use stark8s.Coordinator.Pods.{op_of, set_op}

abbrev pub new_coordinator : String → ℕ → Coordinator
new_coordinator self_addr now = record {
  channels = [];
  ops = [];
  self_addr = self_addr;
  next_id = 0;
  now = now;
  wake = 0;
  durable = none;
  tombstone_keys = [];
  failed = none;
}

abbrev default_mode : PartitioningMode → PartitioningMode
default_mode PartitioningMode.unset = PartitioningMode.round_robin
default_mode m = m

abbrev default_feedback_mode : FeedbackMode → FeedbackMode
default_feedback_mode FeedbackMode.unset = FeedbackMode.synchronous
default_feedback_mode m = m

abbrev default_feedback : Option Feedback → Option Feedback
default_feedback none = none
default_feedback (some f) = some (record f { mode = default_feedback_mode f.mode })

-- The defaults that `Configure` fills in.
unfoldable pub normalize : ChannelSpec → ChannelSpec
normalize s =
    let p = s.partitioning in
    record s {
      partitioning = record {
        mode = default_mode p.mode;
        partitions = if leb_ℤ p.partitions (pos 0) then pos 1 else p.partitions;
      };
      durability = if s.to == "" then Durability.retained else s.durability;
      feedback = default_feedback s.feedback;
    }

-- What an unused pointer points to.
abbrev pub blank_segment : Segment
blank_segment = record {
  id = "";
  holder = "";
  producer = "";
  op = "";
  channel = "";
  part = pos 0;
  epoch = pos 0;
  records = 0;
  bytes = 0;
  durable = false;
  task = record { channel = ""; partition = pos 0; epoch = pos 0; attempt = pos 0 };
  append_id = "";
  offset = 0;
  delivered = [];
  acked = [];
  retry_after = [];
  lost = false;
  released = false;
  retention_deleted = false;
  reported = false;
  payload = none;
}

abbrev pub new_channel : ChannelSpec → Channel
new_channel s =
    let n = pos_part s.partitioning.partitions in
    record {
      spec = s;
      sealed = false;
      produced = 0;
      overflowed = 0;
      lost = 0;
      acknowledged = 0;
      latest_delivery_failure = "";
      epoch = pos 0;
      finite_epochs = false;
      max_epochs = pos 0;
      production_closed = [];
      rr = 0;
      queues = replicate n [];
      log = [];
      cursor = [];
      inflight = [];
      held = [];
      epoch_done = [];
      records = [];
      history = replicate n [];
      history_base = replicate n 0;
      append_ids = [];
      subscriptions = [];
      index = [];
      heap = λ _. blank_segment;
      fresh = 0;
    }

-- `co.op(name)` for an end of the channel that is named.
abbrev ensure_op : String → Coordinator → Coordinator
ensure_op name co = if name == "" then co else set_op name (op_of co name) co

abbrev declare : ChannelSpec → Option Channel → Coordinator → Coordinator
declare s (some c) co = record co { channels = insert co.channels s.name (record c { spec = s }) }
declare s none co =
    ensure_op s.to
      (ensure_op s.from (record co { channels = insert co.channels s.name (new_channel s) }))

-- One round of the loop of `Configure`.
unfoldable pub declare_channel : Coordinator → ChannelSpec → Coordinator
unfolding normalize
declare_channel co spec = let s = normalize spec in declare s (lookup co.channels s.name) co

-- Operations joined by channels, whatever their direction: the set grows along each channel that
-- touches it.
pub record Spread : Type 0 where
  pub seen : List String
  pub changed : Bool

abbrev see : String → Spread → Spread
see name s =
    if not (name == "") && not (contains s.seen name)
    then (record { seen = name ∷ s.seen; changed = true })
    else s

unfoldable pub spread_channel : Spread → Channel → Spread
spread_channel s c =
    if contains s.seen c.spec.from || contains s.seen c.spec.to
    then see c.spec.to (see c.spec.from s)
    else s

unfoldable pub spread_round : List Channel → List String → Spread
unfolding spread_channel
spread_round chs seen = foldl spread_channel (record { seen = seen; changed = false }) chs

-- The loop `for changed := true; changed;`, on fuel.
unfoldable pub spread_loop : ℕ → List Channel → List String → List String
unfolding spread_round
spread_loop zero chs seen = seen
spread_loop (suc fuel) chs seen =
    let s = spread_round chs seen in
    let rest = spread_loop fuel chs s.seen in if s.changed then rest else s.seen

-- A round that changes something sees a new end of a channel.
abbrev pub spread_fuel : List Channel → ℕ
spread_fuel chs = suc (2 * length chs)

abbrev add_ends : List String → Channel → List String
add_ends seen c = if synchronous c then add_key (add_key seen c.spec.from) c.spec.to else seen

unfoldable pub finite_ops : List Channel → List String
unfolding spread_loop
finite_ops chs = spread_loop (spread_fuel chs) chs (foldl add_ends [] chs)

abbrev named : String → List String
named name = if name == "" then [] else name ∷ []

abbrev larger_bound : List String → ℤ → Channel → ℤ
larger_bound seen best c =
    if synchronous c && contains seen c.spec.from && ltb_ℤ best (max_epochs_of c.spec.feedback)
    then max_epochs_of c.spec.feedback
    else best

unfoldable pub component_max_epochs : List Channel → Channel → ℤ
unfolding spread_loop
component_max_epochs chs start =
    let seen = spread_loop (spread_fuel chs) chs (named start.spec.from ++ named start.spec.to) in
    foldl (larger_bound seen) (pos 0) chs

-- The epoch 0 of a synchronous loop gets its input from other edges.
abbrev close_first_epoch : Channel → Channel
close_first_epoch c =
    if synchronous c
    then (record c { production_closed = add_key c.production_closed (pos 0) })
    else c

abbrev mark_finite : List Channel → List String → Channel → Channel
mark_finite chs ops c =
    let finite = contains ops c.spec.from || contains ops c.spec.to in
    if finite
    then (record c { finite_epochs = true; max_epochs = component_max_epochs chs c })
    else (record c { finite_epochs = false })

unfoldable pub mark_finite_epoch_channels : Coordinator → Coordinator
unfolding finite_ops component_max_epochs
mark_finite_epoch_channels co =
    let chs = values co.channels in
    record co {
      channels =
          map_values (λ n c. mark_finite chs (finite_ops chs) (close_first_epoch c)) co.channels;
    }

unfoldable pub configure : List ChannelSpec → M (Unit {0})
configure specs = do
  modify (λ co. foldl declare_channel co specs)
  modify mark_finite_epoch_channels
  commit_locked

abbrev set_operation : Coordinator → OperationSpec → Coordinator
set_operation co s =
    if s.name == ""
    then co
    else set_op s.name (record (op_of co s.name) { replicas = s.replicas }) co

unfoldable pub set_operations : List OperationSpec → Coordinator → Coordinator
set_operations specs co = foldl set_operation co specs

unfoldable pub channel_names : Coordinator → List String
unfolding sort_texts
channel_names co = sort_texts (keys co.channels)

abbrev spec_of : Coordinator → String → List ChannelSpec
spec_of co name = elim (lookup co.channels name) [ none ↦ [] | some c ↦ c.spec ∷ [] ]

abbrev specs_of : Coordinator → List String → List ChannelSpec
specs_of co [] = []
specs_of co (n ∷ ns) = spec_of co n ++ specs_of co ns

unfoldable pub topology : Coordinator → List ChannelSpec
unfolding channel_names
topology co = specs_of co (channel_names co)
