-- ===== src/Coordinator/Persistence.antt =====
-- pkg/coordinator/persistence.go: the snapshot of the coordinator, and restoring it.
pub mod Found
pub mod RoundTrip
pub mod Keyed
pub mod Indexed
pub mod Whole
use stark8s.Prelude.{
  ℕ, zero, suc, ◌+◌, ℤ, String, Bool, true, false, not, ◌&&◌, ◌||◌, Option, none, some, List, [],
  ◌∷◌, ◌++◌, map, any, length, is_empty, replicate, contains, Map, lookup, insert, delete,
  map_values, values, keep, is_some, pos_part, nat_beq, ◌==◌, if◌then◌else◌, string_eq,
}
use stark8s.Graph.{ChannelSpec, is_retained}
use stark8s.Coordinator.Api.{Record}
use stark8s.Coordinator.State.{
  Pod, Operation, Segment, Channel, Subscription, Coordinator, Durable, Result, ok, err, write_cell,
  update_segment, commit_locked,
}
use stark8s.Coordinator.Names.{segment_key}
use stark8s.Coordinator.Balance.{sort_texts}
use stark8s.Coordinator.Segments.{durable_holder}
use stark8s.Coordinator.Topology.{new_coordinator, blank_segment}

-- A channel with the append ids of segments in place of pointers. A persisted segment, pod, operation
-- or subscription has the fields of the one that it is made from.
pub record PersistedChannel : Type 0 where
  pub spec : ChannelSpec
  pub sealed : Bool
  pub produced : ℕ
  pub overflowed : ℕ
  pub lost : ℕ
  pub acknowledged : ℕ
  pub latest_delivery_failure : String
  pub epoch : ℤ
  pub finite_epochs : Bool
  pub max_epochs : ℤ
  pub production_closed : List ℤ
  pub rr : ℕ
  pub segments : Map String Segment
  pub queues : List (List String)
  pub log : List String
  pub held : List String
  pub cursor : Map String ℕ
  pub epoch_done : Map String ℤ
  pub records : List Record
  pub append_index : Bool
  pub all : List String
  pub history : List (List String)
  pub history_base : List ℕ
  pub subscriptions : Map String Subscription

pub record PersistedCoordinator : Type 0 where
  pub next_id : ℕ
  pub channels : Map String PersistedChannel
  pub operations : Map String Operation

abbrev pub append_id_at : Channel → ℕ → String
append_id_at c p = (c.heap p).append_id

unfoldable pub snapshot_channel : Channel → PersistedChannel
snapshot_channel c = record {
  spec = c.spec;
  sealed = c.sealed;
  produced = c.produced;
  overflowed = c.overflowed;
  lost = c.lost;
  acknowledged = c.acknowledged;
  latest_delivery_failure = c.latest_delivery_failure;
  epoch = c.epoch;
  finite_epochs = c.finite_epochs;
  max_epochs = c.max_epochs;
  production_closed = c.production_closed;
  rr = c.rr;
  segments = map_values (λ k p. c.heap p) c.append_ids;
  queues = map (map (append_id_at c)) c.queues;
  log = map (append_id_at c) c.log;
  held = map (append_id_at c) c.held;
  cursor = c.cursor;
  epoch_done = c.epoch_done;
  records = c.records;
  append_index = true;
  all = map (append_id_at c) (values c.index);
  history = map (map (append_id_at c)) c.history;
  history_base = c.history_base;
  subscriptions = c.subscriptions;
}

unfoldable pub snapshot : Coordinator → PersistedCoordinator
unfolding snapshot_channel
snapshot co = record {
  next_id = co.next_id;
  channels = map_values (λ k c. snapshot_channel c) co.channels;
  operations = co.ops;
}

-- The released segments of channels that keep none, and the keys that wait for deletion.
abbrev released_ids : Channel → List String
released_ids c =
    if is_retained c.spec.durability
    then []
    else map (λ p. (c.heap p).id) (keep (λ p. (c.heap p).released) (values c.index))

abbrev all_released : List Channel → List String
all_released [] = []
all_released (c ∷ cs) = released_ids c ++ all_released cs

unfoldable pub tombstones : Coordinator → List String
tombstones co = sort_texts (co.tombstone_keys ++ all_released (values co.channels))

-- What restoring a channel has built from its segments.
pub record Restored : Type 0 where
  pub heap : ℕ → Segment
  pub fresh : ℕ
  pub append_ids : Map String ℕ
  pub index : Map String ℕ
  pub inflight : Map String ℕ
  pub aliases : List String

abbrev pub restored_segment : Segment → Segment
restored_segment s = record s {
  durable = s.durable || durable_holder s.holder;
  append_id = if s.append_id == "" then segment_key s.producer s.id else s.append_id;
}

abbrev pub add_if : Bool → Map String ℕ → String → ℕ → Map String ℕ
add_if b m k p = if b then insert m k p else m

-- One round of the loop over the segments, with whether all of them are still indexed.
abbrev pub place_restored : Bool → List String → String → Segment → Restored → Restored
place_restored legacy all key s r =
    let p = r.fresh in
    let is_alias = not (key == s.append_id) in
    record {
      heap = write_cell r.heap p s;
      fresh = suc p;
      append_ids = add_if is_alias (insert r.append_ids s.append_id p) key p;
      index =
          add_if (legacy || contains all key || contains all s.append_id) r.index
            (segment_key s.holder s.id) p;
      inflight = add_if (not (is_empty s.delivered)) r.inflight (segment_key s.holder s.id) p;
      aliases = if is_alias then r.aliases ++ key ∷ [] else r.aliases;
    }

unfoldable pub restore_segments : Bool → List String → Map String Segment → Restored → Restored
restore_segments legacy all [] r = r
restore_segments legacy all ((key, s) ∷ segments) r =
    restore_segments legacy all segments (place_restored legacy all key (restored_segment s) r)

abbrev pub nothing_restored : Restored
nothing_restored = record {
  heap = λ p. blank_segment;
  fresh = 0;
  append_ids = [];
  index = [];
  inflight = [];
  aliases = [];
}

-- The pointers of the append ids that are known.
unfoldable pub resolve : Map String ℕ → List String → List ℕ
resolve ids [] = []
resolve ids (k ∷ ks) =
    let rest = resolve ids ks in elim (lookup ids k) [ none ↦ rest | some p ↦ p ∷ rest ]

abbrev pub drop_aliases : List String → Map String ℕ → Map String ℕ
drop_aliases [] ids = ids
drop_aliases (k ∷ ks) ids = drop_aliases ks (delete ids k)

abbrev pub or_empty {ℓ} : {A : Type ℓ} → List A → ℕ → A → List A
or_empty [] n a = replicate n a
or_empty (x ∷ xs) n a = x ∷ xs

abbrev pub partitions_of : ChannelSpec → ℕ
partitions_of spec = pos_part spec.partitioning.partitions

abbrev pub channel_from : PersistedChannel → Restored → Channel
channel_from pc r = record {
  spec = pc.spec;
  sealed = pc.sealed;
  produced = pc.produced;
  overflowed = pc.overflowed;
  lost = pc.lost;
  acknowledged = pc.acknowledged;
  latest_delivery_failure = pc.latest_delivery_failure;
  epoch = pc.epoch;
  finite_epochs = pc.finite_epochs;
  max_epochs = pc.max_epochs;
  production_closed = pc.production_closed;
  rr = pc.rr;
  queues = map (resolve r.append_ids) pc.queues;
  log = resolve r.append_ids pc.log;
  cursor = pc.cursor;
  inflight = r.inflight;
  held = resolve r.append_ids pc.held;
  epoch_done = pc.epoch_done;
  records = pc.records;
  history = or_empty (map (resolve r.append_ids) pc.history) (partitions_of pc.spec) [];
  history_base = or_empty pc.history_base (partitions_of pc.spec) 0;
  append_ids = drop_aliases r.aliases r.append_ids;
  subscriptions = pc.subscriptions;
  index = r.index;
  heap = r.heap;
  fresh = r.fresh;
}

unfoldable pub restore_channel : PersistedChannel → Channel
unfolding restore_segments resolve
restore_channel pc =
    channel_from pc (restore_segments (not pc.append_index) pc.all pc.segments nothing_restored)

abbrev pub restore_pods : Map String Pod → Map String Pod
restore_pods pods = map_values (λ id (p : Pod). record p { name = id }) pods

abbrev pub restore_operations : Map String Operation → Map String Operation
restore_operations ops =
    map_values (λ name (o : Operation). record o { pods = restore_pods o.pods }) ops

abbrev pub restore_channels : Map String PersistedChannel → Map String Channel
restore_channels channels = map_values (λ name pc. restore_channel pc) channels

unfoldable pub restore : PersistedCoordinator → Coordinator → Coordinator
unfolding restore_channel
restore snapped co = record co {
  next_id = snapped.next_id;
  ops = restore_operations snapped.operations;
  channels = restore_channels snapped.channels;
}
