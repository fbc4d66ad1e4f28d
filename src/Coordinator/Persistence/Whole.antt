-- ===== src/Coordinator/Persistence/Whole.antt =====
-- pkg/coordinator/persistence.go: `restore` after `snapshot`, for the whole coordinator.
use stark8s.Prelude.{
  lookup, string_eq, String, [], ◌∷◌, map, All, Map, map_values, values, ◌≡◌, refl, ap, ◌∙◌,
}
use stark8s.Coordinator.State.{Pod, Operation, Channel, Coordinator}
use stark8s.Coordinator.Persistence.{
  snapshot_channel, restore_channel, snapshot, restore, restore_pods, restore_operations,
  restore_channels, partitions_of,
}
use stark8s.Coordinator.Persistence.Indexed.{restored_from-index, restored_from-inflight}
use stark8s.Coordinator.Persistence.RoundTrip.{
  IsPersistable, segment_of, segment_at, or_empty-some, restore_channel-snapshot_channel,
}

-- A channel with all that another has, apart from the numbers of the pointers: the same declaration,
-- counters, records and subscriptions, and the same segments in the same places and under the same keys.
pub record IsSame (c' c : Channel) : Type 0 where
  pub spec : c'.spec ≡ c.spec
  pub sealed : c'.sealed ≡ c.sealed
  pub epoch : c'.epoch ≡ c.epoch
  pub produced : c'.produced ≡ c.produced
  pub acknowledged : c'.acknowledged ≡ c.acknowledged
  pub lost : c'.lost ≡ c.lost
  pub overflowed : c'.overflowed ≡ c.overflowed
  pub production_closed : c'.production_closed ≡ c.production_closed
  pub epoch_done : c'.epoch_done ≡ c.epoch_done
  pub cursor : c'.cursor ≡ c.cursor
  pub records : c'.records ≡ c.records
  pub subscriptions : c'.subscriptions ≡ c.subscriptions
  pub queues : map (map c'.heap) c'.queues ≡ map (map c.heap) c.queues
  pub log : map c'.heap c'.log ≡ map c.heap c.log
  pub held : map c'.heap c'.held ≡ map c.heap c.held
  pub history : map (map c'.heap) c'.history ≡ map (map c.heap) c.history
  pub segments : (k : String) → segment_of c' k ≡ segment_of c k
  pub latest_delivery_failure : c'.latest_delivery_failure ≡ c.latest_delivery_failure
  pub finite_epochs : c'.finite_epochs ≡ c.finite_epochs
  pub max_epochs : c'.max_epochs ≡ c.max_epochs
  pub rr : c'.rr ≡ c.rr
  pub history_base : c'.history_base ≡ c.history_base
  pub index :
      (k : String) → segment_at c'.heap (lookup c'.index k) ≡ segment_at c.heap (lookup c.index k)
  pub inflight :
      (k : String)
      → segment_at c'.heap (lookup c'.inflight k) ≡ segment_at c.heap (lookup c.inflight k)

-- The same names in the same order, with the same channels.
abbrev pub AreSame : Map String Channel → Map String Channel → Type 0
AreSame [] [] = Unit
AreSame [] (e ∷ m) = ⊥
AreSame (e ∷ m') [] = ⊥
AreSame ((n', c') ∷ m') ((n, c) ∷ m) = (n' ≡ n) × IsSame c' c × AreSame m' m

-- Pods are filed under their names.
abbrev pub AreNamed : Operation → Type 0
AreNamed o = All (λ (e : String × Pod). e.0 ≡ e.1.name) o.pods

restore_channel-IsSame :
    (c : Channel) → IsPersistable c → IsSame (restore_channel (snapshot_channel c)) c
unfolding restore_channel snapshot_channel
restore_channel-IsSame c h = record {
  spec = refl;
  sealed = refl;
  epoch = refl;
  produced = refl;
  acknowledged = refl;
  lost = refl;
  overflowed = refl;
  production_closed = refl;
  epoch_done = refl;
  cursor = refl;
  records = refl;
  subscriptions = refl;
  queues = (restore_channel-snapshot_channel c "" h).0;
  log = (restore_channel-snapshot_channel c "" h).1;
  held = (restore_channel-snapshot_channel c "" h).2;
  history = (restore_channel-snapshot_channel c "" h).3;
  segments = λ k. (restore_channel-snapshot_channel c k h).4;
  latest_delivery_failure = refl;
  finite_epochs = refl;
  max_epochs = refl;
  rr = refl;
  history_base = or_empty-some c.history_base (partitions_of c.spec) 0 h.based;
  index = λ k. restored_from-index c k h;
  inflight = λ k. restored_from-inflight c k h;
}

restore_channels-AreSame :
    (m : Map String Channel)
    → All IsPersistable (values m)
    → AreSame (restore_channels (map_values (λ k c. snapshot_channel c) m)) m
restore_channels-AreSame [] h = tt
restore_channels-AreSame ((n, c) ∷ m) h =
    (refl, restore_channel-IsSame c h.0, restore_channels-AreSame m h.1)

restore_pods-named :
    (pods : Map String Pod)
    → All (λ (e : String × Pod). e.0 ≡ e.1.name) pods
    → restore_pods pods ≡ pods
restore_pods-named [] h = refl
restore_pods-named ((n, p) ∷ pods) h =
    ap (λ i. (n, record p { name = i }) ∷ restore_pods pods) h.0
    ∙ ap (λ ps. (n, p) ∷ ps) (restore_pods-named pods h.1)

restore_operations-named :
    (ops : Map String Operation) → All AreNamed (values ops) → restore_operations ops ≡ ops
restore_operations-named [] h = refl
restore_operations-named ((n, o) ∷ ops) h =
    ap (λ ps. (n, record o { pods = ps }) ∷ restore_operations ops) (restore_pods-named o.pods h.0)
    ∙ ap (λ os. (n, o) ∷ os) (restore_operations-named ops h.1)

-- A coordinator whose pods are filed under their names comes back from its snapshot with the same
-- operations, the same next id, and the same channels under the same names: with the same declaration,
-- counters, records and subscriptions, with the same segments in the same order in the queues, the log,
-- the held list and the history, and with the same segment, or none, under each append id and under each
-- key of the index and of the deliveries in flight. This is for channels that have a history and the
-- bases of that; that file their segments under their own append ids, each used once, those in all
-- these places included; that mark those with durable holders as durable; and that have in the index,
-- under the keys of their holders, each key once, and in flight exactly the segments that are delivered.
pub restore-snapshot :
    (co old : Coordinator)
    → All AreNamed (values co.ops)
    → All IsPersistable (values co.channels)
    → let co' = restore (snapshot co) old in
      (co'.next_id ≡ co.next_id) × (co'.ops ≡ co.ops) × AreSame co'.channels co.channels
unfolding restore snapshot
restore-snapshot co old named known =
    (refl, restore_operations-named co.ops named, restore_channels-AreSame co.channels known)
