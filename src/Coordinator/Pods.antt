-- ===== src/Coordinator/Pods.antt =====
-- The registry of pods in pkg/coordinator/coordinator.go: registration, heartbeats, process
-- replacement and expiry.
use stark8s.Prelude.{
  ℕ, pos, ◌+◌, String, Bool, true, false, not, ◌&&◌, ◌||◌, Option, none, some, List, [], ◌∷◌, ◌++◌,
  Map, foldl, is_empty, contains, remove_key, keep, keep_entries, map_values, values, lookup,
  insert, delete, has, or_else, ltb, leb, add64, ◌==◌, string_eq, int_eq, if◌then◌else◌,
}
use stark8s.Coordinator.Api.{Error}
use stark8s.Coordinator.State.{
  Pod, Operation, Segment, Subscription, Channel, Coordinator, M, require, update_segment, ok,
}
use stark8s.Coordinator.Names.{delivery_key, delivery_pod, segment_key}
use stark8s.Coordinator.Channels.{broadcast, queue_at, set_queue, remove_segment}

-- PodTTL, 20 seconds in nanoseconds.
abbrev pub pod_ttl : ℕ
pod_ttl = 20_000_000_000

abbrev pub new_operation : Operation
new_operation = record {
  pods = [];
  epoch_done = [];
  owner = [];
  pinned = [];
  replicas = pos 0;
  retired = [];
  next_cohort_slot = 0;
  free_cohort_slots = [];
  completed = false;
}

abbrev pub op_of : Coordinator → String → Operation
op_of co name = or_else (lookup co.ops name) new_operation

abbrev pub set_op : String → Operation → Coordinator → Coordinator
set_op name o co = record co { ops = insert co.ops name o }

-- `co.op(name)`: creates the operation if it is not there.
abbrev pub op : String → M Operation
op name co = (set_op name (op_of co name) co, ok (op_of co name))

-- `co.get(name)`
abbrev pub get : String → M Channel
get name co = require (lookup co.channels name) Error.channel_not_found co

abbrev pub put_channel : String → Channel → Coordinator → Coordinator
put_channel name c co = record co { channels = insert co.channels name c }

-- A pod is live until it has been silent for the TTL.
abbrev pub is_live : ℕ → Pod → Bool
is_live now p = ltb now (p.last_seen + pod_ttl)

abbrev pub release_ownership : String → Operation → Operation
release_ownership id o = record o {
  owner = keep_entries (λ k w. not (w == id)) o.owner;
  pinned = keep (λ k. not (or_else (lookup o.owner k) "" == id && has o.owner k)) o.pinned;
  epoch_done = delete o.epoch_done id;
}

-- The deliveries of a subscription that a process, or a whole pod, gives back.
abbrev return_subscription : String → String → String → Bool → Subscription → Subscription
return_subscription op_name id incarnation everything sub =
    if sub.operation == op_name
    then (record sub {
      inflight =
          keep_entries
            (λ k d. not (
              delivery_pod d.owner == id && (everything || d.owner == delivery_key id incarnation)))
            sub.inflight;
    })
    else sub

-- The first delivery of a segment to any process of the pod.
unfoldable pub pod_delivery : List String → String → Option String
unfolding delivery_pod
pod_delivery [] id = none
pod_delivery (k ∷ ks) id = if delivery_pod k == id then some k else pod_delivery ks id

-- Which delivery of the segment goes back; a key found once is tried first on the next segment.
abbrev find_delivery : String → Bool → String → Segment → Option String
find_delivery id everything delivery s =
    if contains s.delivered delivery
    then some delivery
    else if everything
    then pod_delivery s.delivered id
    else none

abbrev return_delivery : String → ℕ → String → Channel → Channel
return_delivery key p delivery c =
    let c' = update_segment c p (λ s. record s { delivered = remove_key s.delivered delivery }) in
    if broadcast c
    then if is_empty (c'.heap p).delivered
      then record c' { inflight = delete c.inflight key }
      else c'
    else let back = record c' { inflight = delete c.inflight key } in
      if (c.heap p).lost
      then back
      else set_queue back (c.heap p).part (p ∷ queue_at c (c.heap p).part)

abbrev return_found : String → ℕ → String → Channel → Option String → Channel × String
return_found key p delivery c none = (c, delivery)
return_found key p delivery c (some k) = (return_delivery key p k c, k)

unfoldable pub return_inflight : String → Bool → Map String ℕ → Channel × String → Channel × String
return_inflight id everything [] (c, delivery) = (c, delivery)
return_inflight id everything ((key, p) ∷ entries) (c, delivery) =
    return_inflight id everything entries
      (return_found key p delivery c (find_delivery id everything delivery (c.heap p)))

unfoldable pub return_on_channel : String → String → String → Bool → Channel → Channel
unfolding return_inflight pod_delivery
return_on_channel op_name id incarnation everything c =
    let c' = record c {
      subscriptions =
          map_values (λ n sub. return_subscription op_name id incarnation everything sub)
            c.subscriptions;
    } in
    if c.spec.to == op_name
    then (return_inflight id everything c.inflight (
      record c' { cursor = delete c.cursor id; epoch_done = delete c.epoch_done id },
      delivery_key id incarnation,
    )).0
    else c'

-- `returnConsumerDeliveries`; expiry passes no incarnation and returns `everything`.
unfoldable pub return_consumer_deliveries :
    String → String → String → Bool → Coordinator → Coordinator
return_consumer_deliveries op_name id incarnation everything co =
    set_op op_name (release_ownership id (op_of co op_name)) (record co {
      channels =
          map_values (λ n c. return_on_channel op_name id incarnation everything c) co.channels;
    })

unfoldable pub mark_lost : Channel → ℕ → Channel
mark_lost c p =
    let s = c.heap p in
    let c' = update_segment c p (λ s. record s { lost = true; released = true; delivered = [] }) in
    let c'' =
      if broadcast c then c' else set_queue c' s.part (remove_segment (queue_at c s.part) p) in
    record c'' {
      lost = add64 c.lost s.records;
      inflight = delete c.inflight (segment_key s.holder s.id);
      held = remove_segment c.held p;
    }

abbrev expires_with : String → Segment → Bool
expires_with pod_name s = s.producer == pod_name && not s.durable && not s.released && not s.lost

abbrev lose_segment : String → Channel → ℕ → Channel
lose_segment pod_name c p = if expires_with pod_name (c.heap p) then mark_lost c p else c

-- `expireHolder`
unfoldable pub expire_holder : String → Coordinator → Coordinator
unfolding mark_lost
expire_holder pod_name co = record co {
  channels = map_values (λ n c. foldl (lose_segment pod_name) c (values c.index)) co.channels;
}

-- `sort.Ints`
abbrev insert_int : ℕ → List ℕ → List ℕ
insert_int n [] = n ∷ []
insert_int n (m ∷ ms) = if leb n m then n ∷ m ∷ ms else m ∷ insert_int n ms

abbrev sort_ints : List ℕ → List ℕ
sort_ints [] = []
sort_ints (n ∷ ns) = insert_int n (sort_ints ns)

-- The cohort slot of an expired pod is free again.
abbrev pub drop_pod : String → Pod → Operation → Operation
drop_pod id p o = record o {
  pods = delete o.pods id;
  free_cohort_slots = sort_ints (o.free_cohort_slots ++ p.cohort_slot ∷ []);
}

-- What `expireAllExcept` does with a silent pod; `expireConsumer` is the call that returns
-- everything.
unfoldable pub expire_pod : String → String → Pod → Coordinator → Coordinator
expire_pod op_name id p co = expire_holder id (
    return_consumer_deliveries op_name id "" true
      (set_op op_name (drop_pod id p (op_of co op_name)) co))

unfoldable pub expire_pods : String → String → String → Map String Pod → Coordinator → Coordinator
expire_pods skip_op skip_pod op_name [] co = co
expire_pods skip_op skip_pod op_name ((id, p) ∷ ps) co = expire_pods skip_op skip_pod op_name ps (
    if (op_name == skip_op && id == skip_pod) || is_live co.now p
    then co
    else expire_pod op_name id p co)

unfoldable pub expire_ops : String → String → Map String Operation → Coordinator → Coordinator
expire_ops skip_op skip_pod [] co = co
expire_ops skip_op skip_pod ((op_name, o) ∷ os) co =
    expire_ops skip_op skip_pod os (expire_pods skip_op skip_pod op_name o.pods co)

unfoldable pub expire_all_except : String → String → Coordinator → Coordinator
expire_all_except skip_op skip_pod co = expire_ops skip_op skip_pod co.ops co

unfoldable pub expire_all : Coordinator → Coordinator
expire_all co = expire_all_except "" "" co
