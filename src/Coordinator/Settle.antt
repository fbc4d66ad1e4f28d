-- ===== src/Coordinator/Settle.antt =====
-- Sealing, the release of broadcast segments and the end of asynchronous loops in
-- pkg/coordinator/coordinator.go: `seal`, `release`, `cycleMembers` and `settle`.
pub mod Sound
pub mod Cycle
pub mod Members
use stark8s.Prelude.{
  ℕ, zero, suc, ◌*◌, pos_part, String, Bool, true, false, not, ◌&&◌, ◌||◌, Option, none, some, List,
  [], ◌∷◌, Map, foldl, all, length, contains, add_key, keys, values, lookup, delete, is_some, leb,
  ltb, ◌==◌, string_eq, int_eq, nat_beq, if◌then◌else◌,
}
use stark8s.Graph.{is_retained, is_asynchronous}
use stark8s.Coordinator.State.{Operation, Segment, Channel, Coordinator, update_segment}
use stark8s.Coordinator.Names.{segment_key}
use stark8s.Coordinator.Channels.{
  broadcast, external, feedback_mode, synchronous, quiet, held_records,
}
use stark8s.Coordinator.Pods.{op_of, put_channel}

-- `s.released = true`
abbrev pub mark_released : Channel → ℕ → Channel
mark_released c p = update_segment c p (λ s. record s { released = true })

-- `seal`, on the channel; held records of a synchronous loop are dropped.
unfoldable pub seal_channel : Channel → Channel
seal_channel c =
    let c' = record c { sealed = true; production_closed = add_key c.production_closed c.epoch } in
    if synchronous c then record (foldl mark_released c' c.held) { held = [] } else c'

-- `seal`, with the readers woken.
abbrev pub seal_at : String → Channel → Coordinator → Coordinator
seal_at name c co = put_channel name (seal_channel c) (record co { wake = suc co.wake })

-- `release`: nobody needs the segment, and a copy held here is dropped unless it is retained.
unfoldable pub release : Channel → ℕ → Channel
release c p =
    let s = c.heap p in
    let c' = mark_released c p in
    if is_some s.payload && not (is_retained c.spec.durability)
    then (record (update_segment c' p (λ t. record t { payload = none })) {
      index = delete c.index (segment_key s.holder s.id);
    })
    else c'

-- `consumedByEveryReplica`: the published replica count, with the live pods as a floor.
unfoldable pub replicas_wanted : Operation → ℕ
replicas_wanted o =
    let want = pos_part o.replicas in if ltb want (length o.pods) then length o.pods else want

unfoldable pub consumed_by_every_replica : Operation → Segment → Bool
unfolding replicas_wanted
consumed_by_every_replica o s =
    if nat_beq (replicas_wanted o) 0 then false else leb (replicas_wanted o) (length s.acked)

abbrev release_if_consumed : Operation → Channel → ℕ → Channel
release_if_consumed o c p =
    let s = c.heap p in
    if not s.lost && not s.released && consumed_by_every_replica o s then release c p else c

unfoldable pub release_broadcast : Operation → Channel → Channel
unfolding release consumed_by_every_replica
release_broadcast o c =
    if not (broadcast c) || external c then c else foldl (release_if_consumed o) c (values c.index)

unfoldable pub broadcast_fully_consumed : Operation → Channel → Bool
unfolding consumed_by_every_replica
broadcast_fully_consumed o c =
    all (λ p. (c.heap p).lost || (c.heap p).released || consumed_by_every_replica o (c.heap p))
      c.log

-- The two sets of operations that `cycleMembers` grows, and whether a round changed them.
pub record Reach : Type 0 where
  pub forward : List String
  pub backward : List String
  pub changed : Bool

-- A channel that is no feedback and joins two operations.
abbrev pub is_inner_edge : Channel → Bool
is_inner_edge c = not (is_some c.spec.feedback) && not (c.spec.from == "") && not (c.spec.to == "")

abbrev extend_forward : Channel → Reach → Reach
extend_forward ch r =
    if contains r.forward ch.spec.from && not (contains r.forward ch.spec.to)
    then (record r { forward = ch.spec.to ∷ r.forward; changed = true })
    else r

abbrev extend_backward : Channel → Reach → Reach
extend_backward ch r =
    if contains r.backward ch.spec.to && not (contains r.backward ch.spec.from)
    then (record r { backward = ch.spec.from ∷ r.backward; changed = true })
    else r

unfoldable pub reach_edge : Reach → Channel → Reach
reach_edge r ch = if is_inner_edge ch then extend_backward ch (extend_forward ch r) else r

unfoldable pub reach_round : List Channel → Reach → Reach
unfolding reach_edge
reach_round chs r = foldl reach_edge (record r { changed = false }) chs

-- The loop `for changed := true; changed;`, on fuel.
unfoldable pub reach_loop : ℕ → List Channel → Reach → Reach
unfolding reach_round
reach_loop zero chs r = r
reach_loop (suc fuel) chs r =
    let r' = reach_round chs r in
    let rest = reach_loop fuel chs r' in if r'.changed then rest else r'

abbrev pub reach_start : Channel → Reach
reach_start c = record { forward = c.spec.to ∷ []; backward = c.spec.from ∷ []; changed = true }

-- A round that changes something uses up an edge in one direction, so twice the number of
-- channels, and one round to see that nothing changes, are enough.
abbrev pub reach_fuel : List Channel → ℕ
reach_fuel chs = suc (2 * length chs)

unfoldable pub cycle_reach : List Channel → Channel → Reach
unfolding reach_loop
cycle_reach chs c = reach_loop (reach_fuel chs) chs (reach_start c)

-- `members[op]` of `cycleMembers`.
unfoldable pub is_member : Channel → Reach → String → Bool
is_member c r op =
    op == c.spec.to || op == c.spec.from || (contains r.forward op && contains r.backward op)

-- Whether another channel lets the loop closed by `c` end.
unfoldable pub lets_end : Channel → Reach → Channel → Bool
unfolding is_member
lets_end c r other =
    if not (is_member c r other.spec.to)
    then true
    else if is_member c r other.spec.from
    then is_some other.spec.feedback || quiet other
    else other.sealed && quiet other && nat_beq (held_records other) 0

abbrev others : String → Map String Channel → List Channel
others name [] = []
others name ((n, c) ∷ m) = let rest = others name m in if n == name then rest else c ∷ rest

-- The loop closed by `c` can produce nothing more.
unfoldable pub loop_done : String → Channel → Coordinator → Bool
loop_done name c co =
    let r = cycle_reach (values co.channels) c in
    all (lets_end c r) (others name co.channels) && quiet c

abbrev settle_sealing : String → Channel → Coordinator → Coordinator
settle_sealing name c co =
    if c.sealed || not (is_asynchronous (feedback_mode c))
    then co
    else if loop_done name c co
    then seal_at name c co
    else co

-- One round of `settle`. The consumer of a channel is an operation since it was configured.
abbrev settle_found : String → Option Channel → Coordinator → Coordinator
settle_found name none co = co
settle_found name (some c) co =
    let c' = release_broadcast (op_of co c.spec.to) c in
    settle_sealing name c' (put_channel name c' co)

unfoldable pub settle_channel : Coordinator → String → Coordinator
settle_channel co name = settle_found name (lookup co.channels name) co

unfoldable pub settle : Coordinator → Coordinator
settle co = foldl settle_channel co (keys co.channels)
