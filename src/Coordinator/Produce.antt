-- ===== src/Coordinator/Produce.antt =====
-- The producing side of pkg/coordinator/coordinator.go: `AnnounceSession`, `Produce`, `Segment` and
-- `Seal`.
pub mod Announce
pub mod Retry
use stark8s.Prelude.{
  ℕ, ℤ, pos, suc, ◌%◌, ◌^◌, pos_part, String, Bool, true, false, not, ◌&&◌, ◌||◌, Option, none,
  some, List, [], ◌∷◌, ◌++◌, foldl, any, length, values, lookup, has, leb, ltb_ℤ, add64, nat_beq,
  ◌==◌, string_eq, int_eq, if◌then◌else◌,
}
use stark8s.Coordinator.Api.{Error, Record, SegmentAnnouncement}
use stark8s.Coordinator.State.{
  Segment, Channel, Coordinator, Durable, M, ◌>>=◌, ◌>>◌, return, fail, modify, refuse_if,
  get_state, commit_locked, require_durable_writer, Result, ok, err,
}
use stark8s.Coordinator.Names.{segment_key, external_id}
use stark8s.Coordinator.Channels.{partitions, broadcast, external}
use stark8s.Coordinator.Pods.{get, put_channel}
use stark8s.Coordinator.Registration.{verify_pod}
use stark8s.Coordinator.Settle.{seal_at, seal_channel, settle}
use stark8s.Coordinator.Topology.{blank_segment}
use stark8s.Coordinator.Segments.{
  append_id_of, same_append, durable_holder, index_segment, may_produce, partition_of,
}

-- The checks of a segment that was not announced before.
abbrev pub check_new : Channel → SegmentAnnouncement → Result Bool
check_new c a =
    if c.sealed
    then err Error.channel_sealed
    else if c.finite_epochs && ltb_ℤ a.epoch c.epoch
    then err Error.epoch_behind
    else if not (broadcast c)
        && (ltb_ℤ a.partition (pos 0) || leb (partitions c) (pos_part a.partition))
    then err Error.partition_out_of_range
    else ok true

abbrev pub check_prior : Channel → String → SegmentAnnouncement → Option ℕ → Result Bool
check_prior c name a none = check_new c a
check_prior c name a (some p) =
    if same_append (c.heap p) a name then ok false else err Error.append_conflict

-- One round of the first loop: whether the announcement brings something new.
unfoldable pub check_announcement : Channel → String → SegmentAnnouncement → Result Bool
check_announcement c name a =
    if a.id == ""
    then ok true
    else if not (a.channel == "") && not (a.channel == name)
    then err Error.channel_mismatch
    else check_prior c name a (lookup c.append_ids (append_id_of a))

abbrev pub either_new : Result Bool → Result Bool → Result Bool
either_new (err e) rest = err e
either_new (ok b) (err e) = err e
either_new (ok b) (ok b') = ok (b || b')

unfoldable pub check_all : Channel → String → List SegmentAnnouncement → Result Bool
check_all c name [] = ok false
check_all c name (a ∷ as') = either_new (check_announcement c name a) (check_all c name as')

-- The segment that an announcement describes.
unfoldable pub announced_segment : Channel → String → String → SegmentAnnouncement → Segment
announced_segment c name op_name a = record blank_segment {
  id = a.id;
  holder = a.holder;
  producer = if a.producer == "" then op_name else a.producer;
  op = if op_name == "" then c.spec.from else op_name;
  channel = name;
  part = a.partition;
  epoch = a.epoch;
  records = a.records;
  bytes = a.bytes;
  durable = a.durable || durable_holder a.holder;
  task = a.task;
  append_id = append_id_of a;
}

-- One round of the second loop.
unfoldable pub announce_one : String → String → Channel → SegmentAnnouncement → Channel
announce_one name op_name c a =
    if a.id == ""
    then record c { overflowed = add64 c.overflowed a.overflowed }
    else if has c.append_ids (append_id_of a)
    then c
    else index_segment (record c { overflowed = add64 c.overflowed a.overflowed })
        (announced_segment c name op_name a)

unfoldable pub announce_all : String → String → List SegmentAnnouncement → Channel → Channel
announce_all name op_name anns c = foldl (announce_one name op_name) c anns

abbrev pub lift : {A : Type 0} → Result A → M A
lift (ok a) = return a
lift (err e) = fail e

abbrev pub commit_announced :
    String → String → List SegmentAnnouncement → Channel → Bool → M (Unit {0})
commit_announced name op_name anns c false = return tt
commit_announced name op_name anns c true = do
  modify (put_channel name (announce_all name op_name anns c))
  modify settle
  commit_locked

unfoldable pub announce_session :
    String → String → String → String → List SegmentAnnouncement → M (Unit {0})
announce_session name op_name pod_name incarnation anns = do
  require_durable_writer
  c ← get name
  co ← get_state
  refuse_if (not (may_produce co c op_name)) Error.may_not_produce
  verify_pod op_name pod_name incarnation
  has_new ← lift (check_all c name anns)
  commit_announced name op_name anns c has_new

-- The records of one produce request that share a partition and an epoch.
pub record Group : Type 0 where
  pub part : ℕ
  pub epoch : ℤ
  pub records : List Record

unfoldable pub add_to_group : List Group → ℕ → Record → List Group
add_to_group [] p r = record { part = p; epoch = r.epoch; records = r ∷ [] } ∷ []
add_to_group (g ∷ gs) p r =
    if nat_beq g.part p && g.epoch == r.epoch
    then record g { records = g.records ++ r ∷ [] } ∷ gs
    else g ∷ add_to_group gs p r

unfoldable pub group_records : List Record → Channel × List Group → Channel × List Group
unfolding partition_of add_to_group
group_records [] (c, groups) = (c, groups)
group_records (r ∷ rs) (c, groups) =
    let (c', p) = partition_of c r in group_records rs (c', add_to_group groups p r)

abbrev answer_put : Coordinator → Durable → List Bool → Coordinator × Result (Unit {0})
answer_put co d [] = (co, ok tt)
answer_put co d (true ∷ bs) = (record co { durable = some (record d { puts = bs }) }, ok tt)
answer_put co d (false ∷ bs) =
    (record co { durable = some (record d { puts = bs }) }, err Error.commit_failed)

abbrev put_durable : Option Durable → M (Unit {0})
put_durable none co = (co, ok tt)
put_durable (some d) co = answer_put co d d.puts

abbrev update_channel : String → (Channel → Channel) → Coordinator → Coordinator
update_channel name f co = elim (lookup co.channels name) [
  | none ↦ co
  | some c ↦ put_channel name (f c) co
]

abbrev produced_segment : Coordinator → String → String → Group → Segment
produced_segment co name id g = record blank_segment {
  id = id;
  append_id = segment_key "coordinator" id;
  holder = co.self_addr;
  producer = "coordinator";
  channel = name;
  part = pos g.part;
  epoch = g.epoch;
  records = length g.records % 2 ^ 64;
  payload = some g.records;
}

-- The bytes of a group are stored before the segment is indexed.
abbrev store_group : String → Group → M (Unit {0})
store_group name g = do
  modify (λ co. record co { next_id = add64 co.next_id 1 })
  co ← get_state
  put_durable co.durable
  modify (
      update_channel name
        (λ c. index_segment c (produced_segment co name (external_id co.next_id) g)))

unfoldable pub store_groups : String → List Group → M (Unit {0})
store_groups name [] co = (co, ok tt)
store_groups name (g ∷ gs) co = elim (store_group name g co).1 [
  | ok u ↦ store_groups name gs (store_group name g co).0
  | err e ↦ ((store_group name g co).0, err e)
]

abbrev keep_records : List Record → Channel → Channel
keep_records recs c = record c {
  records = c.records ++ recs;
  produced = add64 c.produced (length recs % 2 ^ 64);
}

-- A channel with no consumer keeps the records in its log, and its readers are woken.
abbrev produce_external : String → Channel → List Record → M (Unit {0})
produce_external name c recs = do
  modify (λ co. put_channel name (keep_records recs c) (record co { wake = suc co.wake }))
  commit_locked

abbrev produce_segments : String → Channel → List Record → M (Unit {0})
produce_segments name c recs = do
  let grouped = group_records recs (c, [])
  modify (put_channel name grouped.0)
  refuse_if (c.finite_epochs && any (λ g. ltb_ℤ g.epoch c.epoch) grouped.1) Error.epoch_behind
  store_groups name grouped.1
  modify settle
  commit_locked

unfoldable pub produce : String → String → List Record → M (Unit {0})
produce name op_name recs = do
  c ← get name
  co ← get_state
  refuse_if (not (may_produce co c op_name)) Error.may_not_produce
  refuse_if c.sealed Error.channel_sealed
  if external c then produce_external name c recs else produce_segments name c recs

abbrev held_here : Channel → Option ℕ → Option (List Record)
held_here c none = none
held_here c (some p) = (c.heap p).payload

find_payload : String → List Channel → Option (List Record)
find_payload key [] = none
find_payload key (c ∷ cs) = elim (held_here c (lookup c.index key)) [
  | none ↦ find_payload key cs
  | some rs ↦ some rs
]

-- `Segment`: the records of a segment that the coordinator holds.
unfoldable pub segment : String → Coordinator → Option (List Record)
unfolding find_payload
segment id co = find_payload (segment_key co.self_addr id) (values co.channels)

unfoldable pub seal : String → M (Unit {0})
seal name = do c ← get name; modify (seal_at name c); modify settle; commit_locked
