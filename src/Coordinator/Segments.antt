-- ===== src/Coordinator/Segments.antt =====
-- Indexing of segments in pkg/coordinator/coordinator.go: `index`, `sameAppend`, `HashPartition`,
-- `partitionOf` and `mayProduce`.
pub mod History
use text.Mathlib.Text.{starts_with}
use stark8s.Prelude.{
  ℕ, suc, ◌+◌, ◌*◌, ◌/◌, ◌%◌, ◌^◌, bit_xor, pos_part, code, String, Bool, false, not, ◌&&◌, ◌||◌,
  Option, none, some, List, [], ◌∷◌, ◌++◌, foldl, any, length, get_or, set, values, insert, has,
  ltb, ltb_ℤ, leb_ℤ, add64, sub64, ◌==◌, string_eq, int_eq, nat_eq, if◌then◌else◌,
}
use stark8s.Graph.{PartitioningMode, Feedback}
use stark8s.Coordinator.Api.{Record, SegmentAnnouncement, task_eq}
use stark8s.Coordinator.State.{Segment, Channel, Coordinator, write_cell}
use stark8s.Coordinator.Names.{segment_key}
use stark8s.Coordinator.Channels.{partitions, broadcast, enqueue}
use stark8s.Coordinator.Settle.{mark_released}

-- `durableHolder`
unfoldable pub durable_holder : String → Bool
durable_holder holder = starts_with holder "http://" || starts_with holder "https://"

-- The append id of an announcement that carries none.
abbrev pub append_id_of : SegmentAnnouncement → String
append_id_of a = if a.append_id == "" then segment_key a.holder a.id else a.append_id

-- `sameAppend`: whether an announcement repeats one that was committed.
unfoldable pub same_append : Segment → SegmentAnnouncement → String → Bool
same_append s a channel =
    let producer = if a.producer == "" then s.op else a.producer in
    s.id == a.id
    && s.holder == a.holder
    && s.producer == producer
    && s.channel == channel
    && s.part == a.partition
    && s.epoch == a.epoch
    && s.records == a.records
    && s.bytes == a.bytes
    && (if s.durable
        then a.durable || durable_holder a.holder
        else not (a.durable || durable_holder a.holder))
    && task_eq s.task a.task

-- The partition under which the history keeps a segment.
abbrev pub history_partition : Channel → Segment → ℕ
history_partition c s = if broadcast c then 0 else pos_part s.part

abbrev pub next_offset : Channel → ℕ → ℕ
next_offset c p = get_or c.history_base p 0 + length (get_or c.history p [])

abbrev pub is_beyond_bound : Option Feedback → Segment → Bool
is_beyond_bound none s = false
is_beyond_bound (some f) s = leb_ℤ f.max_epochs s.epoch

-- The segment as a new entry of the indexes and of the history.
unfoldable pub record_segment : Channel → Segment → Channel
record_segment c s =
    let p = history_partition c s in
    let s' = record s { offset = next_offset c p } in
    record c {
      heap = write_cell c.heap c.fresh s';
      fresh = suc c.fresh;
      index = insert c.index (segment_key s.holder s.id) c.fresh;
      append_ids = insert c.append_ids s.append_id c.fresh;
      history = set c.history p (get_or c.history p [] ++ c.fresh ∷ []);
      produced = add64 c.produced s.records;
    }

-- Where the new segment goes: dropped beyond the bound of the loop, held for a later epoch, or
-- pending.
unfoldable pub place_segment : Channel → ℕ → Channel
unfolding enqueue
place_segment c p =
    let s = c.heap p in
    if is_beyond_bound c.spec.feedback s
    then mark_released (record c { produced = sub64 c.produced s.records }) p
    else if c.finite_epochs && ltb_ℤ c.epoch s.epoch
    then record c { held = c.held ++ p ∷ [] }
    else enqueue c p

abbrev pub with_append_id : Segment → Segment
with_append_id s =
    if s.append_id == "" then record s { append_id = segment_key s.producer s.id } else s

-- `index`
unfoldable pub index_segment : Channel → Segment → Channel
index_segment c s =
    if has c.index (segment_key s.holder s.id)
    then c
    else place_segment (record_segment c (with_append_id s)) c.fresh

-- `mayProduce`
abbrev diverts_to : String → String → Channel → Bool
diverts_to name op_name other = elim other.spec.feedback [
  | none ↦ false
  | some f ↦ f.overflow == name && other.spec.from == op_name
]

unfoldable pub may_produce : Coordinator → Channel → String → Bool
may_produce co c op_name =
    c.spec.from == ""
    || c.spec.from == op_name
    || any (diverts_to c.spec.name op_name) (values co.channels)

-- The UTF-8 bytes of a character, since Go hashes the bytes of a string.
abbrev pub utf8 : ℕ → List ℕ
utf8 n =
    if ltb n 0x80
    then n ∷ []
    else if ltb n 0x800
    then (0xc0 + n / 64) ∷ (0x80 + n % 64) ∷ []
    else if ltb n 0x10000
    then (0xe0 + n / 4096) ∷ (0x80 + n / 64 % 64) ∷ (0x80 + n % 64) ∷ []
    else (0xf0 + n / 262144) ∷ (0x80 + n / 4096 % 64) ∷ (0x80 + n / 64 % 64) ∷ (0x80 + n % 64) ∷ []

unfoldable pub bytes_of : String → List ℕ
bytes_of String.[] = []
bytes_of (String.◌∷◌ c s) = utf8 (code c) ++ bytes_of s

-- `hash/fnv`'s New32a: 32-bit FNV-1a.
abbrev pub fnv_step : ℕ → ℕ → ℕ
fnv_step h b = bit_xor h b * 16777619 % 2 ^ 32

unfoldable pub fnv32a : String → ℕ
unfolding bytes_of
fnv32a s = foldl fnv_step 2166136261 (bytes_of s)

-- `HashPartition`; the source converts the count to uint32.
unfoldable pub hash_partition : String → ℕ → ℕ
unfolding fnv32a
hash_partition key n = fnv32a key % (n % 2 ^ 32)

-- `partitionOf`, with the channel whose rotation it may advance.
abbrev partition_by : PartitioningMode → Channel → Record → Channel × ℕ
partition_by PartitioningMode.broadcast c r = (c, 0)
partition_by PartitioningMode.hash c r = (c, hash_partition r.key (partitions c))
partition_by _ c r = (record c { rr = add64 c.rr 1 }, c.rr % partitions c)

unfoldable pub partition_of : Channel → Record → Channel × ℕ
unfolding hash_partition
partition_of c r = partition_by c.spec.partitioning.mode c r
