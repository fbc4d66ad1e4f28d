-- ===== src/Coordinator/Produce/Retry.antt =====
-- A retried announcement is recognised by its append id (pkg/coordinator/coordinator.go).
use Prim.Native.String.append
use stark8s.Prelude.{
  ℕ, String, Bool, true, false, not, ◌&&◌, ◌||◌, some, lookup, has, lookup-insert_self, Bool-cases,
  ==-refl, ◌==◌, string_eq, nat_eq, int_eq, if◌then◌else◌, ◌⊎◌, inl, inr, ◌≢◌, ◌≡◌, refl, ◌∙◌,
  arith, add64, eq_of_==, ==-ne, ne_of_==,
}
use stark8s.Coordinator.Api.{SegmentAnnouncement, TaskId, task_eq}
use stark8s.Coordinator.State.{Segment, Channel, ok}
use stark8s.Coordinator.Names.{segment_key}
use stark8s.Coordinator.Produce.{announced_segment, announce_one, check_announcement}
use stark8s.Coordinator.Segments.{
  append_id_of, same_append, index_segment, record_segment, place_segment,
}

-- A segment key holds a slash.
segment_key-ne : (holder id : String) → segment_key holder id ≢ ""
unfolding segment_key
segment_key-ne String.[] id e = let p = rw append.nil at e in let q = rw append.cons at p in cc q
segment_key-ne (String.◌∷◌ c s) id e = let p = simp append.cons at e in cc p

task_eq_refl : (t : TaskId) → task_eq t t ≡ true
unfolding task_eq
task_eq_refl t =
    ground (arith, ==-refl t.channel, ==-refl t.partition, ==-refl t.epoch, ==-refl t.attempt)

repeats_itself : (d : Bool) → (if d then d else not d) ≡ true
repeats_itself true = refl
repeats_itself false = refl

-- The segment that an announcement describes repeats that announcement.
same_append-announced :
    (c : Channel) (name op_name : String) (a : SegmentAnnouncement)
    → (op_name ≡ "" → c.spec.from ≡ "")
    → same_append (announced_segment c name op_name a) a name ≡ true
unfolding same_append announced_segment
same_append-announced c name op_name a h = elim (Bool-cases (a.producer == "")) [
  | inr named ↦
      rw named (simp (==-refl, task_eq_refl, repeats_itself) (ground (arith, ==-refl a.producer)))
  | inl unnamed ↦ elim (Bool-cases (op_name == "")) [
    | inr op_named ↦
        rw (unnamed, op_named)
          (simp (==-refl, task_eq_refl, repeats_itself) (ground (arith, ==-refl op_name)))
    | inl external ↦
        let e = eq_of_== op_name "" external in
        rw (unnamed, external, h e, e) (simp (==-refl, task_eq_refl, repeats_itself))
  ]
]

-- Placing a segment may release it, and changes nothing else in it.
placed_segment :
    (c : Channel) (p : ℕ)
    → ((place_segment c p).heap p ≡ c.heap p)
      ⊎ ((place_segment c p).heap p ≡ record (c.heap p) { released = true })
unfolding place_segment
placed_segment c p = ground arith

placed_same :
    (c : Channel) (p : ℕ) (a : SegmentAnnouncement) (name : String)
    → same_append ((place_segment c p).heap p) a name ≡ same_append (c.heap p) a name
unfolding same_append
placed_same c p a name = elim (placed_segment c p) [ inl e ↦ rw e refl | inr e ↦ rw e refl ]

placed_receipts : (c : Channel) (p : ℕ) → (place_segment c p).append_ids ≡ c.append_ids
unfolding place_segment
placed_receipts c p = ground arith

recorded_receipt :
    (c : Channel) (s : Segment) → lookup (record_segment c s).append_ids s.append_id ≡ some c.fresh
unfolding record_segment
recorded_receipt c s = lookup-insert_self c.append_ids s.append_id c.fresh

recorded_same :
    (c : Channel) (s : Segment) (a : SegmentAnnouncement) (name : String)
    → same_append ((record_segment c s).heap c.fresh) a name ≡ same_append s a name
unfolding record_segment same_append
recorded_same c s a name = ground arith

-- After indexing under a new key and a receipt of its own, the segment is found by its receipt.
index_segment-receipt :
    (c : Channel) (s : Segment) (a : SegmentAnnouncement) (name : String)
    → has c.index (segment_key s.holder s.id) ≡ false
    → s.append_id ≢ ""
    → let c' = index_segment c s in
      (lookup c'.append_ids s.append_id ≡ some c.fresh)
      × (same_append (c'.heap c.fresh) a name ≡ same_append s a name)
unfolding index_segment
index_segment-receipt c s a name new named =
    rw (new, ==-ne s.append_id "" named)
      (
        rw (placed_receipts (record_segment c s) c.fresh) (recorded_receipt c s),
        placed_same (record_segment c s) c.fresh a name ∙ recorded_same c s a name,
      )

append_id_of-ne : (a : SegmentAnnouncement) → append_id_of a ≢ ""
append_id_of-ne a e = elim (Bool-cases (a.append_id == "")) [
  | inl none_given ↦ segment_key-ne a.holder a.id (rw none_given at e)
  | inr given ↦ ne_of_== a.append_id "" given (rw given at e)
]

announce_one-new :
    (name op_name : String) (c : Channel) (a : SegmentAnnouncement)
    → a.id ≢ ""
    → has c.append_ids (append_id_of a) ≡ false
    → announce_one name op_name c a
      ≡ index_segment
          (record c { overflowed = add64 c.overflowed a.overflowed })
          (announced_segment c name op_name a)
unfolding announce_one
announce_one-new name op_name c a id unseen = rw (==-ne a.id "" id, unseen) refl

announce_one-seen :
    (name op_name : String) (c : Channel) (a : SegmentAnnouncement) (p : ℕ)
    → a.id ≢ ""
    → lookup c.append_ids (append_id_of a) ≡ some p
    → announce_one name op_name c a ≡ c
unfolding announce_one
announce_one-seen name op_name c a p id found = rw (==-ne a.id "" id, found) refl

check_announcement-seen :
    (c : Channel) (name : String) (a : SegmentAnnouncement) (p : ℕ)
    → a.id ≢ ""
    → (a.channel == "" || a.channel == name) ≡ true
    → lookup c.append_ids (append_id_of a) ≡ some p
    → same_append (c.heap p) a name ≡ true
    → check_announcement c name a ≡ ok false
unfolding check_announcement
check_announcement-seen c name a p id on_channel found same =
    rw (==-ne a.id "" id, on_this (a.channel == "") (a.channel == name) on_channel, found, same)
      refl
  where
    on_this : (x y : Bool) → (x || y) ≡ true → (not x && not y) ≡ false
    on_this x y h = ground arith

announced_receipt :
    (name op_name : String) (c d : Channel) (a : SegmentAnnouncement)
    → (op_name ≡ "" → c.spec.from ≡ "")
    → has d.index (segment_key a.holder a.id) ≡ false
    → let c' = index_segment d (announced_segment c name op_name a) in
      (lookup c'.append_ids (append_id_of a) ≡ some d.fresh)
      × (same_append (c'.heap d.fresh) a name ≡ true)
unfolding announced_segment
announced_receipt name op_name c d a source unkeyed =
    let s = announced_segment c name op_name a in
    let (found, same) = index_segment-receipt d s a name unkeyed (append_id_of-ne a) in
    (found, same ∙ same_append-announced c name op_name a source)

-- A retry is absorbed. Once a segment has been indexed under a receipt and a key that were new, the
-- same announcement is no longer new and no conflict, and announcing it again changes nothing. A
-- producer that is left out stands for the announcing operation, or, where the call names none, for
-- the channel's own producer, which then has to be external.
pub announce_one-retry :
    (name op_name : String) (c : Channel) (a : SegmentAnnouncement)
    → a.id ≢ ""
    → (a.channel == "" || a.channel == name) ≡ true
    → (op_name ≡ "" → c.spec.from ≡ "")
    → has c.append_ids (append_id_of a) ≡ false
    → has c.index (segment_key a.holder a.id) ≡ false
    → let c' = announce_one name op_name c a in
      (check_announcement c' name a ≡ ok false) × (announce_one name op_name c' a ≡ c')
announce_one-retry name op_name c a id on_channel source unseen unkeyed =
    let (found, same) =
      announced_receipt name op_name c (record c { overflowed = add64 c.overflowed a.overflowed }) a
        source unkeyed in
    rw (announce_one-new name op_name c a id unseen) (
      check_announcement-seen _ name a c.fresh id on_channel found same,
      announce_one-seen name op_name _ a c.fresh id found,
    )
