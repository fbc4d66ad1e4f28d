-- ===== src/Coordinator/Delivery/Announced.antt =====
-- A batch that passes the checks of `AnnounceSession` in pkg/coordinator/coordinator.go is accounted for.
use stark8s.Prelude.{
  ℕ, ℤ, pos, negsuc, ◌<◌, pos_part, String, Bool, false, not, ◌&&◌, ◌||◌, List, [], ◌∷◌, All,
  length, lookup, has, is_some, foldl, ltb_ℤ, leb, add64, Bool-cases, Option-cases, ◌==◌, string_eq,
  inl, inr, ◌≡◌, refl, sym, subst, ap, ◌∙◌, arith,
}
use stark8s.Graph.{is_broadcast}
use stark8s.Coordinator.Api.{Error, SegmentAnnouncement}
use stark8s.Coordinator.State.{Channel, Result, ok, err}
use stark8s.Coordinator.Channels.{partitions, broadcast}
use stark8s.Coordinator.Segments.{append_id_of}
use stark8s.Coordinator.Produce.{
  check_new, check_announcement, check_all, either_new, announced_segment, announce_one,
  announce_all,
}
use stark8s.Coordinator.Delivery.{IsAccounted}
use stark8s.Coordinator.Delivery.Indexed.{index_segment-IsAccounted}
use stark8s.Coordinator.Delivery.Extended.{IsReady, Extends, index_segment-Extends}

abbrev diverted : Channel → SegmentAnnouncement → Channel
diverted c a = record c { overflowed = add64 c.overflowed a.overflowed }

diverted-IsAccounted :
    (c : Channel) (a : SegmentAnnouncement) → IsAccounted c → IsAccounted (diverted c a)
diverted-IsAccounted c a v = record {
  places = v.places;
  queued = v.queued;
  once = v.once;
  exclusive = v.exclusive;
}

announced-fields :
    (c : Channel) (name op_name : String) (a : SegmentAnnouncement)
    → ((announced_segment c name op_name a).part ≡ a.partition)
      × ((announced_segment c name op_name a).delivered ≡ [])
unfolding announced_segment
announced-fields c name op_name a = (refl, refl)

within :
    (c : Channel) (a : SegmentAnnouncement)
    → IsReady c a
    → (a.id == "") ≡ false
    → has c.append_ids (append_id_of a) ≡ false
    → pos_part a.partition < length c.queues
within c a (inl nothing) something unseen = absurd (ground (arith, sym nothing ∙ something))
within c a (inr (inl seen)) something unseen = absurd (ground (arith, sym seen ∙ unseen))
within c a (inr (inr range)) something unseen = range

-- One round of the second loop.
announce_one-IsAccounted :
    (name op_name : String) (c : Channel) (a : SegmentAnnouncement)
    → broadcast c ≡ false
    → IsReady c a
    → IsAccounted c
    → IsAccounted (announce_one name op_name c a) × Extends c (announce_one name op_name c a)
unfolding announce_one
announce_one-IsAccounted name op_name c a b ready v = elim (Bool-cases (a.id == "")) [
  | inl nothing ↦ rw nothing (
    diverted-IsAccounted c a v,
    record { receipts = λ k h. h; same_length = refl; same_spec = refl },
  )
  | inr something ↦ elim (Bool-cases (has c.append_ids (append_id_of a))) [
    | inl seen ↦
        rw (something, seen)
          (v, record { receipts = λ k h. h; same_length = refl; same_spec = refl })
    | inr unseen ↦
        let s = announced_segment c name op_name a in
        let t = index_segment-Extends (diverted c a) s in
        let (part, free) = announced-fields c name op_name a in
        let range : pos_part s.part < length c.queues =
          subst (λ n. pos_part n < length c.queues) (sym part)
            (within c a ready something unseen) in
        rw (something, unseen)
          (
            index_segment-IsAccounted (diverted c a) s b range free (diverted-IsAccounted c a v),
            record { receipts = t.receipts; same_length = t.same_length; same_spec = t.same_spec },
          )
  ]
]

IsReady-Extends :
    (c c' : Channel) (a : SegmentAnnouncement) → Extends c c' → IsReady c a → IsReady c' a
IsReady-Extends c c' a t (inl nothing) = inl nothing
IsReady-Extends c c' a t (inr (inl seen)) = inr (inl (t.receipts (append_id_of a) seen))
IsReady-Extends c c' a t (inr (inr range)) = inr (inr (omega (arith, range, t.same_length)))

All-Extends :
    (c c' : Channel) (as' : List SegmentAnnouncement)
    → Extends c c'
    → All (IsReady c) as'
    → All (IsReady c') as'
All-Extends c c' [] t h = tt
All-Extends c c' (a ∷ as') t h = (IsReady-Extends c c' a t h.0, All-Extends c c' as' t h.1)

announce_rounds-IsAccounted :
    (name op_name : String) (as' : List SegmentAnnouncement) (c : Channel)
    → broadcast c ≡ false
    → All (IsReady c) as'
    → IsAccounted c
    → IsAccounted (foldl (announce_one name op_name) c as')
announce_rounds-IsAccounted name op_name [] c b ready v = v
announce_rounds-IsAccounted name op_name (a ∷ as') c b ready v =
    let (v', t) = announce_one-IsAccounted name op_name c a b ready.0 v in
    announce_rounds-IsAccounted name op_name as' (announce_one name op_name c a)
      (ap (λ s. is_broadcast s.partitioning.mode) t.same_spec ∙ b)
      (All-Extends c (announce_one name op_name c a) as' t ready.1) v'

err_ne_ok : {e : Error} {b : Bool} → ◌≡◌ {A = Result Bool} (err e) (ok b) → ⊥
err_ne_ok p = cc

in_range : (p : ℤ) (n : ℕ) → (ltb_ℤ p (pos 0) || leb n (pos_part p)) ≡ false → pos_part p < n
in_range (pos p) n h = ground arith
in_range (negsuc p) n h = absurd (ground arith)

check_new-range :
    (c : Channel) (a : SegmentAnnouncement) (new : Bool)
    → broadcast c ≡ false
    → check_new c a ≡ ok new
    → pos_part a.partition < partitions c
check_new-range c a new b h = elim (Bool-cases c.sealed) [
  | inl shut ↦ absurd (err_ne_ok (rw shut at h))
  | inr still ↦ elim (Bool-cases (c.finite_epochs && ltb_ℤ a.epoch c.epoch)) [
    | inl behind ↦ absurd (err_ne_ok (rw (still, behind) at h))
    | inr current ↦
        elim (Bool-cases (ltb_ℤ a.partition (pos 0) || leb (partitions c) (pos_part a.partition))) [
          | inl outside ↦ absurd (err_ne_ok (rw (still, current, b, outside) at h))
          | inr inside ↦ in_range a.partition (partitions c) inside
        ]
  ]
]

check_announcement-IsReady :
    (c : Channel) (name : String) (a : SegmentAnnouncement) (new : Bool)
    → broadcast c ≡ false
    → length c.queues ≡ partitions c
    → check_announcement c name a ≡ ok new
    → IsReady c a
unfolding check_announcement
check_announcement-IsReady c name a new b wide h = elim (Bool-cases (a.id == "")) [
  | inl nothing ↦ inl nothing
  | inr something ↦ elim (Bool-cases (not (a.channel == "") && not (a.channel == name))) [
    | inl elsewhere ↦ absurd (err_ne_ok (rw (something, elsewhere) at h))
    | inr here ↦ elim (Option-cases (lookup c.append_ids (append_id_of a))) [
      | inr (p, seen) ↦ inr (inl (ap is_some seen))
      | inl unseen ↦
          inr (
            inr
              (omega (arith, wide, check_new-range c a new b (rw (something, here, unseen) at h))))
    ]
  ]
]

both_ok :
    (r r' : Result Bool) (new : Bool)
    → either_new r r' ≡ ok new
    → ((n : Bool) × (r ≡ ok n)) × ((n : Bool) × (r' ≡ ok n))
both_ok (err e) r' new h = absurd (err_ne_ok h)
both_ok (ok n) (err e) new h = absurd (err_ne_ok h)
both_ok (ok n) (ok n') new h = ((n, refl), (n', refl))

check_all-IsReady :
    (c : Channel) (name : String) (as' : List SegmentAnnouncement) (new : Bool)
    → broadcast c ≡ false
    → length c.queues ≡ partitions c
    → check_all c name as' ≡ ok new
    → All (IsReady c) as'
unfolding check_all
check_all-IsReady c name [] new b wide h = tt
check_all-IsReady c name (a ∷ as') new b wide h =
    let (first, rest) = both_ok (check_announcement c name a) (check_all c name as') new h in
    (
      check_announcement-IsReady c name a first.0 b wide first.1,
      check_all-IsReady c name as' rest.0 b wide rest.1,
    )

-- On a channel with as many queues as partitions, a whole batch of announcements that passes the
-- checks of the call leaves every segment accounted for, those of the batch included.
pub announce_all-IsAccounted :
    (name op_name : String) (as' : List SegmentAnnouncement) (c : Channel) (new : Bool)
    → broadcast c ≡ false
    → length c.queues ≡ partitions c
    → check_all c name as' ≡ ok new
    → IsAccounted c
    → IsAccounted (announce_all name op_name as' c)
unfolding announce_all
announce_all-IsAccounted name op_name as' c new b wide checked v =
    announce_rounds-IsAccounted name op_name as' c b
      (check_all-IsReady c name as' new b wide checked) v
