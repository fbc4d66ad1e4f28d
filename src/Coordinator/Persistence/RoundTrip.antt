-- ===== src/Coordinator/Persistence/RoundTrip.antt =====
-- pkg/coordinator/persistence.go: `restore` after `snapshot`, for the segments of a channel.
use stark8s.Prelude.{
  true, ◌⊎◌, Option-cases, values, if_true, if_false, sym, ℕ, String, false, not, Option, none,
  some, List, [], ◌∷◌, map, All, Map, lookup, map_values, ◌==◌, ==-refl, string_eq, is_empty, ◌≡◌,
  ◌≢◌, refl, ap, ◌∙◌, arith, Bool-cases, inl, inr,
}
use stark8s.Coordinator.State.{Segment, Channel}
use stark8s.Coordinator.Names.{segment_key}
use stark8s.Coordinator.Persistence.Found.{
  AreFiled, IsFound, restore_segments-IsFound, restore_segments-aliases, restore_segments-lookup_ne,
}
use stark8s.Coordinator.Persistence.{
  Restored, append_id_at, snapshot_channel, restore_segments, nothing_restored, or_empty,
  partitions_of, drop_aliases, resolve, restore_channel,
}

abbrev pub segment_at : (ℕ → Segment) → Option ℕ → Option Segment
segment_at heap none = none
segment_at heap (some p) = some (heap p)

-- The segment of a pointer is found under its append id.
abbrev pub IsKnown : Channel → ℕ → Type 0
IsKnown c p = lookup c.append_ids (append_id_at c p) ≡ some p

pub lookup-map_values :
    (f : ℕ → Segment) (m : Map String ℕ) (k : String) (p : ℕ)
    → lookup m k ≡ some p
    → lookup (map_values (λ i q. f q) m) k ≡ some (f p)
unfolding lookup
lookup-map_values f [] k p h = absurd (ground (arith, h))
lookup-map_values f ((j, q) ∷ m) k p h = ground (arith, h, lookup-map_values f m k p)

-- What is restored from the segments of a channel.
abbrev pub restored_from : Channel → Restored
restored_from c =
    let pc = snapshot_channel c in
    restore_segments (not pc.append_index) pc.all pc.segments nothing_restored

-- A known segment is restored.
restored_from-IsFound :
    (c : Channel)
    → AreFiled (snapshot_channel c).segments
    → (k : String) (p : ℕ) → lookup c.append_ids k ≡ some p
    → IsFound (restored_from c) k (c.heap p)
unfolding snapshot_channel
restored_from-IsFound c f k p h =
    restore_segments-IsFound false (map (append_id_at c) (values c.index)) _ nothing_restored k
      (c.heap p) f (lookup-map_values c.heap c.append_ids k p h)

resolve-some :
    (ids : Map String ℕ) (k : String) (ks : List String) (p : ℕ)
    → lookup ids k ≡ some p
    → resolve ids (k ∷ ks) ≡ p ∷ resolve ids ks
unfolding resolve
resolve-some ids k ks p h = rw (resolve, h) refl

-- A list of pointers that are known, through their append ids.
map-resolve :
    (c : Channel) (r : Restored) (ps : List ℕ)
    → ((k : String) (p : ℕ) → lookup c.append_ids k ≡ some p → IsFound r k (c.heap p))
    → All (IsKnown c) ps
    → map r.heap (resolve r.append_ids (map (append_id_at c) ps)) ≡ map c.heap ps
unfolding resolve
map-resolve c r [] found h = refl
map-resolve c r (p ∷ ps) found h =
    let q = found (append_id_at c p) p h.0 in
    ap (map r.heap) (resolve-some r.append_ids (append_id_at c p) (map (append_id_at c) ps) q.0 q.1)
    ∙ ap (λ s. s ∷ map r.heap (resolve r.append_ids (map (append_id_at c) ps))) q.2
    ∙ ap (λ ss. c.heap p ∷ ss) (map-resolve c r ps found h.1)

map-map-resolve :
    (c : Channel) (r : Restored) (qs : List (List ℕ))
    → ((k : String) (p : ℕ) → lookup c.append_ids k ≡ some p → IsFound r k (c.heap p))
    → All (All (IsKnown c)) qs
    → map (map r.heap) (map (resolve r.append_ids) (map (map (append_id_at c)) qs))
      ≡ map (map c.heap) qs
map-map-resolve c r [] found h = refl
map-map-resolve c r (q ∷ qs) found h =
    ap (λ ss. ss ∷ map (map r.heap) (map (resolve r.append_ids) (map (map (append_id_at c)) qs)))
      (map-resolve c r q found h.0)
    ∙ ap (λ ss. map c.heap q ∷ ss) (map-map-resolve c r qs found h.1)

pub or_empty-some {ℓ} :
    {A : Type ℓ} (qs : List A) (n : ℕ) (a : A) → is_empty qs ≡ false → or_empty qs n a ≡ qs
or_empty-some [] n a h = absurd (ground (arith, h))
or_empty-some (q ∷ qs) n a h = refl

resolve-nonempty :
    (ids : Map String ℕ) (ks : List (List String))
    → is_empty ks ≡ false
    → is_empty (map (resolve ids) ks) ≡ false
resolve-nonempty ids [] h = h
resolve-nonempty ids (k ∷ ks) h = refl

ids-nonempty :
    (c : Channel) (qs : List (List ℕ))
    → is_empty qs ≡ false
    → is_empty (map (map (append_id_at c)) qs) ≡ false
ids-nonempty c [] h = h
ids-nonempty c (q ∷ qs) h = refl

-- A segment is known, and its key is that of its holder.
abbrev pub IsAt : Channel → String → ℕ → Type 0
IsAt c k p = IsKnown c p × (segment_key (c.heap p).holder (c.heap p).id ≡ k)

-- The segments that a channel keeps are known, and it has a history per partition. The index and the
-- deliveries in flight have their segments under the keys of their holders, each key once; those in
-- flight are the segments that are delivered.
pub record IsPersistable (c : Channel) : Type 0 where
  pub filed : AreFiled (snapshot_channel c).segments
  pub queues : All (All (IsKnown c)) c.queues
  pub log : All (IsKnown c) c.log
  pub held : All (IsKnown c) c.held
  pub history : All (All (IsKnown c)) c.history
  pub partitioned : is_empty c.history ≡ false
  pub based : is_empty c.history_base ≡ false
  pub indexed : All (λ (e : String × ℕ). (lookup c.index e.0 ≡ some e.1) × IsAt c e.0 e.1) c.index
  pub inflight :
      All
        (λ (e : String × ℕ). (is_empty (c.heap e.1).delivered ≡ false) × IsAt c e.0 e.1)
        c.inflight
  pub delivered :
      All
        (λ (e : String × ℕ).
          (is_empty (c.heap e.1).delivered ≡ true)
          ⊎ (lookup c.inflight (segment_key (c.heap e.1).holder (c.heap e.1).id) ≡ some e.1))
        c.append_ids

-- The segment of an append id.
abbrev pub segment_of : Channel → String → Option Segment
segment_of c k = segment_at c.heap (lookup c.append_ids k)

lookup-unknown :
    (f : ℕ → Segment) (m : Map String ℕ) (k : String)
    → lookup m k ≡ none
    → All (λ (e : String × Segment). e.0 ≢ k) (map_values (λ i q. f q) m)
unfolding lookup
lookup-unknown f [] k h = tt
lookup-unknown f ((j, q) ∷ m) k h = elim (Bool-cases (j == k)) [
  | inl same ↦ absurd (ground (arith, sym (if_true (j == k) (some q) (lookup m k) same) ∙ h))
  | inr other ↦ (
    λ e. absurd (ground (arith, sym other ∙ ap (λ i. i == k) e ∙ ==-refl k)),
    lookup-unknown f m k (sym (if_false (j == k) (some q) (lookup m k) other) ∙ h),
  )
]

restored_from-aliases :
    (c : Channel) → AreFiled (snapshot_channel c).segments → (restored_from c).aliases ≡ []
unfolding snapshot_channel
restored_from-aliases c f =
    restore_segments-aliases false (map (append_id_at c) (values c.index)) _ nothing_restored f

restored_from-unknown :
    (c : Channel) (k : String)
    → AreFiled (snapshot_channel c).segments
    → lookup c.append_ids k ≡ none
    → lookup (restored_from c).append_ids k ≡ none
unfolding snapshot_channel lookup
restored_from-unknown c k f h =
    restore_segments-lookup_ne false (map (append_id_at c) (values c.index)) _ nothing_restored k f
      (lookup-unknown c.heap c.append_ids k h)

restored_from-segment :
    (c : Channel) (k : String)
    → AreFiled (snapshot_channel c).segments
    → segment_at (restored_from c).heap (lookup (restored_from c).append_ids k) ≡ segment_of c k
restored_from-segment c k f = elim (Option-cases (lookup c.append_ids k)) [
  | inl h ↦
      ap (segment_at (restored_from c).heap) (restored_from-unknown c k f h)
      ∙ sym (ap (segment_at c.heap) h)
  | inr (p, h) ↦
      let q = restored_from-IsFound c f k p h in
      ap (segment_at (restored_from c).heap) q.1 ∙ ap some q.2 ∙ sym (ap (segment_at c.heap) h)
]

-- A channel whose segments are filed under their own append ids, each used once, with the pointers of
-- its queues, log, held segments and history among them, comes back from its snapshot with the same
-- segments in the same order in each, and with the same segment, or none, under each append id.
pub restore_channel-snapshot_channel :
    (c : Channel) (k : String)
    → IsPersistable c
    → let c' = restore_channel (snapshot_channel c) in
      (map (map c'.heap) c'.queues ≡ map (map c.heap) c.queues)
      × (map c'.heap c'.log ≡ map c.heap c.log)
      × (map c'.heap c'.held ≡ map c.heap c.held)
      × (map (map c'.heap) c'.history ≡ map (map c.heap) c.history)
      × (segment_of c' k ≡ segment_of c k)
unfolding restore_channel snapshot_channel
restore_channel-snapshot_channel c k known =
    let found = restored_from-IsFound c known.filed in
    let r = restored_from c in
    (
      map-map-resolve c r c.queues found known.queues,
      map-resolve c r c.log found known.log,
      map-resolve c r c.held found known.held,
      ap (map (map r.heap)) (
            or_empty-some _ (partitions_of c.spec) []
              (resolve-nonempty r.append_ids _ (ids-nonempty c c.history known.partitioned)))
          ∙ map-map-resolve c r c.history found known.history,
      ap (λ as'. segment_at r.heap (lookup (drop_aliases as' r.append_ids) k))
            (restored_from-aliases c known.filed)
          ∙ restored_from-segment c k known.filed,
    )
