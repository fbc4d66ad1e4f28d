-- ===== src/Coordinator/Persistence/Indexed.antt =====
-- pkg/coordinator/persistence.go: the index and the deliveries in flight of a channel that is restored.
use stark8s.Prelude.{
  Option-cases, values, some-inj, if_true, if_false, sym, subst, ℕ, String, Bool, true, false, not,
  ◌||◌, none, some, List, [], ◌∷◌, map, All, Map, lookup, map_values, contains, ◌==◌, ==-refl,
  eq_of_==, string_eq, is_empty, ◌≡◌, ◌≢◌, ◌⊎◌, refl, ap, ◌∙◌, arith, Bool-cases, inl, inr,
}
use stark8s.Coordinator.State.{Segment, Channel}
use stark8s.Coordinator.Persistence.Found.{AreFiled}
use stark8s.Coordinator.Persistence.{
  Restored, append_id_at, snapshot_channel, place_restored, nothing_restored, add_if,
}
use stark8s.Coordinator.Persistence.RoundTrip.{
  IsAt, IsPersistable, segment_at, restored_from, lookup-map_values,
}
use stark8s.Coordinator.Persistence.Keyed.{holder_key, keyed-unknown, keyed-IsKept}

pub lookup-All :
    (P : String × ℕ → Type 0) (m : Map String ℕ) (k : String) (p : ℕ)
    → All P m
    → lookup m k ≡ some p
    → P (k, p)
unfolding lookup
lookup-All P [] k p h e = absurd (ground (arith, e))
lookup-All P ((j, q) ∷ m) k p h e = elim (Bool-cases (j == k)) [
  | inl same ↦
      subst P
        (ap (λ i. (i, q)) (eq_of_== j k same)
          ∙ ap (λ i. (k, i)) (some-inj (sym (if_true (j == k) _ _ same) ∙ e)))
        h.0
  | inr other ↦ lookup-All P m k p h.1 (sym (if_false (j == k) _ _ other) ∙ e)
]

lookup-AreFiled :
    (segments : Map String Segment) (k : String) (s : Segment)
    → AreFiled segments
    → lookup segments k ≡ some s
    → s.append_id ≡ k
unfolding lookup
lookup-AreFiled [] k s f e = absurd (ground (arith, e))
lookup-AreFiled ((j, t) ∷ segments) k s f e = elim (Bool-cases (j == k)) [
  | inl same ↦
      ap (λ u. u.append_id) (sym (some-inj (sym (if_true (j == k) _ _ same) ∙ e)))
      ∙ f.0.0
      ∙ eq_of_== j k same
  | inr other ↦ lookup-AreFiled segments k s f.2 (sym (if_false (j == k) _ _ other) ∙ e)
]

-- An append id that no segment has is looked up in vain.
lookup-apart :
    (f : ℕ → Segment) (m : Map String ℕ) (k : String) (p : ℕ)
    → All (λ (e : String × Segment). e.0 ≢ k) (map_values (λ i q. f q) m)
    → lookup m k ≢ some p
unfolding lookup
lookup-apart f [] k p n e = ground (arith, e)
lookup-apart f ((j, q) ∷ m) k p n e = elim (Bool-cases (j == k)) [
  | inl same ↦ n.0 (eq_of_== j k same)
  | inr other ↦ lookup-apart f m k p n.1 (sym (if_false (j == k) _ _ other) ∙ e)
]

-- What holds of each known segment holds of all.
known-All :
    (P : String × Segment → Type 0) (f : ℕ → Segment) (m : Map String ℕ)
    → AreFiled (map_values (λ i q. f q) m)
    → ((k : String) (p : ℕ) → lookup m k ≡ some p → P (k, f p))
    → All P (map_values (λ i q. f q) m)
unfolding lookup
known-All P f [] filed h = tt
known-All P f ((j, q) ∷ m) filed h =
    (h j q (if_true (j == j) _ _ (==-refl j)), known-All P f m filed.2 later)
  where
    later : (k : String) (p : ℕ) → lookup m k ≡ some p → P (k, f p)
    later k p e = elim (Bool-cases (j == k)) [
      | inl same ↦ absurd (lookup-apart f m j p filed.1 (ap (lookup m) (eq_of_== j k same) ∙ e))
      | inr other ↦ h k p (if_false (j == k) _ _ other ∙ e)
    ]

-- A map of a channel that restoring builds again: it has the chosen segments under their keys.
module _ (c : Channel) (filed : AreFiled (snapshot_channel c).segments) (m : Map String ℕ)
    (get : Restored → Map String ℕ) (chosen : String → Segment → Bool)
    (placed : (k : String) (s : Segment) (r : Restored)
      → get (place_restored false (map (append_id_at c) (values c.index)) k s r)
        ≡ add_if (chosen k s) (get r) (holder_key s) r.fresh)
    (blank : get nothing_restored ≡ [])
    (sound : (k : String) (p : ℕ)
      → lookup m k ≡ some p
      → (chosen (append_id_at c p) (c.heap p) ≡ true) × IsAt c k p)
    (complete : (a : String) (p : ℕ)
      → lookup c.append_ids a ≡ some p
      → chosen a (c.heap p) ≡ true
      → lookup m (holder_key (c.heap p)) ≡ some p) where
  abbrev indexed_ids : List String
  indexed_ids = map (append_id_at c) (values c.index)

  absent_key :
      (k : String)
      → lookup m k ≡ none
      → (a : String) (p : ℕ) → lookup c.append_ids a ≡ some p
      → (chosen a (c.heap p) ≡ false) ⊎ (holder_key (c.heap p) ≢ k)
  absent_key k n a p e = elim (Bool-cases (chosen a (c.heap p))) [
    | inl t ↦
        inr (λ same. absurd (ground (arith, sym n ∙ ap (lookup m) (sym same) ∙ complete a p e t)))
    | inr t ↦ inl t
  ]

  alone_key :
      (k : String) (p : ℕ)
      → lookup m k ≡ some p
      → (b : String) (q : ℕ) → lookup c.append_ids b ≡ some q
      → (b ≡ append_id_at c p) ⊎ ((chosen b (c.heap q) ≡ false) ⊎ (holder_key (c.heap q) ≢ k))
  unfolding snapshot_channel
  alone_key k p h b q e = elim (Bool-cases (chosen b (c.heap q))) [
    | inr t ↦ inr (inl t)
    | inl t ↦ elim (Bool-cases (holder_key (c.heap q) == k)) [
      | inr t' ↦
          inr (inr (λ same. absurd (ground (arith, sym t' ∙ ap (λ i. i == k) same ∙ ==-refl k))))
      | inl t' ↦
          let found = complete b q e t in
          let same : q ≡ p =
            some-inj (sym found ∙ ap (lookup m) (eq_of_== (holder_key (c.heap q)) k t') ∙ h) in
          inl (
            sym (lookup-AreFiled _ b (c.heap q) filed (lookup-map_values c.heap c.append_ids b q e))
            ∙ ap (append_id_at c) same)
    ]
  ]

  -- The same segment, or none, is restored under each key.
  pub restored_from-keyed :
      (k : String)
      → segment_at (restored_from c).heap (lookup (get (restored_from c)) k)
        ≡ segment_at c.heap (lookup m k)
  unfolding snapshot_channel lookup
  restored_from-keyed k = elim (Option-cases (lookup m k)) [
    | inl n ↦
        ap (segment_at (restored_from c).heap) (
          keyed-unknown indexed_ids get chosen placed _ nothing_restored k filed
            (known-All _ c.heap c.append_ids filed (absent_key k n))
          ∙ ap (λ m'. lookup m' k) blank)
        ∙ sym (ap (segment_at c.heap) n)
    | inr (p, h) ↦
        let at = sound k p h in
        let q =
          keyed-IsKept indexed_ids get chosen placed _ nothing_restored (append_id_at c p)
            (c.heap p) filed (lookup-map_values c.heap c.append_ids (append_id_at c p) p at.1.0)
            at.0
            (known-All _ c.heap c.append_ids filed
              (alone_key (holder_key (c.heap p)) p (ap (lookup m) at.1.1 ∙ h))) in
        ap (λ i. segment_at (restored_from c).heap (lookup (get (restored_from c)) i)) (sym at.1.1)
        ∙ ap (segment_at (restored_from c).heap) q.1
        ∙ ap some q.2
        ∙ sym (ap (segment_at c.heap) h)
  ]

contains-indexed :
    (c : Channel) (m : Map String ℕ) (k : String) (p : ℕ)
    → lookup m k ≡ some p
    → contains (map (append_id_at c) (values m)) (append_id_at c p) ≡ true
unfolding lookup
contains-indexed c [] k p e = absurd (ground (arith, e))
contains-indexed c ((j, q) ∷ m) k p e = elim (Bool-cases (j == k)) [
  | inl same ↦ rw (some-inj (sym (if_true (j == k) _ _ same) ∙ e), ==-refl (append_id_at c p)) refl
  | inr other ↦ ground (arith, contains-indexed c m k p (sym (if_false (j == k) _ _ other) ∙ e))
]

contained :
    (c : Channel) (P : String × ℕ → Type 0) (m : Map String ℕ) (a : String)
    → All P m
    → contains (map (append_id_at c) (values m)) a ≡ true
    → (e : String × ℕ) × P e × (append_id_at c e.1 ≡ a)
contained c P [] a h t = absurd (ground (arith, t))
contained c P ((j, q) ∷ m) a h t = elim (Bool-cases (append_id_at c q == a)) [
  | inl same ↦ ((j, q), h.0, eq_of_== (append_id_at c q) a same)
  | inr other ↦ contained c P m a h.1 (ground arith)
]

pub restored_from-index :
    (c : Channel) (k : String)
    → IsPersistable c
    → segment_at (restored_from c).heap (lookup (restored_from c).index k)
      ≡ segment_at c.heap (lookup c.index k)
unfolding snapshot_channel
restored_from-index c k h =
    restored_from-keyed c h.filed c.index (λ r. r.index)
      (λ a s. false || contains ids a || contains ids s.append_id) (λ j s r. refl) refl sound
      complete k
  where
    ids : List String
    ids = map (append_id_at c) (values c.index)

    twice : (b : Bool) → (false || b || b) ≡ true → b ≡ true
    twice b t = ground arith

    sound :
        (j : String) (p : ℕ)
        → lookup c.index j ≡ some p
        → ((false || contains ids (append_id_at c p) || contains ids (c.heap p).append_id) ≡ true)
          × IsAt c j p
    sound j p e =
        (ground (arith, contains-indexed c c.index j p e), (lookup-All _ c.index j p h.indexed e).1)

    complete :
        (a : String) (p : ℕ)
        → lookup c.append_ids a ≡ some p
        → (false || contains ids a || contains ids (c.heap p).append_id) ≡ true
        → lookup c.index (holder_key (c.heap p)) ≡ some p
    complete a p e t =
        let id : append_id_at c p ≡ a =
          lookup-AreFiled _ a (c.heap p) h.filed (lookup-map_values c.heap c.append_ids a p e) in
        let q = contained c _ c.index (append_id_at c p) h.indexed (
          twice (contains ids (append_id_at c p)) (
            subst (λ i. (false || contains ids i || contains ids (c.heap p).append_id) ≡ true)
              (sym id) t)) in
        let same : q.0.1 ≡ p = some-inj (sym q.1.1.0 ∙ ap (lookup c.append_ids) (q.2 ∙ id) ∙ e) in
        ap (lookup c.index) (ap (λ i. holder_key (c.heap i)) (sym same) ∙ q.1.1.1)
        ∙ q.1.0
        ∙ ap some same

pub restored_from-inflight :
    (c : Channel) (k : String)
    → IsPersistable c
    → segment_at (restored_from c).heap (lookup (restored_from c).inflight k)
      ≡ segment_at c.heap (lookup c.inflight k)
unfolding snapshot_channel
restored_from-inflight c k h =
    restored_from-keyed c h.filed c.inflight (λ r. r.inflight) (λ a s. not (is_empty s.delivered))
      (λ j s r. refl) refl sound complete k
  where
    sound :
        (j : String) (p : ℕ)
        → lookup c.inflight j ≡ some p
        → (not (is_empty (c.heap p).delivered) ≡ true) × IsAt c j p
    sound j p e = let q = lookup-All _ c.inflight j p h.inflight e in (ap not q.0, q.1)

    complete :
        (a : String) (p : ℕ)
        → lookup c.append_ids a ≡ some p
        → not (is_empty (c.heap p).delivered) ≡ true
        → lookup c.inflight (holder_key (c.heap p)) ≡ some p
    complete a p e t = elim (lookup-All _ c.append_ids a p h.delivered e) [
      | inl idle ↦ absurd (ground (arith, t, idle))
      | inr found ↦ found
    ]
