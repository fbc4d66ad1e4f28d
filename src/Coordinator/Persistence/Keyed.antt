-- ===== src/Coordinator/Persistence/Keyed.antt =====
-- pkg/coordinator/persistence.go: the maps of a channel that `restore` keys by the holders of segments.
use stark8s.Prelude.{
  some-inj, if_true, if_false, sym, subst, ℕ, String, Bool, true, false, some, List, [], ◌∷◌, All,
  Map, lookup, lookup-insert_self, lookup-insert_ne, ◌==◌, eq_of_==, string_eq, ◌≡◌, ◌≢◌, ◌⊎◌, refl,
  ap, ◌∙◌, arith, Bool-cases, inl, inr,
}
use stark8s.Coordinator.State.{Segment}
use stark8s.Coordinator.Names.{segment_key}
use stark8s.Coordinator.Delivery.{write_self}
use stark8s.Coordinator.Persistence.Found.{
  IsFiled, AreFiled, restore_segments-step, restore_segments-heap,
}
use stark8s.Coordinator.Persistence.{Restored, place_restored, restore_segments, add_if}

-- The key of a segment at its holder.
abbrev pub holder_key : Segment → String
holder_key s = segment_key s.holder s.id

-- A map that the loop over the segments builds: `chosen` says which segments are put in.
module _ (all : List String) (get : Restored → Map String ℕ) (chosen : String → Segment → Bool)
    (placed : (k : String) (s : Segment) (r : Restored)
      → get (place_restored false all k s r)
        ≡ add_if (chosen k s) (get r) (holder_key s) r.fresh) where
  -- Segments that are not chosen, or have another key, leave what is known of a key.
  pub keyed-unknown :
      (segments : Map String Segment) (r : Restored) (k : String)
      → AreFiled segments
      → All (λ (e : String × Segment). (chosen e.0 e.1 ≡ false) ⊎ (holder_key e.1 ≢ k)) segments
      → lookup (get (restore_segments false all segments r)) k ≡ lookup (get r) k
  unfolding restore_segments
  keyed-unknown [] r k f h = refl
  keyed-unknown ((j, s) ∷ segments) r k f h =
      ap (λ q. lookup (get q) k) (restore_segments-step false all j s segments r f.0)
      ∙ keyed-unknown segments (place_restored false all j s r) k f.2 h.1
      ∙ ap (λ m. lookup m k) (placed j s r)
      ∙ skipped h.0
    where
      skipped :
          (chosen j s ≡ false) ⊎ (holder_key s ≢ k)
          → lookup (add_if (chosen j s) (get r) (holder_key s) r.fresh) k ≡ lookup (get r) k
      skipped (inl out) = ap (λ m. lookup m k) (if_false (chosen j s) _ _ out)
      skipped (inr n) = elim (Bool-cases (chosen j s)) [
        | inl t ↦
            ap (λ m. lookup m k) (if_true (chosen j s) _ _ t)
            ∙ lookup-insert_ne (get r) (holder_key s) r.fresh k n
        | inr t ↦ ap (λ m. lookup m k) (if_false (chosen j s) _ _ t)
      ]

  -- A segment can be found under a key.
  abbrev pub IsKept : Restored → String → Segment → Type 0
  IsKept r k s = (p : ℕ) × (lookup (get r) k ≡ some p) × (r.heap p ≡ s)

  keyed-first :
      (segments : Map String Segment) (r : Restored) (a : String) (s : Segment)
      → AreFiled ((a, s) ∷ segments)
      → chosen a s ≡ true
      → All
          (λ (e : String × Segment). (chosen e.0 e.1 ≡ false) ⊎ (holder_key e.1 ≢ holder_key s))
          segments
      → IsKept
          (restore_segments false all segments (place_restored false all a s r))
          (holder_key s)
          s
  keyed-first segments r a s f c others = (
    r.fresh,
    keyed-unknown segments (place_restored false all a s r) (holder_key s) f.2 others
        ∙ ap (λ m. lookup m (holder_key s)) (placed a s r ∙ if_true (chosen a s) _ _ c)
        ∙ lookup-insert_self (get r) (holder_key s) r.fresh,
    restore_segments-heap false all segments (place_restored false all a s r) r.fresh f.2
          (omega arith)
        ∙ write_self r.heap r.fresh s,
  )

  -- Other segments than one of append id `a` are not chosen or have another key.
  abbrev pub Alone : String → String → Map String Segment → Type 0
  Alone a k segments =
      All (λ (e : String × Segment). (e.0 ≡ a) ⊎ ((chosen e.0 e.1 ≡ false) ⊎ (holder_key e.1 ≢ k)))
        segments

  without :
      (a k : String) (segments : Map String Segment)
      → All (λ (e : String × Segment). e.0 ≢ a) segments
      → Alone a k segments
      → All (λ (e : String × Segment). (chosen e.0 e.1 ≡ false) ⊎ (holder_key e.1 ≢ k)) segments
  without a k [] n h = tt
  without a k (e ∷ segments) n h = (other h.0, without a k segments n.1 h.1)
    where
      other :
          (e.0 ≡ a) ⊎ ((chosen e.0 e.1 ≡ false) ⊎ (holder_key e.1 ≢ k))
          → (chosen e.0 e.1 ≡ false) ⊎ (holder_key e.1 ≢ k)
      other (inl same) = absurd (n.0 same)
      other (inr o) = o

  pub keyed-IsKept :
      (segments : Map String Segment) (r : Restored) (a : String) (s : Segment)
      → AreFiled segments
      → lookup segments a ≡ some s
      → chosen a s ≡ true
      → Alone a (holder_key s) segments
      → IsKept (restore_segments false all segments r) (holder_key s) s
  unfolding lookup
  keyed-IsKept [] r a s f h c alone = absurd (ground (arith, h))
  keyed-IsKept ((j, t) ∷ segments) r a s f h c alone = elim (Bool-cases (j == a)) [
    | inl same ↦
        at_key (eq_of_== j a same)
          (some-inj (sym (if_true (j == a) (some t) (lookup segments a) same) ∙ h))
    | inr other ↦
        subst (λ q. IsKept q (holder_key s) s)
          (sym (restore_segments-step false all j t segments r f.0))
          (keyed-IsKept segments (place_restored false all j t r) a s f.2
            (sym (if_false (j == a) (some t) (lookup segments a) other) ∙ h) c alone.1)
  ]
    where
      at_key :
          j ≡ a → t ≡ s → IsKept (restore_segments false all ((j, t) ∷ segments) r) (holder_key s) s
      at_key e d =
          subst (λ q. IsKept q (holder_key s) s)
            (sym (restore_segments-step false all j t segments r f.0))
            (subst
              (λ u.
                IsKept (restore_segments false all segments (place_restored false all j u r))
                  (holder_key s) s)
              (sym d)
              (keyed-first segments r j s (subst (λ u. IsFiled j u) d f.0, f.1, f.2)
                (subst (λ i. chosen i s ≡ true) (sym e) c)
                (without j (holder_key s) segments f.1
                  (subst (λ i. Alone i (holder_key s) segments) (sym e) alone.1))))
