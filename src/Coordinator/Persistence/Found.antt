-- ===== src/Coordinator/Persistence/Found.antt =====
-- pkg/coordinator/persistence.go: the segments of a channel in `restore`.
use stark8s.Prelude.{
  some-inj, if_true, if_false, sym, subst, ℕ, String, Bool, false, not, ◌||◌, some, List, [], ◌∷◌,
  All, Map, lookup, insert, ◌==◌, ==-refl, ==-ne, eq_of_==, if◌then◌else◌, string_eq,
  lookup-insert_self, lookup-insert_ne, ◌≡◌, ◌≢◌, refl, ap, ◌∙◌, arith, Bool-cases, inl, inr, ◌<◌,
}
use stark8s.Coordinator.State.{Segment}
use stark8s.Coordinator.Names.{segment_key}
use stark8s.Coordinator.Delivery.{write-ne, write_self}
use stark8s.Coordinator.Segments.{durable_holder}
use stark8s.Coordinator.Persistence.{
  Restored, restored_segment, place_restored, restore_segments, add_if,
}

-- A segment that restoring leaves as it is, under its own append id.
abbrev pub IsFiled : String → Segment → Type 0
IsFiled k s = (s.append_id ≡ k) × (k ≢ "") × ((s.durable || durable_holder s.holder) ≡ s.durable)

-- Segments under their own append ids, each of which is used once.
abbrev pub AreFiled : Map String Segment → Type 0
AreFiled [] = Unit
AreFiled ((k, s) ∷ segments) =
    IsFiled k s × All (λ (e : String × Segment). e.0 ≢ k) segments × AreFiled segments

own_id : (k a : String) → a ≡ k → k ≢ "" → (j : String) → (if a == "" then j else a) ≡ a
own_id k a e n j = rw (e, ==-ne k "" n) refl

restored_segment-filed : (k : String) (s : Segment) → IsFiled k s → restored_segment s ≡ s
restored_segment-filed k s (e, n, d) =
    ap
      (λ b. record s {
        durable = b;
        append_id = if s.append_id == "" then segment_key s.producer s.id else s.append_id;
      })
      d
    ∙ ap (λ a. record s { append_id = a }) (own_id k s.append_id e n (segment_key s.producer s.id))

add_nothing : (b : Bool) (m : Map String ℕ) (k : String) (p : ℕ) → b ≡ false → add_if b m k p ≡ m
add_nothing b m k p h = rw h refl

own_key : (k a : String) → a ≡ k → not (k == a) ≡ false
own_key k a e = rw (e, ==-refl k) refl

place_restored-ids :
    (legacy : Bool) (all : List String) (k : String) (s : Segment) (r : Restored)
    → IsFiled k s
    → (place_restored legacy all k s r).append_ids ≡ insert r.append_ids k r.fresh
place_restored-ids legacy all k s r f =
    add_nothing (not (k == s.append_id)) _ k r.fresh (own_key k s.append_id f.0)
    ∙ ap (λ a. insert r.append_ids a r.fresh) f.0

place_restored-aliases :
    (legacy : Bool) (all : List String) (k : String) (s : Segment) (r : Restored)
    → IsFiled k s
    → (place_restored legacy all k s r).aliases ≡ r.aliases
place_restored-aliases legacy all k s r f = rw (own_key k s.append_id f.0) refl

pub restore_segments-step :
    (legacy : Bool) (all : List String) (k : String) (s : Segment) (segments : Map String Segment)
    (r : Restored)
    → IsFiled k s
    → restore_segments legacy all ((k, s) ∷ segments) r
      ≡ restore_segments legacy all segments (place_restored legacy all k s r)
unfolding restore_segments
restore_segments-step legacy all k s segments r f =
    ap (λ s'. restore_segments legacy all segments (place_restored legacy all k s' r))
      (restored_segment-filed k s f)

pub restore_segments-aliases :
    (legacy : Bool) (all : List String) (segments : Map String Segment) (r : Restored)
    → AreFiled segments
    → (restore_segments legacy all segments r).aliases ≡ r.aliases
unfolding restore_segments
restore_segments-aliases legacy all [] r f = refl
restore_segments-aliases legacy all ((k, s) ∷ segments) r f =
    ap (λ q. q.aliases) (restore_segments-step legacy all k s segments r f.0)
    ∙ restore_segments-aliases legacy all segments (place_restored legacy all k s r) f.2
    ∙ place_restored-aliases legacy all k s r f.0

-- Later segments leave what is known of other append ids.
pub restore_segments-lookup_ne :
    (legacy : Bool) (all : List String) (segments : Map String Segment) (r : Restored) (k : String)
    → AreFiled segments
    → All (λ (e : String × Segment). e.0 ≢ k) segments
    → lookup (restore_segments legacy all segments r).append_ids k ≡ lookup r.append_ids k
unfolding restore_segments
restore_segments-lookup_ne legacy all [] r k f d = refl
restore_segments-lookup_ne legacy all ((j, s) ∷ segments) r k f d =
    ap (λ q. lookup q.append_ids k) (restore_segments-step legacy all j s segments r f.0)
    ∙ restore_segments-lookup_ne legacy all segments (place_restored legacy all j s r) k f.2 d.1
    ∙ ap (λ m. lookup m k) (place_restored-ids legacy all j s r f.0)
    ∙ lookup-insert_ne r.append_ids j r.fresh k d.0

-- Later segments leave what is restored.
pub restore_segments-heap :
    (legacy : Bool) (all : List String) (segments : Map String Segment) (r : Restored) (p : ℕ)
    → AreFiled segments
    → p < r.fresh
    → (restore_segments legacy all segments r).heap p ≡ r.heap p
unfolding restore_segments
restore_segments-heap legacy all [] r p f h = refl
restore_segments-heap legacy all ((j, s) ∷ segments) r p f h =
    ap (λ q. q.heap p) (restore_segments-step legacy all j s segments r f.0)
    ∙ restore_segments-heap legacy all segments (place_restored legacy all j s r) p f.2
        (omega arith)
    ∙ write-ne r.heap r.fresh s p (omega arith)

-- A segment can be found under its append id.
abbrev pub IsFound : Restored → String → Segment → Type 0
IsFound r k s = (p : ℕ) × (lookup r.append_ids k ≡ some p) × (r.heap p ≡ s)

restore_segments-first :
    (legacy : Bool) (all : List String) (segments : Map String Segment) (r : Restored) (k : String)
    (s : Segment)
    → AreFiled ((k, s) ∷ segments)
    → IsFound (restore_segments legacy all segments (place_restored legacy all k s r)) k s
restore_segments-first legacy all segments r k s f = (
  r.fresh,
  restore_segments-lookup_ne legacy all segments (place_restored legacy all k s r) k f.2 f.1
      ∙ ap (λ m. lookup m k) (place_restored-ids legacy all k s r f.0)
      ∙ lookup-insert_self r.append_ids k r.fresh,
  restore_segments-heap legacy all segments (place_restored legacy all k s r) r.fresh f.2
        (omega arith)
      ∙ write_self r.heap r.fresh s,
)

-- Each segment is found again.
pub restore_segments-IsFound :
    (legacy : Bool) (all : List String) (segments : Map String Segment) (r : Restored) (k : String)
    (s : Segment)
    → AreFiled segments
    → lookup segments k ≡ some s
    → IsFound (restore_segments legacy all segments r) k s
unfolding lookup
restore_segments-IsFound legacy all [] r k s f h = absurd (ground (arith, h))
restore_segments-IsFound legacy all ((j, t) ∷ segments) r k s f h = elim (Bool-cases (j == k)) [
  | inl same ↦
      at_key (eq_of_== j k same)
        (some-inj (sym (if_true (j == k) (some t) (lookup segments k) same) ∙ h))
  | inr other ↦
      subst (λ q. IsFound q k s) (sym (restore_segments-step legacy all j t segments r f.0))
        (restore_segments-IsFound legacy all segments (place_restored legacy all j t r) k s f.2
          (sym (if_false (j == k) (some t) (lookup segments k) other) ∙ h))
]
  where
    at_key : j ≡ k → t ≡ s → IsFound (restore_segments legacy all ((j, t) ∷ segments) r) k s
    at_key e d =
        subst (λ i. IsFound (restore_segments legacy all ((j, t) ∷ segments) r) i s) e
          (subst (IsFound (restore_segments legacy all ((j, t) ∷ segments) r) j) d (
            subst (λ q. IsFound q j t) (sym (restore_segments-step legacy all j t segments r f.0))
              (restore_segments-first legacy all segments r j t f)))
