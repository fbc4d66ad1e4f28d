-- ===== src/Coordinator/Delivery/Placed.antt =====
-- Where `index` of pkg/coordinator/coordinator.go puts a new segment.
use stark8s.Prelude.{
  ℕ, zero, suc, ◌<◌, pos_part, String, true, false, ◌&&◌, ◌||◌, some, List, [], ◌∷◌, ◌++◌, length,
  get_or, set, get_or-set_self, length-set, lookup, insert, lookup-insert_self, lookup-insert_ne,
  ltb_ℤ, nat_beq, Bool-cases, ◌==◌, string_eq, ◌≢◌, ◌⊎◌, inl, inr, ◌≡◌, refl, sym, subst, ap, ◌∙◌,
  arith,
}
use stark8s.Coordinator.State.{Segment, Channel}
use stark8s.Coordinator.Names.{segment_key}
use stark8s.Coordinator.Channels.{queue_at, set_queue, contains_segment, broadcast, enqueue}
use stark8s.Coordinator.Settle.{mark_released}
use stark8s.Coordinator.Segments.{record_segment, place_segment, with_append_id, is_beyond_bound}
use stark8s.Coordinator.Delivery.{key_of, PlaceAt, NoDup, write-field, write-ne, write_self}

-- A segment at the end of a queue.
abbrev appended : List (List ℕ) → ℕ → ℕ → List (List ℕ)
appended qs j p = set qs j (get_or qs j [] ++ p ∷ [])

contains_segment-append :
    (xs : List ℕ) (p x : ℕ)
    → contains_segment (xs ++ p ∷ []) x ≡ (contains_segment xs x || nat_beq p x)
contains_segment-append [] p x = ground arith
contains_segment-append (y ∷ ys) p x = ground (arith, contains_segment-append ys p x)

NoDup-append :
    (xs : List ℕ) (p : ℕ) → NoDup xs → contains_segment xs p ≡ false → NoDup (xs ++ p ∷ [])
NoDup-append [] p h new = (refl, tt)
NoDup-append (y ∷ ys) p h new = (
  contains_segment-append ys p y ∙ ground (arith, new, h.0),
  NoDup-append ys p h.1 (ground (arith, new)),
)

appended-contains :
    (qs : List (List ℕ)) (j i x p : ℕ)
    → contains_segment (get_or qs i []) x ≡ true
    → contains_segment (get_or (appended qs j p) i []) x ≡ true
appended-contains [] j i x p h = h
appended-contains (q ∷ qs) zero zero x p h = contains_segment-append q p x ∙ rw h refl
appended-contains (q ∷ qs) zero (suc i) x p h = h
appended-contains (q ∷ qs) (suc j) zero x p h = h
appended-contains (q ∷ qs) (suc j) (suc i) x p h = appended-contains qs j i x p h

appended-contains_cases :
    (qs : List (List ℕ)) (j i x p : ℕ)
    → contains_segment (get_or (appended qs j p) i []) x ≡ true
    → ((p ≡ x) × (j ≡ i)) ⊎ (contains_segment (get_or qs i []) x ≡ true)
appended-contains_cases [] j i x p h = inr h
appended-contains_cases (q ∷ qs) zero zero x p h = ground (arith, contains_segment-append q p x)
appended-contains_cases (q ∷ qs) zero (suc i) x p h = inr h
appended-contains_cases (q ∷ qs) (suc j) zero x p h = inr h
appended-contains_cases (q ∷ qs) (suc j) (suc i) x p h =
    elim (appended-contains_cases qs j i x p h) [
      | inl (e, e') ↦ inl (e, ap suc e')
      | inr old ↦ inr old
    ]

appended-NoDup :
    (qs : List (List ℕ)) (j p : ℕ)
    → ((i : ℕ) → NoDup (get_or qs i []))
    → contains_segment (get_or qs j []) p ≡ false
    → (i : ℕ) → NoDup (get_or (appended qs j p) i [])
appended-NoDup [] j p h new i = tt
appended-NoDup (q ∷ qs) zero p h new zero = NoDup-append q p (h 0) new
appended-NoDup (q ∷ qs) zero p h new (suc i) = h (suc i)
appended-NoDup (q ∷ qs) (suc j) p h new zero = h 0
appended-NoDup (q ∷ qs) (suc j) p h new (suc i) = appended-NoDup qs j p (λ k. h (suc k)) new i

-- The channel with a new segment in its indexes, before it is placed: all the others are accounted
-- for, and the new one is in the store with nobody.
pub record IsRecorded (c : Channel) (s : Segment) (c1 : Channel) : Type 0 where
  pub new_key : key_of c1 c.fresh ≡ segment_key s.holder s.id
  pub new_part : (c1.heap c.fresh).part ≡ s.part
  pub new_free : (c1.heap c.fresh).delivered ≡ []
  pub new_index : lookup c1.index (segment_key s.holder s.id) ≡ some c.fresh
  pub next : c1.fresh ≡ suc c.fresh
  pub kept : (x : ℕ) → x < c.fresh → c1.heap x ≡ c.heap x
  pub kept_index :
      (k : String) → segment_key s.holder s.id ≢ k → lookup c1.index k ≡ lookup c.index k
  pub kept_queues : c1.queues ≡ c.queues
  pub kept_held : c1.held ≡ c.held
  pub kept_inflight : c1.inflight ≡ c.inflight

with_append_id-field {ℓ} :
    {A : Type ℓ} (g : Segment → A) (s : Segment)
    → ((t : String) → g (record s { append_id = t }) ≡ g s)
    → g (with_append_id s) ≡ g s
with_append_id-field g s h = elim (Bool-cases (s.append_id == "")) [
  | inl bare ↦ rw bare (h _)
  | inr given ↦ rw given refl
]

pub record_segment-IsRecorded :
    (c : Channel) (s : Segment)
    → s.delivered ≡ []
    → IsRecorded c s (record_segment c (with_append_id s))
unfolding record_segment
record_segment-IsRecorded c s free =
    let key = with_append_id-field (λ t. segment_key t.holder t.id) s (λ t. refl) in
    record {
      new_key = ap (λ t. segment_key t.holder t.id) (write_self c.heap c.fresh _) ∙ key;
      new_part =
          ap (λ t. t.part) (write_self c.heap c.fresh _)
          ∙ with_append_id-field (λ t. t.part) s (λ t. refl);
      new_free =
          ap (λ t. t.delivered) (write_self c.heap c.fresh _)
          ∙ with_append_id-field (λ t. t.delivered) s (λ t. refl)
          ∙ free;
      new_index =
          subst (λ k. lookup (insert c.index k c.fresh) (segment_key s.holder s.id) ≡ some c.fresh)
            (sym key) (lookup-insert_self c.index (segment_key s.holder s.id) c.fresh);
      next = refl;
      kept = λ x l. write-ne c.heap c.fresh _ x (omega arith);
      kept_index = λ k ne. lookup-insert_ne c.index _ c.fresh k (λ e. ne (sym key ∙ e));
      kept_queues = refl;
      kept_held = refl;
      kept_inflight = refl;
    }

-- Where a recorded segment is put.
pub record IsPlaced (c1 : Channel) (p : ℕ) (c2 : Channel) : Type 0 where
  pub same_key : (x : ℕ) → key_of c2 x ≡ key_of c1 x
  pub same_part : (x : ℕ) → (c2.heap x).part ≡ (c1.heap x).part
  pub same_delivered : (x : ℕ) → (c2.heap x).delivered ≡ (c1.heap x).delivered
  pub same_released : (x : ℕ) → p ≢ x → (c2.heap x).released ≡ (c1.heap x).released
  pub same_index : c2.index ≡ c1.index
  pub same_fresh : c2.fresh ≡ c1.fresh
  pub same_inflight : c2.inflight ≡ c1.inflight
  pub same_length : length c2.queues ≡ length c1.queues
  pub stays_queued :
      (i x : ℕ)
      → contains_segment (get_or c1.queues i []) x ≡ true
      → contains_segment (get_or c2.queues i []) x ≡ true
  pub is_queued :
      (i x : ℕ)
      → contains_segment (get_or c2.queues i []) x ≡ true
      → ((p ≡ x) × (pos_part (c1.heap p).part ≡ i))
        ⊎ (contains_segment (get_or c1.queues i []) x ≡ true)
  pub stays_once :
      ((i : ℕ) → NoDup (get_or c1.queues i []))
      → contains_segment (get_or c1.queues (pos_part (c1.heap p).part) []) p ≡ false
      → (i : ℕ) → NoDup (get_or c2.queues i [])
  pub stays_held : (x : ℕ) → contains_segment c1.held x ≡ true → contains_segment c2.held x ≡ true
  pub is_somewhere :
      pos_part (c1.heap p).part < length c1.queues
      → (c2.heap p).released ≡ false
      → PlaceAt c2 (c1.heap p).part (key_of c1 p) p

dropped-IsPlaced :
    (c1 : Channel) (p n : ℕ) → IsPlaced c1 p (mark_released (record c1 { produced = n }) p)
dropped-IsPlaced c1 p n = record {
  same_key = λ x. write-field (λ s. segment_key s.holder s.id) c1.heap p _ x refl;
  same_part = λ x. write-field (λ s. s.part) c1.heap p _ x refl;
  same_delivered = λ x. write-field (λ s. s.delivered) c1.heap p _ x refl;
  same_released = λ x ne. ap (λ s. s.released) (write-ne c1.heap p _ x ne);
  same_index = refl;
  same_fresh = refl;
  same_inflight = refl;
  same_length = refl;
  stays_queued = λ i x q. q;
  is_queued = λ i x q. inr q;
  stays_once = λ h new. h;
  stays_held = λ x h. h;
  is_somewhere = λ range needed. absurd (
      ground (
        arith,
        sym needed
            ∙ ap (λ s. s.released) (write_self c1.heap p (record (c1.heap p) { released = true })),
      ));
}

held-IsPlaced : (c1 : Channel) (p : ℕ) → IsPlaced c1 p (record c1 { held = c1.held ++ p ∷ [] })
held-IsPlaced c1 p = record {
  same_key = λ x. refl;
  same_part = λ x. refl;
  same_delivered = λ x. refl;
  same_released = λ x ne. refl;
  same_index = refl;
  same_fresh = refl;
  same_inflight = refl;
  same_length = refl;
  stays_queued = λ i x q. q;
  is_queued = λ i x q. inr q;
  stays_once = λ h new. h;
  stays_held = λ x h. contains_segment-append c1.held p x ∙ rw h refl;
  is_somewhere = λ range needed. inr (inl (contains_segment-append c1.held p p ∙ ground arith));
}

queued-IsPlaced :
    (c1 : Channel) (p : ℕ)
    → IsPlaced c1 p (set_queue c1 (c1.heap p).part (queue_at c1 (c1.heap p).part ++ p ∷ []))
queued-IsPlaced c1 p =
    let j = pos_part (c1.heap p).part in
    record {
      same_key = λ x. refl;
      same_part = λ x. refl;
      same_delivered = λ x. refl;
      same_released = λ x ne. refl;
      same_index = refl;
      same_fresh = refl;
      same_inflight = refl;
      same_length = length-set c1.queues j (get_or c1.queues j [] ++ p ∷ []);
      stays_queued = λ i x q. appended-contains c1.queues j i x p q;
      is_queued = λ i x q. appended-contains_cases c1.queues j i x p q;
      stays_once = λ h new. appended-NoDup c1.queues j p h new;
      stays_held = λ x h. h;
      is_somewhere = λ range needed. inl (
          ap (λ q. contains_segment q p)
            (get_or-set_self c1.queues j (get_or c1.queues j [] ++ p ∷ []) [] range)
          ∙ contains_segment-append (get_or c1.queues j []) p p
          ∙ ground arith);
    }

pub place_segment-IsPlaced :
    (c1 : Channel) (p : ℕ) → broadcast c1 ≡ false → IsPlaced c1 p (place_segment c1 p)
unfolding place_segment enqueue
place_segment-IsPlaced c1 p b = elim (Bool-cases (is_beyond_bound c1.spec.feedback (c1.heap p))) [
  | inl beyond ↦ rw beyond (dropped-IsPlaced c1 p _)
  | inr bounded ↦ elim (Bool-cases (c1.finite_epochs && ltb_ℤ c1.epoch (c1.heap p).epoch)) [
    | inl later ↦ rw (bounded, later) (held-IsPlaced c1 p)
    | inr now ↦ rw (bounded, now, b) (queued-IsPlaced c1 p)
  ]
]
