-- ===== src/Coordinator/Subscriptions/Cursor.antt =====
-- The cursors of named subscriptions in pkg/coordinator/subscriptions.go.
use stark8s.Prelude.{
  ℕ, ℤ, pos, suc, ◌<◌, pos_part, String, ◌&&◌, Option, none, some, List, [], ◌∷◌, Map, length,
  get_or, set, get_or-set_self, get_or-set_ne, lookup, insert, delete, lookup-insert_self,
  lookup-insert_ne, lookup-delete_self, lookup-delete_ne, leb, ltb, Bool-cases, Option-cases, ◌==◌,
  string_eq, int_eq, nat_eq, eq_of_==, ne_of_==, ◌≢◌, ◌⊎◌, inl, inr, ◌≡◌, refl, sym, subst, ap, ◌∙◌,
  arith,
}
use stark8s.Coordinator.Api.{SubscriptionAck}
use stark8s.Coordinator.State.{Subscription, SubscriptionDelivery, Channel}
use stark8s.Coordinator.Subscriptions.{
  Reading, entry_at, read_free, lend, repeat_delivery, read_partition, read_partitions, base_at,
  fits_delivery, ack_position,
}

-- What is in flight on a partition stands at its cursor.
abbrev pub AtCursor : Subscription → Type 0
AtCursor sub =
    (k : ℤ) (d : SubscriptionDelivery)
    → lookup sub.inflight k ≡ some d
    → (k ≡ pos (pos_part k)) × (d.offset ≡ get_or sub.positions (pos_part k) 0)

repeat_delivery-subscription :
    (c : Channel) (owner : String) (p : ℕ) (r : Reading) (d : SubscriptionDelivery)
    → (repeat_delivery c owner p r d).subscription ≡ r.subscription
repeat_delivery-subscription c owner p r d =
    elim (Bool-cases (r.subscription.operation == "" && d.owner == owner)) [
      | inl t ↦ ground (arith, t)
      | inr t ↦ ground (arith, t)
    ]

lookup_lent :
    (m : Map ℤ SubscriptionDelivery) (positions : List ℕ) (p : ℕ) (new : SubscriptionDelivery)
    → new.offset ≡ get_or positions p 0
    → ((k : ℤ) (d : SubscriptionDelivery)
        → lookup m k ≡ some d
        → (k ≡ pos (pos_part k)) × (d.offset ≡ get_or positions (pos_part k) 0))
    → (k : ℤ) (d : SubscriptionDelivery) → lookup (insert m (pos p) new) k ≡ some d
    → (k ≡ pos (pos_part k)) × (d.offset ≡ get_or positions (pos_part k) 0)
lookup_lent m positions p new at h k d e = elim (Bool-cases (pos p == k)) [
  | inl same ↦ (
    subst (λ j. j ≡ pos (pos_part j)) (eq_of_== (pos p) k same) refl,
    subst
        (λ j. lookup (insert m (pos p) new) j ≡ some d → d.offset ≡ get_or positions (pos_part j) 0)
        (eq_of_== (pos p) k same) (λ e'. ground (arith, lookup-insert_self m (pos p) new)) e,
  )
  | inr other ↦ h k d (sym (lookup-insert_ne m (pos p) new k (ne_of_== (pos p) k other)) ∙ e)
]

lend-AtCursor :
    (c : Channel) (owner : String) (p : ℕ) (r : Reading) (o : Option ℕ)
    → AtCursor r.subscription
    → AtCursor (lend c owner p r o).subscription
lend-AtCursor c owner p r none h = h
lend-AtCursor c owner p r (some e) h =
    lookup_lent (r.subscription).inflight (r.subscription).positions p _ refl h

read_free-AtCursor :
    (c : Channel) (owner : String) (p : ℕ) (r : Reading) (o : Option SubscriptionDelivery)
    → AtCursor r.subscription
    → AtCursor (read_free c owner p r o).subscription
read_free-AtCursor c owner p r (some d) h =
    subst AtCursor (sym (repeat_delivery-subscription c owner p r d)) h
read_free-AtCursor c owner p r none h =
    lend-AtCursor c owner p r (entry_at c p (get_or (r.subscription).positions p 0)) h

read_partition-AtCursor :
    (c : Channel) (owner : String) (p : ℕ) (r : Reading)
    → AtCursor r.subscription
    → AtCursor (read_partition c owner p r).subscription
unfolding read_partition
read_partition-AtCursor c owner p r h =
    read_free-AtCursor c owner p r (lookup (r.subscription).inflight (pos p)) h

-- Reading keeps each delivery in flight at the cursor of its partition.
pub read_partitions-AtCursor :
    (c : Channel) (owner : String) (limit : ℕ) (ps : List ℕ) (r : Reading)
    → AtCursor r.subscription
    → AtCursor (read_partitions c owner limit ps r).0.subscription
unfolding read_partitions
read_partitions-AtCursor c owner limit [] r h = h
read_partitions-AtCursor c owner limit (p ∷ ps) r h =
    elim (Bool-cases (leb limit (length r.work))) [
      | inl full ↦ rw full h
      | inr room ↦ elim (Bool-cases (ltb (get_or (r.subscription).positions p 0) (base_at c p))) [
        | inl gone ↦ rw (room, gone) h
        | inr kept ↦
            rw (room, kept)
              (read_partitions-AtCursor c owner limit ps (read_partition c owner p r)
                (read_partition-AtCursor c owner p r h))
      ]
    ]

abbrev advanced : Subscription → SubscriptionAck → SubscriptionDelivery → Subscription
advanced sub a d = record sub {
  inflight = delete sub.inflight a.partition;
  positions = set sub.positions (pos_part a.partition) (suc d.offset);
}

ack_position-cases :
    (owner : String) (sub : Subscription) (a : SubscriptionAck)
    → (ack_position owner sub a ≡ sub)
      ⊎ ((d : SubscriptionDelivery) × (lookup sub.inflight a.partition ≡ some d)
          × (ack_position owner sub a ≡ advanced sub a d))
unfolding ack_position
ack_position-cases owner sub a = elim (Option-cases (lookup sub.inflight a.partition)) [
  | inl free ↦ inl (rw free refl)
  | inr (d, lent) ↦ elim (Bool-cases (fits_delivery owner a d)) [
    | inl fits ↦ inr (d, lent, rw (lent, fits) refl)
    | inr other ↦ inl (rw (lent, other) refl)
  ]
]

advanced-AtCursor :
    (sub : Subscription) (a : SubscriptionAck) (d : SubscriptionDelivery)
    → AtCursor sub
    → lookup sub.inflight a.partition ≡ some d
    → AtCursor (advanced sub a d)
advanced-AtCursor sub a d h lent k d' e = elim (Bool-cases (a.partition == k)) [
  | inl same ↦
      absurd (cc (lookup-delete_self sub.inflight a.partition, eq_of_== a.partition k same))
  | inr other ↦
      let old =
        h k d'
          (sym (lookup-delete_ne sub.inflight a.partition k (ne_of_== a.partition k other)) ∙ e) in
      (
        old.0,
        old.1
            ∙ sym (
                get_or-set_ne sub.positions (pos_part a.partition) (pos_part k) (suc d.offset) 0
                  (λ same_part.
                    ne_of_== a.partition k other
                      ((h a.partition d lent).0 ∙ ap (λ n. pos n) same_part ∙ sym old.0))),
      )
]

ack_free :
    (owner : String) (sub : Subscription) (a : SubscriptionAck)
    → lookup sub.inflight a.partition ≡ none
    → ack_position owner sub a ≡ sub
unfolding ack_position
ack_free owner sub a free = rw free refl

-- An acknowledgement keeps each delivery in flight at the cursor of its partition.
pub ack_position-AtCursor :
    (owner : String) (sub : Subscription) (a : SubscriptionAck)
    → AtCursor sub
    → AtCursor (ack_position owner sub a)
ack_position-AtCursor owner sub a h = elim (ack_position-cases owner sub a) [
  | inl same ↦ subst AtCursor (sym same) h
  | inr (d, lent, moved) ↦ subst AtCursor (sym moved) (advanced-AtCursor sub a d h lent)
]

-- The same acknowledgement twice counts once.
ack_position-twice :
    (owner : String) (sub : Subscription) (a : SubscriptionAck)
    → ack_position owner (ack_position owner sub a) a ≡ ack_position owner sub a
ack_position-twice owner sub a = elim (ack_position-cases owner sub a) [
  | inl same ↦ ap (λ s. ack_position owner s a) same
  | inr (d, lent, moved) ↦
      ack_free owner (ack_position owner sub a) a (
        ap (λ s. lookup s.inflight a.partition) moved ∙ lookup-delete_self sub.inflight a.partition)
]

-- If all deliveries in flight are at their cursors and the partition is within range, an
-- acknowledgement is without effect, or it moves the cursor of its partition by exactly one,
-- removes the delivery that stood there, and leaves the other partitions alone.
pub ack_position-advance :
    (owner : String) (sub : Subscription) (a : SubscriptionAck)
    → AtCursor sub
    → pos_part a.partition < length sub.positions
    → let sub' = ack_position owner sub a in
      (sub' ≡ sub)
      ⊎ ((get_or sub'.positions (pos_part a.partition) 0
            ≡ suc (get_or sub.positions (pos_part a.partition) 0))
          × (lookup sub'.inflight a.partition ≡ none)
          × ((q : ℕ)
              → pos_part a.partition ≢ q
              → get_or sub'.positions q 0 ≡ get_or sub.positions q 0))
ack_position-advance owner sub a h range = elim (ack_position-cases owner sub a) [
  | inl same ↦ inl same
  | inr (d, lent, moved) ↦ inr (
    ap (λ s. get_or s.positions (pos_part a.partition) 0) moved
        ∙ get_or-set_self sub.positions (pos_part a.partition) (suc d.offset) 0 range
        ∙ ap suc (h a.partition d lent).1,
    ap (λ s. lookup s.inflight a.partition) moved ∙ lookup-delete_self sub.inflight a.partition,
    λ q other.
        ap (λ s. get_or s.positions q 0) moved
        ∙ get_or-set_ne sub.positions (pos_part a.partition) q (suc d.offset) 0 other,
  )
]
