-- ===== src/Coordinator/Delivery/Queued.antt =====
-- Consuming a partition keeps every segment accounted for (`ConsumeSession` of
-- pkg/coordinator/coordinator.go).
use stark8s.Prelude.{
  ℕ, zero, suc, ◌<◌, pos_part, true, not, ◌&&◌, some, List, [], ◌∷◌, All, length, get_or, set,
  get_or-set_self, length-set, lookup, insert, lookup-insert_self, lookup-insert_ne, add_key, ltb,
  nat_beq, Bool-cases, string_eq, ◌≢◌, ◌⊎◌, inl, inr, ◌≡◌, refl, sym, subst, ap, ◌∙◌, arith,
}
use stark8s.Coordinator.State.{Segment, Channel}
use stark8s.Coordinator.Channels.{contains_segment}
use stark8s.Coordinator.Consume.{
  Reader, Round, must_wait, deliver, take_queue, consume_partition, consume_partitions,
}
use stark8s.Coordinator.Delivery.{
  key_of, Place, PlaceAt, NoDup, IsAccounted, write-field, write-ne, index-ne, Place-at,
}
use stark8s.Coordinator.Names.{segment_key}

abbrev with_queue : Channel → ℕ → List ℕ → Channel
with_queue c i q = record c { queues = set c.queues i q }

-- What is still in a queue after its first segment was taken was in it before.
set-contains :
    (qs : List (List ℕ)) (i j x p : ℕ) (ps : List ℕ)
    → contains_segment (get_or (set qs i ps) j []) x ≡ true
    → contains_segment (get_or (set qs i (p ∷ ps)) j []) x ≡ true
set-contains [] i j x p ps h = h
set-contains (q ∷ qs) zero zero x p ps h = ground arith
set-contains (q ∷ qs) zero (suc j) x p ps h = h
set-contains (q ∷ qs) (suc i) zero x p ps h = h
set-contains (q ∷ qs) (suc i) (suc j) x p ps h = set-contains qs i j x p ps h

-- What was in a queue is the first segment, or is still there.
set-contains_cases :
    (qs : List (List ℕ)) (i j x p : ℕ) (ps : List ℕ)
    → contains_segment (get_or (set qs i (p ∷ ps)) j []) x ≡ true
    → (p ≡ x) ⊎ (contains_segment (get_or (set qs i ps) j []) x ≡ true)
set-contains_cases [] i j x p ps h = inr h
set-contains_cases (q ∷ qs) zero zero x p ps h = ground arith
set-contains_cases (q ∷ qs) zero (suc j) x p ps h = inr h
set-contains_cases (q ∷ qs) (suc i) zero x p ps h = inr h
set-contains_cases (q ∷ qs) (suc i) (suc j) x p ps h = set-contains_cases qs i j x p ps h

set-NoDup :
    (qs : List (List ℕ)) (i : ℕ) (p : ℕ) (ps : List ℕ)
    → ((j : ℕ) → NoDup (get_or (set qs i (p ∷ ps)) j []))
    → (j : ℕ) → NoDup (get_or (set qs i ps) j [])
set-NoDup [] i p ps h j = tt
set-NoDup (q ∷ qs) zero p ps h zero = (h 0).1
set-NoDup (q ∷ qs) zero p ps h (suc j) = h (suc j)
set-NoDup (q ∷ qs) (suc i) p ps h zero = h 0
set-NoDup (q ∷ qs) (suc i) p ps h (suc j) = set-NoDup qs i p ps (λ k. h (suc k)) j

module _ (r : Reader) (c : Channel) (i p : ℕ) (ps : List ℕ) (inside : i < length c.queues)
    (h : IsAccounted (with_queue c i (p ∷ ps))) where
  taken : Segment
  taken = record (c.heap p) { delivered = add_key (c.heap p).delivered r.delivery }

  after : Channel
  after = with_queue (deliver r c p) i ps

  same_key : (x : ℕ) → key_of after x ≡ key_of c x
  unfolding after
  same_key x = write-field (λ s. segment_key s.holder s.id) c.heap p _ x refl

  same_part : (x : ℕ) → (after.heap x).part ≡ (c.heap x).part
  unfolding after
  same_part x = write-field (λ s. s.part) c.heap p _ x refl

  same_released : (x : ℕ) → (after.heap x).released ≡ (c.heap x).released
  unfolding after
  same_released x = write-field (λ s. s.released) c.heap p _ x refl

  at_front : contains_segment (get_or (set c.queues i (p ∷ ps)) i []) p ≡ true
  at_front = rw (get_or-set_self c.queues i (p ∷ ps) [] inside) (ground arith)

  -- Where a segment is after the first one was handed out.
  moved :
      (x : ℕ)
      → lookup c.index (key_of c x) ≡ some x
      → Place (with_queue c i (p ∷ ps)) x
      → PlaceAt after (c.heap x).part (key_of c x) x
  unfolding after
  moved x indexed place = elim (Bool-cases (nat_beq p x)) [
    | inl same ↦ inr (
        inr (
          subst (λ z. lookup (insert c.inflight (key_of c p) p) (key_of c z) ≡ some z)
            (ground (arith, same)) (lookup-insert_self c.inflight (key_of c p) p)))
    | inr other ↦ elim place [
      | inl q ↦ elim (set-contains_cases c.queues i (pos_part (c.heap x).part) x p ps q) [
        | inl same ↦ absurd (ground (arith, other, same))
        | inr still ↦ inl still
      ]
      | inr rest ↦ elim rest [
        | inl held ↦ inr (inl held)
        | inr flying ↦ inr (
            inr (
              lookup-insert_ne c.inflight (key_of c p) p (key_of c x) (
                index-ne c.index (key_of c p) (key_of c x) p x (h.queued i p at_front).1 indexed
                  (ground (arith, other)))
              ∙ flying))
      ]
    ]
  ]

  not_taken : (j x : ℕ) → contains_segment (get_or (set c.queues i ps) j []) x ≡ true → p ≢ x
  not_taken j x q e =
      let at_j : i ≡ j =
        sym (h.queued i p at_front).2
        ∙ ap (λ z. pos_part (c.heap z).part) e
        ∙ (h.queued j x (set-contains c.queues i j x p ps q)).2 in
      let again : contains_segment ps p ≡ true =
        ap (λ l. contains_segment l p) (sym (get_or-set_self c.queues i ps [] inside))
        ∙ ap (λ n. contains_segment (get_or (set c.queues i ps) n []) p) at_j
        ∙ ap (contains_segment (get_or (set c.queues i ps) j [])) e
        ∙ q in
      let first : NoDup (p ∷ ps) =
        subst NoDup (get_or-set_self c.queues i (p ∷ ps) [] inside) (h.once i) in
      ground (arith, again, first.0)

  -- The first segment of a queue is handed out.
  deliver-IsAccounted : IsAccounted (with_queue (deliver r c p) i ps)
  unfolding after taken
  deliver-IsAccounted = record {
    places = λ x l needed.
        let (indexed, range, place) = h.places x l (sym (same_released x) ∙ needed) in
        (
          ap (lookup c.index) (same_key x) ∙ indexed,
          omega (
            arith,
            ap pos_part (same_part x),
            range,
            length-set c.queues i ps,
            length-set c.queues i (p ∷ ps),
          ),
          Place-at after (c.heap x).part (key_of c x) x (same_part x) (same_key x)
              (moved x indexed place),
        );
    queued = λ j x q.
        let (l, indexed, part, free) = h.queued j x (set-contains c.queues i j x p ps q) in
        (
          l,
          ap (lookup c.index) (same_key x) ∙ indexed,
          ap pos_part (same_part x) ∙ part,
          ap (λ s. s.delivered) (write-ne c.heap p _ x (not_taken j x q)) ∙ free,
        );
    once = set-NoDup c.queues i p ps h.once;
    exclusive = λ x l. elim (Bool-cases (nat_beq p x)) [
      | inl same ↦ rw same (rw (h.queued i p at_front).3 (omega arith))
      | inr other ↦ rw other (h.exclusive x l)
    ];
  }

set-get : (qs : List (List ℕ)) (i : ℕ) → set qs i (get_or qs i []) ≡ qs
set-get [] i = refl
set-get (q ∷ qs) zero = refl
set-get (q ∷ qs) (suc i) = ap (λ l. q ∷ l) (set-get qs i)

with_queue-get : (c : Channel) (i : ℕ) → with_queue c i (get_or c.queues i []) ≡ c
with_queue-get c i = ap (λ q. record c { queues = q }) (set-get c.queues i)

module _ (r : Reader) where
  -- The loop over the queue of a partition.
  take_queue-IsAccounted :
      (c : Channel) (i n : ℕ) (ps : List ℕ)
      → i < length c.queues
      → IsAccounted (with_queue c i ps)
      → let h = take_queue r c n ps in IsAccounted (with_queue h.channel i h.left)
  unfolding take_queue
  take_queue-IsAccounted c i n [] inside v = v
  take_queue-IsAccounted c i n (p ∷ ps) inside v =
      elim (Bool-cases (ltb n r.limit && not (must_wait r (c.heap p)))) [
        | inr halt ↦ rw halt v
        | inl go ↦ rw go (
            take_queue-IsAccounted (deliver r c p) i (suc n) ps inside
              (deliver-IsAccounted r c i p ps inside v))
      ]

  take_queue-queues :
      (c : Channel) (n : ℕ) (ps : List ℕ) → (take_queue r c n ps).channel.queues ≡ c.queues
  unfolding take_queue
  take_queue-queues c n [] = refl
  take_queue-queues c n (p ∷ ps) =
      elim (Bool-cases (ltb n r.limit && not (must_wait r (c.heap p)))) [
        | inr halt ↦ rw halt refl
        | inl go ↦ rw go (take_queue-queues (deliver r c p) (suc n) ps)
      ]

  consume_partition-IsAccounted :
      (p : ℕ) (round : Round)
      → p < length round.channel.queues
      → IsAccounted round.channel
      → IsAccounted (consume_partition r p round).channel
        × (length (consume_partition r p round).channel.queues ≡ length round.channel.queues)
  unfolding consume_partition
  consume_partition-IsAccounted p round inside v =
      let c = round.channel in
      let q = get_or c.queues p [] in
      let h = take_queue r c round.count q in
      (
        subst (λ qs. IsAccounted (record h.channel { queues = set qs p h.left }))
            (take_queue-queues c round.count q)
            (take_queue-IsAccounted c p round.count q inside
              (subst IsAccounted (sym (with_queue-get c p)) v)),
        length-set c.queues p h.left,
      )

  -- Handing out the queues of some partitions, all within range, leaves every segment accounted for, and each of them
  -- with one process at most.
  pub consume_partitions-IsAccounted :
      (ps : List ℕ) (round : Round)
      → All (λ p. p < length round.channel.queues) ps
      → IsAccounted round.channel
      → IsAccounted (consume_partitions r ps round).channel
  unfolding consume_partitions
  consume_partitions-IsAccounted [] round inside v = v
  consume_partitions-IsAccounted (p ∷ ps) round inside v =
      let (v', same) = consume_partition-IsAccounted p round inside.0 v in
      consume_partitions-IsAccounted ps (consume_partition r p round)
        (subst (λ n. All (λ p. p < n) ps) (sym same) inside.1) v'
