-- ===== src/Coordinator/Acks/Once.antt =====
-- Repeated acknowledgements and refusals have no further effect.
use stark8s.Coordinator.Names.{segment_key}
use stark8s.Prelude.{
  Bool-cases, lookup-delete_cases, ◌⊎◌, ℕ, String, false, Option, none, some, contains,
  contains-remove_key_self, Bool-cases, ◌≡◌, refl, inl, inr, arith, string_eq,
}
use stark8s.Coordinator.Api.{SegmentAck}
use stark8s.Coordinator.State.{Operation, Channel}
use stark8s.Coordinator.Acks.{
  segment_for_ack, ack_segment, ack_found, accepts_ack, ack_one, nack_one, nack_segment, nack_found,
}
use stark8s.Coordinator.Settle.{release}

-- After an accepted acknowledgement the process holds no delivery of the segment.
ack_segment-delivered :
    (owned by : String) (c : Channel) (p : ℕ)
    → contains ((ack_segment owned by c p).heap p).delivered owned ≡ false
unfolding ack_segment
ack_segment-delivered owned by c p =
    ground (arith, contains-remove_key_self (c.heap p).delivered owned)

ack_segment-spec :
    (owned by : String) (c : Channel) (p : ℕ) → (ack_segment owned by c p).spec ≡ c.spec
unfolding ack_segment release
ack_segment-spec owned by c p = ground arith

-- The segment is found again, unless it was forgotten.
ack_segment-found :
    (owned by : String) (c : Channel) (p : ℕ) (a : SegmentAck)
    → (segment_for_ack (ack_segment owned by c p) a ≡ none)
      ⊎ (segment_for_ack (ack_segment owned by c p) a ≡ segment_for_ack c a)
unfolding ack_segment segment_for_ack release
ack_segment-found owned by c p a = ground (
  arith,
  lookup-delete_cases c.index (segment_key (c.heap p).holder (c.heap p).id)
      (segment_key a.holder a.id),
)

-- A process that holds no delivery of the segment changes nothing.
ack_found-unheld :
    (a : SegmentAck) (owned by : String) (c : Channel) (p : ℕ)
    → contains (c.heap p).delivered owned ≡ false
    → ack_found a owned by c (some p) ≡ c
ack_found-unheld a owned by c p h = ground arith

ack_found-twice :
    (a : SegmentAck) (owned by by' : String) (c : Channel) (o : Option ℕ)
    → segment_for_ack c a ≡ o
    → ack_found a owned by'
        (ack_found a owned by c o)
        (segment_for_ack (ack_found a owned by c o) a)
      ≡ ack_found a owned by c o
ack_found-twice a owned by by' c none e = rw e
ack_found-twice a owned by by' c (some p) e = elim (Bool-cases (accepts_ack c a owned p)) [
  | inr refused ↦ rw (refused, e, refused)
  | inl accepted ↦ rw accepted (elim (ack_segment-found owned by c p a) [
    | inl gone ↦ rw gone
    | inr same ↦
        rw (same, e)
          (ack_found-unheld a owned by' (ack_segment owned by c p) p
            (ack_segment-delivered owned by c p))
  ])
]

-- A repeated acknowledgement has no effect: with the same message from the same process, the second
-- round of the loop leaves the channel as the first one left it, its counters included.
ack_one-twice :
    (o : Operation) (pod_name incarnation : String) (c : Channel) (a : SegmentAck)
    → ack_one o pod_name incarnation (ack_one o pod_name incarnation c a) a
      ≡ ack_one o pod_name incarnation c a
unfolding ack_one
ack_one-twice o pod_name incarnation c a = ack_found-twice a _ _ _ c (segment_for_ack c a) refl

nack_segment-delivered :
    (now : ℕ) (pod_name owned : String) (a : SegmentAck) (c : Channel) (p : ℕ)
    → contains ((nack_segment now pod_name owned a c p).heap p).delivered owned ≡ false
unfolding nack_segment
nack_segment-delivered now pod_name owned a c p =
    ground (arith, contains-remove_key_self (c.heap p).delivered owned)

nack_segment-found :
    (now : ℕ) (pod_name owned : String) (a : SegmentAck) (c : Channel) (p : ℕ) (b : SegmentAck)
    → segment_for_ack (nack_segment now pod_name owned a c p) b ≡ segment_for_ack c b
unfolding nack_segment segment_for_ack
nack_segment-found now pod_name owned a c p b = ground arith

nack_found-twice :
    (now later : ℕ) (pod_name owned : String) (a b : SegmentAck) (c : Channel) (o : Option ℕ)
    → segment_for_ack c b ≡ o
    → let c' = nack_found now pod_name owned a c o in
      nack_found later pod_name owned b c' (segment_for_ack c' b) ≡ c'
nack_found-twice now later pod_name owned a b c none e = rw e
nack_found-twice now later pod_name owned a b c (some p) e =
    elim (Bool-cases (contains (c.heap p).delivered owned)) [
      | inr unheld ↦ rw (unheld, e, unheld)
      | inl held ↦ rw (
        held,
        nack_segment-found now pod_name owned a c p b,
        e,
        nack_segment-delivered now pod_name owned a c p,
      )
    ]

-- "Repeating a successful request has no effect": the second of two equal refusals by one process
-- leaves the channel alone, also when it comes later.
nack_one-twice :
    (now later : ℕ) (pod_name incarnation : String) (c : Channel) (a : SegmentAck)
    → let c' = nack_one now pod_name incarnation c a in
      nack_one later pod_name incarnation c' a ≡ c'
unfolding nack_one
nack_one-twice now later pod_name incarnation c a =
    nack_found-twice now later pod_name _ a a c (segment_for_ack c a) refl
