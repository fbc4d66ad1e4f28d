-- ===== src/Coordinator/Recovery/Rebound.antt =====
-- `rebindHeldSegments` of pkg/coordinator/coordinator.go: where the segments are afterwards.
use stark8s.Prelude.{
  ℕ, String, Bool, true, false, not, ◌||◌, [], ◌∷◌, Map, values, nat_beq, insert, delete, is_some,
  ◌==◌, eq_of_==, if◌then◌else◌, if_true, if_false, string_eq, Bool-cases, inl, inr, ◌≡◌, refl, sym,
  ap, ◌∙◌, arith,
}
use stark8s.Coordinator.State.{Segment, Channel, write_cell}
use stark8s.Coordinator.Names.{segment_key}
use stark8s.Coordinator.Channels.{contains_segment}
use stark8s.Coordinator.Recovery.{move_inflight, rebind_segment, rebind_all}

-- A segment whose records the coordinator has is held at its address.
abbrev pub rehomed : String → Segment → Segment
rehomed self_addr s = if is_some s.payload then record s { holder = self_addr } else s

module _ (self_addr : String) where
  pub rehomed_twice : (s : Segment) → rehomed self_addr (rehomed self_addr s) ≡ rehomed self_addr s
  rehomed_twice s = elim (Bool-cases (is_some s.payload)) [
    | inl t ↦
        ap (rehomed self_addr) (if_true (is_some s.payload) _ _ t)
        ∙ if_true (is_some s.payload) _ _ t
        ∙ sym (if_true (is_some s.payload) _ _ t)
    | inr t ↦ ap (rehomed self_addr) (if_false (is_some s.payload) _ _ t)
  ]

  either_of :
      (a b : Bool) (s : Segment)
      → (if b
          then rehomed self_addr (if a then rehomed self_addr s else s)
          else (if a then rehomed self_addr s else s))
        ≡ (if a || b then rehomed self_addr s else s)
  either_of true true s = rehomed_twice s
  either_of true false s = refl
  either_of false true s = refl
  either_of false false s = refl

  -- Whether `rebindHeldSegments` leaves a segment alone.
  abbrev pub stays : Segment → Bool
  stays s = not (is_some s.payload) || s.holder == self_addr

  pub rehomed-stays : (s : Segment) → stays s ≡ true → rehomed self_addr s ≡ s
  rehomed-stays s h = elim (Bool-cases (is_some s.payload)) [
    | inr t ↦ if_false (is_some s.payload) _ _ t
    | inl t ↦
        if_true (is_some s.payload) _ _ t
        ∙ ap (λ i. record s { holder = i }) (sym (eq_of_== s.holder self_addr (ground arith)))
  ]

  pub rehomed-moves :
      (s : Segment) → stays s ≡ false → rehomed self_addr s ≡ record s { holder = self_addr }
  rehomed-moves s h = if_true (is_some s.payload) _ _ (ground arith)

  abbrev pub moved : String → ℕ → Channel → Channel
  moved key p c = record c {
    heap = write_cell c.heap p (record (c.heap p) { holder = self_addr });
    inflight = move_inflight key (segment_key self_addr (c.heap p).id) p c.inflight;
    index = insert (delete c.index key) (segment_key self_addr (c.heap p).id) p;
  }

  pub rebind_segment-stays :
      (key : String) (p : ℕ) (c : Channel)
      → stays (c.heap p) ≡ true
      → rebind_segment self_addr key p c ≡ c
  rebind_segment-stays key p c h = if_true (stays (c.heap p)) _ _ h

  pub rebind_segment-moves :
      (key : String) (p : ℕ) (c : Channel)
      → stays (c.heap p) ≡ false
      → rebind_segment self_addr key p c ≡ moved key p c
  rebind_segment-moves key p c h = if_false (stays (c.heap p)) _ _ h

  pub rebind_segment-heap :
      (key : String) (p : ℕ) (c : Channel) (x : ℕ)
      → (rebind_segment self_addr key p c).heap x
        ≡ (if nat_beq p x then rehomed self_addr (c.heap x) else c.heap x)
  rebind_segment-heap key p c x = elim (Bool-cases (nat_beq p x)) [
    | inr other ↦ elim (Bool-cases (stays (c.heap p))) [
      | inl t ↦
          ap (λ q. q.heap x) (rebind_segment-stays key p c t)
          ∙ sym (if_false (nat_beq p x) _ _ other)
      | inr t ↦
          ap (λ q. q.heap x) (rebind_segment-moves key p c t)
          ∙ if_false (nat_beq p x) _ _ other
          ∙ sym (if_false (nat_beq p x) _ _ other)
    ]
    | inl same ↦
        let e : p ≡ x = ground (arith, same) in
        elim (Bool-cases (stays (c.heap p))) [
          | inl t ↦
              ap (λ q. q.heap x) (rebind_segment-stays key p c t)
              ∙ sym (rehomed-stays (c.heap x) (ap (λ i. stays (c.heap i)) (sym e) ∙ t))
              ∙ sym (if_true (nat_beq p x) _ _ same)
          | inr t ↦
              ap (λ q. q.heap x) (rebind_segment-moves key p c t)
              ∙ if_true (nat_beq p x) _ _ same
              ∙ sym (rehomed-moves (c.heap p) t)
              ∙ ap (λ i. rehomed self_addr (c.heap i)) e
              ∙ sym (if_true (nat_beq p x) _ _ same)
        ]
  ]

  -- After the loop, the segments of the entries are rehomed, and the others are as they were.
  pub rebind_all-heap :
      (m : Map String ℕ) (c : Channel) (x : ℕ)
      → (rebind_all self_addr m c).heap x
        ≡ (if contains_segment (values m) x then rehomed self_addr (c.heap x) else c.heap x)
  rebind_all-heap [] c x = refl
  rebind_all-heap ((key, p) ∷ m) c x =
      rebind_all-heap m (rebind_segment self_addr key p c) x
      ∙ ap (λ s. if contains_segment (values m) x then rehomed self_addr s else s)
          (rebind_segment-heap key p c x)
      ∙ either_of (nat_beq p x) (contains_segment (values m) x) (c.heap x)

  -- What neither depends on holders nor is a segment stays.
  abbrev pub rest_of : Channel → Channel → Channel
  rest_of d c = record c { heap = d.heap; index = d.index; inflight = d.inflight }

  rebind_segment-rest :
      (key : String) (p : ℕ) (d c : Channel)
      → rest_of d (rebind_segment self_addr key p c) ≡ rest_of d c
  rebind_segment-rest key p d c = elim (Bool-cases (stays (c.heap p))) [
    | inl t ↦ ap (rest_of d) (rebind_segment-stays key p c t)
    | inr t ↦ ap (rest_of d) (rebind_segment-moves key p c t)
  ]

  pub rebind_all-rest :
      (m : Map String ℕ) (d c : Channel) → rest_of d (rebind_all self_addr m c) ≡ rest_of d c
  rebind_all-rest [] d c = refl
  rebind_all-rest ((key, p) ∷ m) d c =
      rebind_all-rest m d (rebind_segment self_addr key p c) ∙ rebind_segment-rest key p d c
