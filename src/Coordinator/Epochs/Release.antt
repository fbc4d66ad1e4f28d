-- ===== src/Coordinator/Epochs/Release.antt =====
-- What `advanceEpoch` of pkg/coordinator/coordinator.go does to the segments that are held.
use stark8s.Prelude.{
  ℕ, ℤ, ◌<◌, pos_part, Bool, true, false, not, ◌&&◌, List, [], ◌∷◌, ◌++◌, keep, length, get_or, set,
  get_or-set_self, get_or-set_ne, length-set, inc32, append-nil, append_assoc, nat_beq, Bool-cases,
  ◌==◌, string_eq, int_eq, nat_eq, if◌then◌else◌, inl, inr, subst, ◌≡◌, refl, sym, ap, ◌∙◌, arith,
}
use stark8s.Coordinator.State.{Segment, Channel}
use stark8s.Graph.{is_broadcast}
use stark8s.Coordinator.Channels.{broadcast, enqueue}
use stark8s.Coordinator.Epochs.{release_held, advance_epoch, next_epoch}

-- The segments of a list that belong to an epoch, those that do not, and those of one partition.
abbrev of_epoch : (ℕ → Segment) → ℤ → List ℕ → List ℕ
of_epoch heap e = keep (λ p. (heap p).epoch == e)

abbrev not_of_epoch : (ℕ → Segment) → ℤ → List ℕ → List ℕ
not_of_epoch heap e = keep (λ p. not ((heap p).epoch == e))

-- The segments of one epoch and one partition.
abbrev of_queue : (ℕ → Segment) → ℤ → ℕ → List ℕ → List ℕ
of_queue heap e q = keep (λ p. (heap p).epoch == e && nat_beq (pos_part (heap p).part) q)

-- What stays as it is when held segments are released.
abbrev SameStore : Channel → Channel → Type 0
SameStore c c' =
    (c'.heap ≡ c.heap)
    × (c'.epoch ≡ c.epoch)
    × (c'.spec ≡ c.spec)
    × (length c'.queues ≡ length c.queues)

abbrev Released : (ℕ → Segment) → ℤ → Channel → List ℕ → Channel → Type 0
Released heap e c ps c' =
    (c'.held ≡ c.held ++ not_of_epoch heap e ps)
    × (broadcast c ≡ true → c'.log ≡ c.log ++ of_epoch heap e ps)
    × (broadcast c ≡ false
        → (q : ℕ) → q < length c.queues
        → get_or c'.queues q [] ≡ get_or c.queues q [] ++ of_queue heap e q ps)

enqueue-same : (c : Channel) (p : ℕ) → SameStore c (enqueue c p) × ((enqueue c p).held ≡ c.held)
unfolding enqueue
enqueue-same c p = elim (Bool-cases (broadcast c)) [
  | inl b ↦ rw b ((refl, refl, refl, refl), refl)
  | inr b ↦ rw b ((refl, refl, refl, length-set c.queues (pos_part (c.heap p).part) _), refl)
]

enqueue-log : (c : Channel) (p : ℕ) → broadcast c ≡ true → (enqueue c p).log ≡ c.log ++ p ∷ []
unfolding enqueue
enqueue-log c p b = rw b refl

enqueue-queue :
    (c : Channel) (p q : ℕ)
    → broadcast c ≡ false
    → q < length c.queues
    → get_or (enqueue c p).queues q []
      ≡ get_or c.queues q [] ++ (if nat_beq (pos_part (c.heap p).part) q then p ∷ [] else [])
unfolding enqueue
enqueue-queue c p q b h = elim (Bool-cases (nat_beq (pos_part (c.heap p).part) q)) [
  | inl same ↦
      rw (b, same)
        (subst
          (λ n.
            get_or (set c.queues n (get_or c.queues n [] ++ p ∷ [])) q []
            ≡ get_or c.queues q [] ++ p ∷ [])
          (ground (arith, same)) (get_or-set_self c.queues q _ [] h))
  | inr other ↦
      rw (b, other)
        (get_or-set_ne c.queues (pos_part (c.heap p).part) q _ [] (ground (arith, other))
          ∙ sym (append-nil _))
]

-- One more held segment, released or kept.
abbrev step : Channel → ℕ → Channel
step c p = if (c.heap p).epoch == c.epoch then enqueue c p else record c { held = c.held ++ p ∷ [] }

step-Released :
    (c : Channel) (p : ℕ) → Released c.heap c.epoch c (p ∷ []) (step c p) × SameStore c (step c p)
step-Released c p = elim (Bool-cases ((c.heap p).epoch == c.epoch)) [
  | inl now ↦ rw now (
    ((enqueue-same c p).1 ∙ sym (append-nil _), enqueue-log c p, λ b q h. enqueue-queue c p q b h),
    (enqueue-same c p).0,
  )
  | inr later ↦
      rw later
        ((refl, λ b. sym (append-nil _), λ b q h. sym (append-nil _)), (refl, refl, refl, refl))
]

keep-cons {ℓ} :
    {A : Type ℓ} (f : A → Bool) (x : A) (xs : List A)
    → keep f (x ∷ xs) ≡ keep f (x ∷ []) ++ keep f xs
keep-cons f x xs = elim (Bool-cases (f x)) [ inl t ↦ rw t refl | inr t ↦ rw t refl ]

join {ℓ} :
    {A : Type ℓ} (f : A → Bool) (x : A) (xs as' bs cs : List A)
    → bs ≡ as' ++ keep f (x ∷ [])
    → cs ≡ bs ++ keep f xs
    → cs ≡ as' ++ keep f (x ∷ xs)
join f x xs as' bs cs h k =
    k
    ∙ ap (λ l. l ++ keep f xs) h
    ∙ append_assoc as' (keep f (x ∷ [])) (keep f xs)
    ∙ ap (λ l. as' ++ l) (sym (keep-cons f x xs))

Released-cons :
    (heap : ℕ → Segment) (e : ℤ) (c c1 c2 : Channel) (p : ℕ) (ps : List ℕ)
    → Released heap e c (p ∷ []) c1
    → SameStore c c1
    → Released heap e c1 ps c2
    → Released heap e c (p ∷ ps) c2
Released-cons heap e c c1 c2 p ps (h, l, q) (sh, se, ss, sq) (h', l', q') = (
  join (λ s. not ((heap s).epoch == e)) p ps c.held c1.held c2.held h h',
  λ b.
      join (λ s. (heap s).epoch == e) p ps c.log c1.log c2.log (l b)
        (l' (ap (λ s. is_broadcast s.partitioning.mode) ss ∙ b)),
  λ b i r.
      join (λ s. (heap s).epoch == e && nat_beq (pos_part (heap s).part) i) p ps
        (get_or c.queues i []) (get_or c1.queues i []) (get_or c2.queues i []) (q b i r)
        (q' (ap (λ s. is_broadcast s.partitioning.mode) ss ∙ b) i (omega (arith, sq))),
)

release_held-Released :
    (ps : List ℕ) (c : Channel)
    → Released c.heap c.epoch c ps (release_held ps c) × SameStore c (release_held ps c)
unfolding release_held
release_held-Released [] c = (
  (sym (append-nil _), λ b. sym (append-nil _), λ b q h. sym (append-nil _)),
  (refl, refl, refl, refl),
)
release_held-Released (p ∷ ps) c =
    let (one, same) = step-Released c p in
    let (rest, same') = release_held-Released ps (step c p) in
    (
      Released-cons c.heap c.epoch c (step c p) (release_held ps (step c p)) p ps one same (
          subst (λ e. Released c.heap e (step c p) ps (release_held ps (step c p))) same.1
            (subst (λ h. Released h (step c p).epoch (step c p) ps (release_held ps (step c p)))
              same.0 rest)),
      (same'.0 ∙ same.0, same'.1 ∙ same.1, same'.2 ∙ same.2, same'.3 ∙ same.3),
    )

-- The step to the next epoch: the held segments of the next epoch go, in their order, to the log of
-- a broadcast channel and to the end of the queues of the others; the rest stays held; and the
-- segments themselves stay as they were.
pub advance_epoch-releases :
    (c : Channel)
    → let c' = advance_epoch c in
      let e = inc32 c.epoch in
      (c'.epoch ≡ e)
      × (c'.heap ≡ c.heap)
      × (c'.held ≡ keep (λ p. not ((c.heap p).epoch == e)) c.held)
      × (broadcast c ≡ true → c'.log ≡ c.log ++ keep (λ p. (c.heap p).epoch == e) c.held)
      × (broadcast c ≡ false
          → (q : ℕ) → q < length c.queues
          → get_or c'.queues q []
            ≡ get_or c.queues q []
              ++ keep (λ p. (c.heap p).epoch == e && nat_beq (pos_part (c.heap p).part) q) c.held)
unfolding advance_epoch
advance_epoch-releases c =
    let (released, same) = release_held-Released c.held (record (next_epoch c) { held = [] }) in
    (same.1, same.0, released.0, released.1, released.2)
