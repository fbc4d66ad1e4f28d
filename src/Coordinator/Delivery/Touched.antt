-- ===== src/Coordinator/Delivery/Touched.antt =====
-- Steps of pkg/coordinator/coordinator.go that concern one segment of a channel: the rest of the
-- channel stays.
use stark8s.Prelude.{
  ℕ, ◌≤◌, pos_part, String, true, not, ◌&&◌, none, List, [], ◌∷◌, is_empty, length, get_or, lookup,
  delete, lookup-delete_ne, contains, remove_key, is_some, Bool-cases, string_eq, ◌≢◌, inl, inr,
  ◌≡◌, refl, sym, subst, ap, ◌∙◌, arith,
}
use stark8s.Coordinator.State.{Segment, Channel, update_segment}
use stark8s.Graph.{is_retained}
use stark8s.Coordinator.Names.{segment_key}
use stark8s.Coordinator.Channels.{contains_segment}
use stark8s.Coordinator.Settle.{release}
use stark8s.Coordinator.Acks.{drop_if_idle}
use stark8s.Coordinator.Delivery.{key_of, Place, PlaceAt, IsAccounted, write-ne, write_self}

pub remove_key-length : (xs : List String) (a : String) → length (remove_key xs a) ≤ length xs
remove_key-length [] a = omega arith
remove_key-length (x ∷ xs) a = ground (arith, remove_key-length xs a)

-- A list of at most one key, without that key.
pub remove_only :
    (xs : List String) (a : String) → length xs ≤ 1 → contains xs a ≡ true → remove_key xs a ≡ []
remove_only [] a h m = refl
remove_only (x ∷ []) a h m = ground arith
remove_only (x ∷ y ∷ ys) a h m = absurd (omega arith)

-- A segment that a process holds is in no queue.
pub held-free :
    (c : Channel) (i p x : ℕ) (owned : String)
    → IsAccounted c
    → contains (c.heap p).delivered owned ≡ true
    → contains_segment (get_or c.queues i []) x ≡ true
    → p ≢ x
held-free c i p x owned h m q e = absurd (
    ground (
      arith,
      sym m
          ∙ ap (λ z. contains (c.heap z).delivered owned) e
          ∙ ap (λ l. contains l owned) (h.queued i x q).3,
    ))

-- A step that concerns one segment, which keeps its key.
pub record Touches (c : Channel) (p : ℕ) (c' : Channel) : Type 0 where
  pub elsewhere : (x : ℕ) → p ≢ x → c'.heap x ≡ c.heap x
  pub same_key : key_of c' p ≡ key_of c p
  pub same_part : (c'.heap p).part ≡ (c.heap p).part
  pub fewer : length (c'.heap p).delivered ≤ length (c.heap p).delivered
  pub same_fresh : c'.fresh ≡ c.fresh
  pub same_queues : c'.queues ≡ c.queues
  pub same_held : c'.held ≡ c.held
  pub same_index : (k : String) → key_of c p ≢ k → lookup c'.index k ≡ lookup c.index k
  pub same_inflight : (k : String) → key_of c p ≢ k → lookup c'.inflight k ≡ lookup c.inflight k

pub Touches-trans : (a b c : Channel) (p : ℕ) → Touches a p b → Touches b p c → Touches a p c
Touches-trans a b c p s t = record {
  elsewhere = λ x ne. t.elsewhere x ne ∙ s.elsewhere x ne;
  same_key = t.same_key ∙ s.same_key;
  same_part = t.same_part ∙ s.same_part;
  fewer = omega (arith, s.fewer, t.fewer);
  same_fresh = t.same_fresh ∙ s.same_fresh;
  same_queues = t.same_queues ∙ s.same_queues;
  same_held = t.same_held ∙ s.same_held;
  same_index = λ k ne. t.same_index k (λ e. ne (sym s.same_key ∙ e)) ∙ s.same_index k ne;
  same_inflight = λ k ne. t.same_inflight k (λ e. ne (sym s.same_key ∙ e)) ∙ s.same_inflight k ne;
}

pub update-Touches :
    (c : Channel) (p : ℕ) (f : Segment → Segment)
    → segment_key (f (c.heap p)).holder (f (c.heap p)).id ≡ key_of c p
    → (f (c.heap p)).part ≡ (c.heap p).part
    → length (f (c.heap p)).delivered ≤ length (c.heap p).delivered
    → Touches c p (update_segment c p f)
update-Touches c p f k part fewer = record {
  elsewhere = λ x ne. write-ne c.heap p (f (c.heap p)) x ne;
  same_key = ap (λ s. segment_key s.holder s.id) (write_self c.heap p (f (c.heap p))) ∙ k;
  same_part = ap (λ s. s.part) (write_self c.heap p (f (c.heap p))) ∙ part;
  fewer = rw (write_self c.heap p (f (c.heap p))) fewer;
  same_fresh = refl;
  same_queues = refl;
  same_held = refl;
  same_index = λ k ne. refl;
  same_inflight = λ k ne. refl;
}

pub drop_if_idle-Touches : (c : Channel) (p : ℕ) → Touches c p (drop_if_idle c p)
drop_if_idle-Touches c p = elim (Bool-cases (is_empty (c.heap p).delivered)) [
  | inl idle ↦ rw idle (record {
    elsewhere = λ x ne. refl;
    same_key = refl;
    same_part = refl;
    fewer = omega arith;
    same_fresh = refl;
    same_queues = refl;
    same_held = refl;
    same_index = λ k ne. refl;
    same_inflight = λ k ne. lookup-delete_ne c.inflight (key_of c p) k ne;
  })
  | inr busy ↦ rw busy (record {
    elsewhere = λ x ne. refl;
    same_key = refl;
    same_part = refl;
    fewer = omega arith;
    same_fresh = refl;
    same_queues = refl;
    same_held = refl;
    same_index = λ k ne. refl;
    same_inflight = λ k ne. refl;
  })
]

unindex-Touches :
    (c : Channel) (p : ℕ) (k : String)
    → k ≡ key_of c p
    → Touches c p (record c { index = delete c.index k })
unindex-Touches c p k e = record {
  elsewhere = λ x ne. refl;
  same_key = refl;
  same_part = refl;
  fewer = omega arith;
  same_fresh = refl;
  same_queues = refl;
  same_held = refl;
  same_index = λ k' ne. lookup-delete_ne c.index k k' (λ e'. ne (sym e ∙ e'));
  same_inflight = λ k' ne. refl;
}

pub release-Touches :
    (c : Channel) (p : ℕ) → Touches c p (release c p) × (((release c p).heap p).released ≡ true)
unfolding release
release-Touches c p =
    let c1 = update_segment c p (λ s. record s { released = true }) in
    let c2 = update_segment c1 p (λ s. record s { payload = none }) in
    let one = update-Touches c p (λ s. record s { released = true }) refl refl (omega arith) in
    let two = update-Touches c1 p (λ s. record s { payload = none }) refl refl (omega arith) in
    let both = Touches-trans c c1 c2 p one two in
    elim (Bool-cases (is_some (c.heap p).payload && not (is_retained c.spec.durability))) [
      | inl dropped ↦ rw dropped (
        Touches-trans c c2 (record c2 { index = delete c.index (key_of c p) }) p both
            (unindex-Touches c2 p (key_of c p) (sym both.same_key)),
        ap (λ s. s.released) (write_self c1.heap p (record (c1.heap p) { payload = none }))
            ∙ ap (λ s. s.released) (write_self c.heap p (record (c.heap p) { released = true })),
      )
      | inr kept ↦
          rw kept (
            one,
            ap (λ s. s.released) (write_self c.heap p (record (c.heap p) { released = true })),
          )
    ]

-- A segment with another key stays where it is.
pub kept-Place :
    (c c' : Channel) (p x : ℕ)
    → Touches c p c'
    → key_of c p ≢ key_of c x
    → Place c x
    → PlaceAt c' (c.heap x).part (key_of c x) x
kept-Place c c' p x t ne (inl q) = inl (
    subst (λ qs. contains_segment (get_or qs (pos_part (c.heap x).part) []) x ≡ true)
      (sym t.same_queues) q)
kept-Place c c' p x t ne (inr (inl held)) =
    inr (inl (subst (λ hs. contains_segment hs x ≡ true) (sym t.same_held) held))
kept-Place c c' p x t ne (inr (inr flying)) = inr (inr (t.same_inflight (key_of c x) ne ∙ flying))
