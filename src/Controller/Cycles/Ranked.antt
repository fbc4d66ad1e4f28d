-- ===== src/Controller/Cycles/Ranked.antt =====
-- `Validate` of pkg/controller/reconciler.go: what it accepts has no cycle of channels without feedback.
use stark8s.Prelude.{
  All-map, ℕ, zero, suc, ◌<◌, String, List, [], ◌∷◌, Map, insert, ◌==◌, ==-refl, eq_of_==,
  if◌then◌else◌, string_eq, ◌≡◌, ◌≢◌, inl, inr, refl, sym, ap, subst, ◌∙◌, Bool-cases, All, arith,
}
use stark8s.Graph.{ChannelSpec}
use stark8s.Controller.Cycles.{
  Color, color_of, Visit, visit_next, visit_each, visit, visit_if_white, visit_roots, blacken,
  adjacent,
}
use stark8s.Controller.Cycles.Colors.{
  Color-cases, grey_ne_black, white_ne_black, grey_ne_white, fault_ne_colored, colored-inj,
  color-insert_self, color-insert_ne, color-insert_other, then_visit-colored, Kept, Kept_trans,
}

module _ (chs : List ChannelSpec) where
  -- The black operations have ranks, and each edge from one leads to a black one of a lower rank.
  pub record IsRanked (cs : Map String Color) : Type 0 where
    pub rank : String → ℕ
    pub bound : ℕ
    pub below : (n : String) → color_of cs n ≡ Color.black → rank n < bound
    pub falls :
        (n : String)
        → color_of cs n ≡ Color.black
        → All (λ m. (color_of cs m ≡ Color.black) × (rank m < rank n)) (adjacent chs n)

  -- What is known when a visit comes back.
  pub record Visited (n : String) (cs ds : Map String Color) : Type 0 where
    pub kept : Kept cs ds
    pub no_new_grey : (x : String) → color_of ds x ≡ Color.grey → color_of cs x ≡ Color.grey
    pub blackened : color_of ds n ≡ Color.black
    pub ranked : IsRanked ds

  abbrev pub Visits : (String → Map String Color → Visit) → Type 0
  Visits go =
      (n : String) (cs ds : Map String Color)
      → color_of cs n ≡ Color.white
      → IsRanked cs
      → go n cs ≡ Visit.colored ds
      → Visited n cs ds

  pub visit_next-Visited :
      (go : String → Map String Color → Visit) (n m : String) (cs ds : Map String Color)
      → Visits go
      → IsRanked cs
      → visit_next go n m cs (color_of cs m) ≡ Visit.colored ds
      → Visited m cs ds
  visit_next-Visited go n m cs ds ok r h = elim (Color-cases (color_of cs m)) [
    | inl w ↦ ok m cs ds w r (rw w at h)
    | inr (inl g) ↦ absurd (fault_ne_colored (rw g at h))
    | inr (inr b) ↦
        let e : cs ≡ ds = colored-inj (rw b at h) in
        subst (Visited m cs) e
          (record { kept = λ x k. refl; no_new_grey = λ x k. k; blackened = b; ranked = r })
  ]

  pub record AllVisited (ms : List String) (cs ds : Map String Color) : Type 0 where
    pub kept : Kept cs ds
    pub no_new_grey : (x : String) → color_of ds x ≡ Color.grey → color_of cs x ≡ Color.grey
    pub blackened : All (λ m. color_of ds m ≡ Color.black) ms
    pub ranked : IsRanked ds

  AllVisited-cons :
      (m : String) (ms : List String) (cs es ds : Map String Color)
      → Visited m cs es
      → AllVisited ms es ds
      → AllVisited (m ∷ ms) cs ds
  AllVisited-cons m ms cs es ds v rest = record {
    kept = Kept_trans cs es ds v.kept rest.kept;
    no_new_grey = λ x k. v.no_new_grey x (rest.no_new_grey x k);
    blackened =
        (rest.kept m (λ e. white_ne_black (sym e ∙ v.blackened)) ∙ v.blackened, rest.blackened);
    ranked = rest.ranked;
  }

  visit_each-AllVisited :
      (go : String → Map String Color → Visit) (n : String) (ms : List String)
      (cs ds : Map String Color)
      → Visits go
      → IsRanked cs
      → visit_each go n ms cs ≡ Visit.colored ds
      → AllVisited ms cs ds
  unfolding visit_each
  visit_each-AllVisited go n [] cs ds ok r h =
      subst (AllVisited [] cs) (colored-inj h)
        (record { kept = λ x k. refl; no_new_grey = λ x k. k; blackened = tt; ranked = r })
  visit_each-AllVisited go n (m ∷ ms) cs ds ok r h =
      let t = then_visit-colored (visit_next go n m cs (color_of cs m)) (visit_each go n ms) ds h in
      let v = visit_next-Visited go n m cs t.0 ok r t.1 in
      AllVisited-cons m ms cs t.0 ds v (visit_each-AllVisited go n ms t.0 ds ok v.ranked t.2)

  -- A white operation that turns grey.
  pub grey-IsRanked :
      (cs : Map String Color) (n : String)
      → color_of cs n ≡ Color.white
      → IsRanked cs
      → IsRanked (insert cs n Color.grey)
  grey-IsRanked cs n w r = record {
    rank = r.rank;
    bound = r.bound;
    below = λ x b. r.below x (black_before x b);
    falls = λ x b.
        All-map
          (λ m k. (
            color-insert_ne cs n m Color.grey
                  (λ e. white_ne_black (sym w ∙ ap (color_of cs) e ∙ k.0))
                ∙ k.0,
            k.1,
          ))
          (adjacent chs x) (r.falls x (black_before x b));
  }
    where
      black_before :
          (x : String)
          → color_of (insert cs n Color.grey) x ≡ Color.black
          → color_of cs x ≡ Color.black
      black_before x b = elim (Bool-cases (n == x)) [
        | inl t ↦ absurd (
            grey_ne_black (
              sym (color-insert_self cs n Color.grey)
              ∙ ap (color_of (insert cs n Color.grey)) (eq_of_== n x t)
              ∙ b))
        | inr f ↦ sym (color-insert_other cs n x Color.grey f) ∙ b
      ]

  -- The operation that a visit has finished takes the next rank.
  rank_with : (String → ℕ) → String → ℕ → String → ℕ
  rank_with rank n k x = if n == x then k else rank x

  black-IsRanked :
      (cs : Map String Color) (n : String)
      → color_of cs n ≢ Color.black
      → All (λ m. color_of cs m ≡ Color.black) (adjacent chs n)
      → IsRanked cs
      → IsRanked (insert cs n Color.black)
  unfolding rank_with
  black-IsRanked cs n w adj r = record {
    rank = rank_with r.rank n r.bound;
    bound = suc r.bound;
    below = λ x b. elim (Bool-cases (n == x)) [
      | inl t ↦ rw t (omega arith)
      | inr f ↦
          let lower = r.below x (sym (color-insert_other cs n x Color.black f) ∙ b) in
          rw f (omega (arith, lower))
    ];
    falls = λ x b. elim (Bool-cases (n == x)) [
      | inl t ↦
          subst
            (λ q.
              All
                (λ m.
                  (color_of (insert cs n Color.black) m ≡ Color.black)
                  × (rank_with r.rank n r.bound m < rank_with r.rank n r.bound q))
                (adjacent chs q))
            (eq_of_== n x t)
            (rw (==-refl n) (All-map (λ m k. lower m r.bound k (r.below m k)) (adjacent chs n) adj))
      | inr f ↦ rw f (
          All-map (λ m k. lower m (r.rank x) k.0 k.1) (adjacent chs x)
            (r.falls x (sym (color-insert_other cs n x Color.black f) ∙ b)))
    ];
  }
    where
      lower :
          (m : String) (k : ℕ)
          → color_of cs m ≡ Color.black
          → r.rank m < k
          → (color_of (insert cs n Color.black) m ≡ Color.black)
            × (rank_with r.rank n r.bound m < k)
      lower m k b h = elim (Bool-cases (n == m)) [
        | inl t ↦ absurd (w (ap (color_of cs) (eq_of_== n m t) ∙ b))
        | inr f ↦ (color-insert_other cs n m Color.black f ∙ b, rw f h)
      ]

  pub visit-Visits : (depth : ℕ) → Visits (visit chs depth)
  unfolding visit
  visit-Visits zero n cs ds w r h = absurd (fault_ne_colored h)
  visit-Visits (suc depth) n cs ds w r h =
      let gs = insert cs n Color.grey in
      let t =
        then_visit-colored (visit_each (visit chs depth) n (adjacent chs n) gs) (blacken n) ds h in
      let v =
        visit_each-AllVisited (visit chs depth) n (adjacent chs n) gs t.0 (visit-Visits depth)
          (grey-IsRanked cs n w r) t.1 in
      subst (Visited n cs) (colored-inj t.2) (record {
        kept = λ x k.
            let f : n ≢ x = λ e. k (sym (ap (color_of cs) e) ∙ w) in
            color-insert_ne t.0 n x Color.black f
            ∙ v.kept x (λ e. k (sym (color-insert_ne cs n x Color.grey f) ∙ e))
            ∙ color-insert_ne cs n x Color.grey f;
        no_new_grey = λ x k. elim (Bool-cases (n == x)) [
          | inl e ↦ absurd (
              grey_ne_black (
                sym k
                ∙ sym (ap (color_of (insert t.0 n Color.black)) (eq_of_== n x e))
                ∙ color-insert_self t.0 n Color.black))
          | inr f ↦
              sym (color-insert_other cs n x Color.grey f)
              ∙ v.no_new_grey x (sym (color-insert_other t.0 n x Color.black f) ∙ k)
        ];
        blackened = color-insert_self t.0 n Color.black;
        ranked =
            black-IsRanked t.0 n
              (λ e. grey_ne_black (
                sym (color-insert_self cs n Color.grey)
                ∙ sym
                    (v.kept n (λ e'. grey_ne_white (sym (color-insert_self cs n Color.grey) ∙ e')))
                ∙ e))
              v.blackened v.ranked;
      })

  pub visit_if_white-Visited :
      (go : String → Map String Color → Visit) (n : String) (cs ds : Map String Color)
      → Visits go
      → IsRanked cs
      → color_of cs n ≢ Color.grey
      → visit_if_white go n cs (color_of cs n) ≡ Visit.colored ds
      → Visited n cs ds
  visit_if_white-Visited go n cs ds ok r g h = elim (Color-cases (color_of cs n)) [
    | inl w ↦ ok n cs ds w r (rw w at h)
    | inr (inl e) ↦ absurd (g e)
    | inr (inr b) ↦
        let e : cs ≡ ds = colored-inj (rw b at h) in
        subst (Visited n cs) e
          (record { kept = λ x k. refl; no_new_grey = λ x k. k; blackened = b; ranked = r })
  ]

  pub visit_roots-AllVisited :
      (go : String → Map String Color → Visit) (ns : List String) (cs ds : Map String Color)
      → Visits go
      → IsRanked cs
      → ((x : String) → color_of cs x ≢ Color.grey)
      → visit_roots go ns cs ≡ Visit.colored ds
      → AllVisited ns cs ds
  unfolding visit_roots
  visit_roots-AllVisited go [] cs ds ok r g h =
      subst (AllVisited [] cs) (colored-inj h)
        (record { kept = λ x k. refl; no_new_grey = λ x k. k; blackened = tt; ranked = r })
  visit_roots-AllVisited go (n ∷ ns) cs ds ok r g h =
      let t =
        then_visit-colored (visit_if_white go n cs (color_of cs n)) (visit_roots go ns) ds h in
      let v = visit_if_white-Visited go n cs t.0 ok r (g n) t.1 in
      AllVisited-cons n ns cs t.0 ds v
        (visit_roots-AllVisited go ns t.0 ds ok v.ranked (λ x e. g x (v.no_new_grey x e)) t.2)
