-- ===== src/Controller/Cycles/Counted.antt =====
-- `Validate` of pkg/controller/reconciler.go: the operations that its search has not met.
use stark8s.Prelude.{
  ℕ, suc, ◌+◌, ◌≤◌, String, true, false, List, [], ◌∷◌, contains, Map, insert, ◌==◌, ==-refl,
  eq_of_==, string_eq, ◌≡◌, ◌≢◌, inl, inr, refl, sym, ap, ◌∙◌, Bool-cases, arith,
}
use stark8s.Controller.Validate.{Invalid}
use stark8s.Controller.Cycles.{Color, color_of, Visit, then_visit}
use stark8s.Controller.Cycles.Colors.{
  Color-cases, color-insert_self, color-insert_ne, Kept, grey_ne_white,
}

abbrev one_if_white : Color → ℕ
one_if_white Color.white = 1
one_if_white _ = 0

-- How many operations are white.
abbrev pub whites : List String → Map String Color → ℕ
whites [] cs = 0
whites (n ∷ ns) cs = one_if_white (color_of cs n) + whites ns cs

false_ne_true : false ≡ true → ⊥
false_ne_true p = cc

black_ne_white : Color.black ≡ Color.white → ⊥
black_ne_white p = cc

false-ne : (a b : String) → (a == b) ≡ false → a ≢ b
false-ne a b f e = false_ne_true (sym f ∙ ap (λ q. q == b) e ∙ ==-refl b)

pub at_most_one : (c : Color) → one_if_white c ≤ 1
at_most_one Color.white = omega arith
at_most_one Color.grey = omega arith
at_most_one Color.black = omega arith

one-Kept :
    (cs ds : Map String Color) (n : String)
    → Kept cs ds
    → one_if_white (color_of ds n) ≤ one_if_white (color_of cs n)
one-Kept cs ds n k = elim (Color-cases (color_of cs n)) [
  | inl w ↦ rw w (at_most_one (color_of ds n))
  | inr (inl g) ↦ rw (k n (λ e. grey_ne_white (sym g ∙ e))) (omega arith)
  | inr (inr b) ↦ rw (k n (λ e. black_ne_white (sym b ∙ e))) (omega arith)
]

pub whites-Kept :
    (ns : List String) (cs ds : Map String Color) → Kept cs ds → whites ns ds ≤ whites ns cs
whites-Kept [] cs ds k = omega arith
whites-Kept (n ∷ ns) cs ds k = omega (arith, whites-Kept ns cs ds k, one-Kept cs ds n k)

grey-Kept :
    (cs : Map String Color) (n : String)
    → color_of cs n ≡ Color.white
    → Kept cs (insert cs n Color.grey)
grey-Kept cs n w x k = color-insert_ne cs n x Color.grey (λ e. k (sym (ap (color_of cs) e) ∙ w))

pub whites_fall :
    (ns : List String) (cs : Map String Color) (n : String)
    → color_of cs n ≡ Color.white
    → contains ns n ≡ true
    → suc (whites ns (insert cs n Color.grey)) ≤ whites ns cs
whites_fall [] cs n w h = absurd (false_ne_true h)
whites_fall (x ∷ ns) cs n w h = elim (Bool-cases (x == n)) [
  | inl t ↦
      let rest = whites-Kept ns cs (insert cs n Color.grey) (grey-Kept cs n w) in
      rw (eq_of_== x n t, color-insert_self cs n Color.grey, w) (omega (arith, rest))
  | inr f ↦
      let rest = whites_fall ns cs n w (rw f at h) in
      rw (color-insert_ne cs n x Color.grey (λ e. false-ne x n f (sym e))) (omega (arith, rest))
]

-- The visit is not cut off.
abbrev pub Ends : Visit → Type 0
Ends v = v ≢ Visit.fault Invalid.too_deep

pub then_visit-Ends :
    (v : Visit) (f : Map String Color → Visit)
    → Ends v
    → ((cs : Map String Color) → v ≡ Visit.colored cs → Ends (f cs))
    → Ends (then_visit v f)
then_visit-Ends (Visit.colored cs) f h k = k cs refl
then_visit-Ends (Visit.fault e) f h k = h

pub colored-Ends : (cs : Map String Color) → Ends (Visit.colored cs)
colored-Ends cs p = cc

pub cycle-Ends : (n m : String) → Ends (Visit.fault (Invalid.unbroken_cycle n m))
cycle-Ends n m p = cc
