-- ===== src/Controller/Cycles/Colors.antt =====
-- The colors of operations in `Validate` of pkg/controller/reconciler.go.
use stark8s.Prelude.{
  String, false, Map, insert, lookup-insert, ◌==◌, ==-refl, ==-ne, string_eq, ◌≡◌, ◌≢◌, ◌⊎◌, inl,
  inr, refl, sym, ◌∙◌,
}
use stark8s.Controller.Validate.{Invalid}
use stark8s.Controller.Cycles.{Color, color_of, Visit, then_visit}

pub Color-cases : (c : Color) → (c ≡ Color.white) ⊎ (c ≡ Color.grey) ⊎ (c ≡ Color.black)
Color-cases Color.white = inl refl
Color-cases Color.grey = inr (inl refl)
Color-cases Color.black = inr (inr refl)

pub grey_ne_black : Color.grey ≡ Color.black → ⊥
grey_ne_black p = cc

pub white_ne_black : Color.white ≡ Color.black → ⊥
white_ne_black p = cc

pub grey_ne_white : Color.grey ≡ Color.white → ⊥
grey_ne_white p = cc

pub fault_ne_colored : {e : Invalid} {cs : Map String Color} → Visit.fault e ≡ Visit.colored cs → ⊥
fault_ne_colored p = cc

pub colored-inj : {cs ds : Map String Color} → Visit.colored cs ≡ Visit.colored ds → cs ≡ ds
colored-inj p = cc

pub color-insert_self :
    (cs : Map String Color) (n : String) (k : Color) → color_of (insert cs n k) n ≡ k
color-insert_self cs n k = rw (lookup-insert cs n k n, ==-refl n) refl

pub color-insert_ne :
    (cs : Map String Color) (n x : String) (k : Color)
    → n ≢ x
    → color_of (insert cs n k) x ≡ color_of cs x
color-insert_ne cs n x k h = rw (lookup-insert cs n k x, ==-ne n x h) refl

pub color-insert_other :
    (cs : Map String Color) (n x : String) (k : Color)
    → (n == x) ≡ false
    → color_of (insert cs n k) x ≡ color_of cs x
color-insert_other cs n x k h = rw (lookup-insert cs n k x, h) refl

-- The visits that come back have gone on from each other.
pub then_visit-colored :
    (v : Visit) (f : Map String Color → Visit) (ds : Map String Color)
    → then_visit v f ≡ Visit.colored ds
    → (cs : Map String Color) × (v ≡ Visit.colored cs) × (f cs ≡ Visit.colored ds)
then_visit-colored (Visit.colored cs) f ds h = (cs, refl, h)
then_visit-colored (Visit.fault e) f ds h = absurd (fault_ne_colored h)

-- What is not white keeps its colour.
abbrev pub Kept : Map String Color → Map String Color → Type 0
Kept cs ds = (x : String) → color_of cs x ≢ Color.white → color_of ds x ≡ color_of cs x

pub Kept_trans : (cs ds es : Map String Color) → Kept cs ds → Kept ds es → Kept cs es
Kept_trans cs ds es h k x n = k x (λ e. n (sym (h x n) ∙ e)) ∙ h x n
