-- ===== src/Prelude/Lists.antt =====
-- Lists measured and indexed by native numbers, Boolean searches, and sets of keys as lists.
use Prim.Native.Nat.{◌≤◌, ℕ, zero, suc, ◌+◌, ◌<◌}
use Prim.Native.Nat.add
use mathlib.Core.Path.{◌≡◌, refl, ap}
use mathlib.Core.Logic.{◌⊎◌, inl, inr, ◌≢◌}
use mathlib.Core.Bool.{Bool, true, false, ◌&&◌, ◌||◌}
use mathlib.Core.List.{List, [], ◌∷◌, ◌++◌}
use mathlib.Core.Option.{Option, none, some}
use native.Mathlib.Omega.{arith}
use stark8s.Prelude.Tests.{Key, ◌==◌, if◌then◌else◌, ==-refl, ==-ne}

module _ {ℓ} {A : Type ℓ} where
  abbrev pub length : List A → ℕ
  length [] = 0
  length (x ∷ xs) = suc (length xs)

  abbrev pub is_empty : List A → Bool
  is_empty [] = true
  is_empty (x ∷ xs) = false

  abbrev pub get_elem? : List A → ℕ → Option A
  get_elem? [] i = none
  get_elem? (x ∷ xs) zero = some x
  get_elem? (x ∷ xs) (suc i) = get_elem? xs i

  abbrev pub get_or : List A → ℕ → A → A
  get_or [] i d = d
  get_or (x ∷ xs) zero d = x
  get_or (x ∷ xs) (suc i) d = get_or xs i d

  abbrev pub set : List A → ℕ → A → List A
  set [] i v = []
  set (x ∷ xs) zero v = v ∷ xs
  set (x ∷ xs) (suc i) v = x ∷ set xs i v

  abbrev pub take : ℕ → List A → List A
  take zero xs = []
  take (suc n) [] = []
  take (suc n) (x ∷ xs) = x ∷ take n xs

  abbrev pub drop : ℕ → List A → List A
  drop zero xs = xs
  drop (suc n) [] = []
  drop (suc n) (x ∷ xs) = drop n xs

  abbrev pub replicate : ℕ → A → List A
  replicate zero a = []
  replicate (suc n) a = a ∷ replicate n a

  -- The elements that pass a test.
  abbrev pub keep : (A → Bool) → List A → List A
  keep f [] = []
  keep f (x ∷ xs) = let rest = keep f xs in if f x then x ∷ rest else rest

  abbrev pub any : (A → Bool) → List A → Bool
  any f [] = false
  any f (x ∷ xs) = f x || any f xs

  abbrev pub all : (A → Bool) → List A → Bool
  all f [] = true
  all f (x ∷ xs) = f x && all f xs

  -- A predicate on each element.
  abbrev pub All {κ} : (A → Type κ) → List A → Type κ
  All P [] = Unit
  All P (x ∷ xs) = P x × All P xs

  pub length-append : (xs ys : List A) → length (xs ++ ys) ≡ length xs + length ys
  length-append [] ys = omega arith
  length-append (x ∷ xs) ys = omega (arith, length-append xs ys)

  pub length-set : (xs : List A) (i : ℕ) (v : A) → length (set xs i v) ≡ length xs
  length-set [] i v = refl
  length-set (x ∷ xs) zero v = refl
  length-set (x ∷ xs) (suc i) v = ap suc (length-set xs i v)

  pub get_or-set_self :
      (xs : List A) (i : ℕ) (v d : A) → i < length xs → get_or (set xs i v) i d ≡ v
  get_or-set_self [] i v d h = elim h [ ]
  get_or-set_self (x ∷ xs) zero v d h = refl
  get_or-set_self (x ∷ xs) (suc i) v d h = get_or-set_self xs i v d (omega arith)

  pub get_or-set_ne :
      (xs : List A) (i j : ℕ) (v d : A) → i ≢ j → get_or (set xs i v) j d ≡ get_or xs j d
  get_or-set_ne [] i j v d h = refl
  get_or-set_ne (x ∷ xs) zero zero v d h = absurd (h refl)
  get_or-set_ne (x ∷ xs) zero (suc j) v d h = refl
  get_or-set_ne (x ∷ xs) (suc i) zero v d h = refl
  get_or-set_ne (x ∷ xs) (suc i) (suc j) v d h = get_or-set_ne xs i j v d (λ e. h (ap suc e))

  pub get_elem?-append_one :
      (xs : List A) (x : A) (i : ℕ) (e : A)
      → get_elem? (xs ++ x ∷ []) i ≡ some e
      → (get_elem? xs i ≡ some e) ⊎ ((i ≡ length xs) × (e ≡ x))
  get_elem?-append_one [] x zero e h = inr (refl, ground arith)
  get_elem?-append_one [] x (suc i) e h = absurd (ground arith)
  get_elem?-append_one (y ∷ ys) x zero e h = inl h
  get_elem?-append_one (y ∷ ys) x (suc i) e h = elim (get_elem?-append_one ys x i e h) [
    | inl old ↦ inl old
    | inr (at_end, new) ↦ inr (ap suc at_end, new)
  ]

  pub get_elem?-drop : (k i : ℕ) (xs : List A) → get_elem? (drop k xs) i ≡ get_elem? xs (k + i)
  get_elem?-drop zero i xs = rw add.zero
  get_elem?-drop (suc k) i [] = refl
  get_elem?-drop (suc k) i (x ∷ xs) = rw add.suc (get_elem?-drop k i xs)

  pub set-beyond : (xs : List A) (i : ℕ) (v : A) → length xs ≤ i → set xs i v ≡ xs
  set-beyond [] i v h = refl
  set-beyond (x ∷ xs) zero v h = absurd (omega arith)
  set-beyond (x ∷ xs) (suc i) v h = ap (◌∷◌ x) (set-beyond xs i v (omega arith))

  pub All-append {κ} : (P : A → Type κ) (xs ys : List A) → All P xs → All P ys → All P (xs ++ ys)
  All-append P [] ys h k = k
  All-append P (x ∷ xs) ys h k = (h.0, All-append P xs ys h.1 k)

-- The numbers from `start`, `n` of them.
abbrev pub range_from : ℕ → ℕ → List ℕ
range_from start zero = []
range_from start (suc n) = start ∷ range_from (suc start) n

-- A Go `map[K]bool` that only ever holds `true`: the list of its keys.
module _ {ℓ} {A : Type ℓ} ⦃e : Key A⦄ where
  abbrev pub contains : List A → A → Bool
  contains [] a = false
  contains (x ∷ xs) a = (x == a) || contains xs a

  abbrev pub add_key : List A → A → List A
  add_key [] a = a ∷ []
  add_key (x ∷ xs) a = if x == a then x ∷ xs else x ∷ add_key xs a

  abbrev pub remove_key : List A → A → List A
  remove_key [] a = []
  remove_key (x ∷ xs) a = let rest = remove_key xs a in if x == a then rest else x ∷ rest

  pub contains-add_key_self : (xs : List A) (a : A) → contains (add_key xs a) a ≡ true
  contains-add_key_self [] a = ground (arith, ==-refl a)
  contains-add_key_self (x ∷ xs) a = ground (arith, contains-add_key_self xs a)

  pub contains-remove_key_self : (xs : List A) (a : A) → contains (remove_key xs a) a ≡ false
  contains-remove_key_self [] a = refl
  contains-remove_key_self (x ∷ xs) a = ground (arith, contains-remove_key_self xs a)

  pub contains-add_key :
      (xs : List A) (a b : A) → contains xs b ≡ true → contains (add_key xs a) b ≡ true
  contains-add_key [] a b h = absurd (ground arith)
  contains-add_key (x ∷ xs) a b h = ground (arith, contains-add_key xs a b)

  pub contains-remove_key_ne :
      (xs : List A) (a b : A) → a ≢ b → contains (remove_key xs a) b ≡ contains xs b
  contains-remove_key_ne [] a b h = refl
  contains-remove_key_ne (x ∷ xs) a b h =
      ground (
        arith,
        ==-ne a b h,
        e.same_key_iff x a,
        e.same_key_iff x b,
        contains-remove_key_ne xs a b h,
      )

  pub contains-append :
      (xs ys : List A) (a : A) → contains (xs ++ ys) a ≡ (contains xs a || contains ys a)
  contains-append [] ys a = refl
  contains-append (x ∷ xs) ys a = ground (arith, contains-append xs ys a)

pub All-map {ℓ κ η} :
    {A : Type ℓ} {P : A → Type κ} {Q : A → Type η}
    → ((a : A) → P a → Q a)
    → (xs : List A) → All P xs
    → All Q xs
All-map f [] h = tt
All-map f (x ∷ xs) h = (f x h.0, All-map f xs h.1)
