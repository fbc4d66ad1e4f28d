-- ===== src/Prelude/Maps.antt =====
-- Go maps as association lists. A Go map is iterated in an order that is not specified: here it is
-- the order of the list, and a theorem about every list is one about every order.
use mathlib.Core.Path.{◌≡◌, refl}
use mathlib.Core.Logic.{◌⊎◌, inl, inr, ◌≢◌}
use mathlib.Core.Bool.{Bool, true, false}
use mathlib.Core.List.{List, [], ◌∷◌}
use mathlib.Core.Option.{Option, none, some}
use native.Mathlib.Omega.{arith}
use stark8s.Prelude.Tests.{Key, ◌==◌, if◌then◌else◌, ==-refl, ==-ne, eq_of_==, Bool-cases}

abbrev pub Map {ℓ κ} : Type ℓ → Type κ → Type (ℓ ⊔ κ)
Map K V = List (K × V)

abbrev pub or_else {ℓ} : {A : Type ℓ} → Option A → A → A
or_else none d = d
or_else (some a) d = a

abbrev pub is_some {ℓ} : {A : Type ℓ} → Option A → Bool
is_some none = false
is_some (some a) = true

module _ {ℓ κ} {K : Type ℓ} {V : Type κ} where
  abbrev pub keys : Map K V → List K
  keys [] = []
  keys ((k, v) ∷ m) = k ∷ keys m

  abbrev pub values : Map K V → List V
  values [] = []
  values ((k, v) ∷ m) = v ∷ values m

  -- Every value is changed by a function of its key and itself.
  abbrev pub map_values {η} : {W : Type η} → (K → V → W) → Map K V → Map K W
  map_values f [] = []
  map_values f ((k, v) ∷ m) = (k, f k v) ∷ map_values f m

  -- The entries that pass a test.
  abbrev pub keep_entries : (K → V → Bool) → Map K V → Map K V
  keep_entries f [] = []
  keep_entries f ((k, v) ∷ m) = let rest = keep_entries f m in if f k v then (k, v) ∷ rest else rest

module _ {ℓ κ} {K : Type ℓ} {V : Type κ} ⦃e : Key K⦄ where
  unfoldable pub lookup : Map K V → K → Option V
  lookup [] k = none
  lookup ((j, v) ∷ m) k = if j == k then some v else lookup m k

  unfoldable pub insert : Map K V → K → V → Map K V
  insert [] k v = (k, v) ∷ []
  insert ((j, w) ∷ m) k v = if j == k then (k, v) ∷ m else (j, w) ∷ insert m k v

  unfoldable pub delete : Map K V → K → Map K V
  delete [] k = []
  delete ((j, w) ∷ m) k = let rest = delete m k in if j == k then rest else (j, w) ∷ rest

  abbrev pub has : Map K V → K → Bool
  has m k = is_some (lookup m k)

  pub lookup-insert_self : (m : Map K V) (k : K) (v : V) → lookup (insert m k v) k ≡ some v
  unfolding lookup insert
  lookup-insert_self [] k v = ground (arith, ==-refl k)
  lookup-insert_self ((j, w) ∷ m) k v = ground (arith, ==-refl k, lookup-insert_self m k v)

  pub lookup-insert_ne :
      (m : Map K V) (k : K) (v : V) (i : K) → k ≢ i → lookup (insert m k v) i ≡ lookup m i
  unfolding lookup insert
  lookup-insert_ne [] k v i h = ground (arith, ==-ne k i h)
  lookup-insert_ne ((j, w) ∷ m) k v i h =
      ground
        (arith, ==-ne k i h, e.same_key_iff j k, e.same_key_iff j i, lookup-insert_ne m k v i h)

  pub lookup-insert :
      (m : Map K V) (k : K) (v : V) (i : K)
      → lookup (insert m k v) i ≡ (if k == i then some v else lookup m i)
  lookup-insert m k v i = elim (Bool-cases (k == i)) [
    | inl h ↦ rw (h, ← eq_of_== k i h) (lookup-insert_self m k v)
    | inr h ↦ rw h (lookup-insert_ne m k v i (λ p. cc (==-refl k)))
  ]

  pub lookup-delete_self : (m : Map K V) (k : K) → lookup (delete m k) k ≡ none
  unfolding lookup delete
  lookup-delete_self [] k = refl
  lookup-delete_self ((j, w) ∷ m) k = ground (arith, lookup-delete_self m k)

  pub lookup-delete_ne : (m : Map K V) (k i : K) → k ≢ i → lookup (delete m k) i ≡ lookup m i
  unfolding lookup delete
  lookup-delete_ne [] k i h = refl
  lookup-delete_ne ((j, w) ∷ m) k i h =
      ground (arith, ==-ne k i h, e.same_key_iff j k, e.same_key_iff j i, lookup-delete_ne m k i h)

  pub lookup-delete_cases :
      (m : Map K V) (k i : K)
      → (lookup (delete m k) i ≡ none) ⊎ (lookup (delete m k) i ≡ lookup m i)
  lookup-delete_cases m k i = elim (Bool-cases (k == i)) [
    | inl h ↦ inl (rw (← eq_of_== k i h) (lookup-delete_self m k))
    | inr h ↦ inr (lookup-delete_ne m k i (λ p. cc (==-refl k)))
  ]
