-- ===== src/Storage/Objects.antt =====
-- pkg/storage/store.go: the interface of an object store, as functions on the state of the store.
pub mod Laws
use stark8s.Prelude.{String, Bool, true, false, Option, none, some, ◌==◌, Key, if◌then◌else◌}

-- `failed` is every error that the package does not name: of the file system or of the context.
pub data StoreError : Type 0 where
  not_found conflict fenced too_large : StoreError
  invalid_key undecodable identity_required failed : StoreError

-- `errors.Is` at two of them.
abbrev pub is_not_found : StoreError → Bool
is_not_found StoreError.not_found = true
is_not_found _ = false

abbrev pub is_conflict : StoreError → Bool
is_conflict StoreError.conflict = true
is_conflict _ = false

pub data Outcome {ℓ} (A : Type ℓ) : Type ℓ where
  ok : A → Outcome A
  err : StoreError → Outcome A

-- An operation keeps what it has written when it returns an error.
abbrev pub Io : Type 0 → Type 0 → Type 0
Io S A = S → S × Outcome A

abbrev pub and_then : {S A B : Type 0} → S × Outcome A → (A → Io S B) → S × Outcome B
and_then (s, ok a) f = f a s
and_then (s, err e) f = (s, err e)

infixl 5 ◌>>=◌
abbrev pub ◌>>=◌ : {S A B : Type 0} → Io S A → (A → Io S B) → Io S B
◌>>=◌ m f s = and_then (m s) f

abbrev pub return : {S A : Type 0} → A → Io S A
return a s = (s, ok a)

abbrev pub fail : {S A : Type 0} → StoreError → Io S A
fail e s = (s, err e)

pub record Object (Bytes : Type 0) : Type 0 where
  pub bytes : Bytes
  pub version : String

pub record Store (S Bytes : Type 0) : Type 0 where
  pub put_immutable : String → Bytes → Io S (Unit {0})
  pub get : String → Io S (Object Bytes)
  pub compare_and_swap : String → String → Bytes → Io S String
  pub delete : String → Io S (Unit {0})

module _ {S Bytes : Type 0} ⦃e : Key Bytes⦄ where
  -- After a conflict the object is read back: the same bytes are a retry of the same call.
  abbrev accept_same : Bytes → S × Outcome (Object Bytes) → S × Outcome (Unit {0})
  accept_same body (s, ok got) = (s, if got.bytes == body then ok tt else err StoreError.conflict)
  accept_same body (s, err e') = (s, err StoreError.conflict)

  abbrev put_answer :
      Store S Bytes → String → Bytes → S × Outcome (Unit {0}) → S × Outcome (Unit {0})
  put_answer store key body (s, ok u) = (s, ok u)
  put_answer store key body (s, err e') =
      if is_conflict e' then accept_same body (store.get key s) else (s, err e')

  unfoldable pub put_immutable : Store S Bytes → String → Bytes → Io S (Unit {0})
  put_immutable store key body s = put_answer store key body (store.put_immutable key body s)
