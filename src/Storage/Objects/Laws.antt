-- ===== src/Storage/Objects/Laws.antt =====
-- What the clients of a store rely on, at one key: the interface of pkg/storage/store.go with the
-- behaviour that its comments promise.
use stark8s.Prelude.{String, Option, none, some, ◌≡◌, ◌⊎◌}
use stark8s.Storage.Objects.{StoreError, ok, err, Object, Store}

-- The version of what is held: the empty text stands for nothing.
abbrev pub Matches : {Bytes : Type 0} → (Bytes → String) → String → Option Bytes → Type 0
Matches version old none = old ≡ ""
Matches version old (some body) = old ≡ version body

-- `held` is what an observer of the store sees at a key. A failed write may have been made.
pub record IsStore {S Bytes : Type 0} (store : Store S Bytes) (version : Bytes → String)
    (held : S → String → Option Bytes) : Type 0 where
  pub get_same : (s : S) (key : String) → held (store.get key s).0 key ≡ held s key
  pub get_found :
      (s : S) (key : String) (o : Object Bytes)
      → (store.get key s).1 ≡ ok o
      → (held s key ≡ some o.bytes) × (o.version ≡ version o.bytes)
  pub get_missing :
      (s : S) (key : String) → (store.get key s).1 ≡ err StoreError.not_found → held s key ≡ none
  pub swap_done :
      (s : S) (key old v : String) (body : Bytes)
      → (store.compare_and_swap key old body s).1 ≡ ok v
      → (v ≡ version body)
        × (held (store.compare_and_swap key old body s).0 key ≡ some body)
        × Matches version old (held s key)
  pub swap_failed :
      (s : S) (key old : String) (body : Bytes) (e : StoreError)
      → (store.compare_and_swap key old body s).1 ≡ err e
      → (held (store.compare_and_swap key old body s).0 key ≡ held s key)
        ⊎ ((held (store.compare_and_swap key old body s).0 key ≡ some body)
            × Matches version old (held s key))
