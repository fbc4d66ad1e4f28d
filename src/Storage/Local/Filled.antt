-- ===== src/Storage/Local/Filled.antt =====
-- pkg/storage/local.go keeps the laws of a store, whatever faults it meets.
use stark8s.Prelude.{
  ℕ, String, Option, none, some, Map, lookup, lookup-insert_self, ◌≡◌, ◌⊎◌, inl, inr, refl, ◌≢◌,
  Bool-cases, if◌then◌else◌, ap, sym, subst, ◌∙◌, Option-cases, string_eq, ◌==◌, eq_of_==,
}
use stark8s.Storage.Objects.{StoreError, Outcome, ok, err, Object}
use stark8s.Storage.Objects.Laws.{IsStore, Matches}
use stark8s.Storage.Paths.{local_path}
use stark8s.Storage.Local.{
  Disk, Faults, next_faults, faults_at, take_faults, with_path, local_store, get_bounded,
  local_swap, swap_over, read_object, write_file,
}

err_ne_ok : {A : Type 0} {a : A} {e : StoreError} → err e ≡ ok a → ⊥
err_ne_ok p = cc

ok_ne_err : {A : Type 0} {a : A} {e : StoreError} → ok a ≡ err e → ⊥
ok_ne_err p = cc

err-inj : {A : Type 0} {a b : StoreError} → ◌≡◌ {A = Outcome A} (err a) (err b) → a ≡ b
err-inj p = cc

ok-inj : {A : Type 0} {a b : A} → ok a ≡ ok b → a ≡ b
ok-inj p = cc

failed_found :
    {A : Type 0} → ◌≡◌ {A = Outcome A} (err StoreError.failed) (err StoreError.not_found) → ⊥
failed_found p = cc

module _ {Bytes : Type 0} (version : Bytes → String) (size : Bytes → ℕ) where
  abbrev at_path : Map String Bytes → Option String → Option Bytes
  at_path files none = none
  at_path files (some p) = lookup files p

  -- What the file of a key holds.
  abbrev pub on_disk : Disk Bytes → String → Option Bytes
  on_disk d key = at_path d.files (local_path key)

  -- A call that stops before it looks at a file writes nothing.
  with_path-Kept :
      {A : Type 0} (P : Disk Bytes × Outcome A → Type 0) (key : String)
      (k : Faults → String → Disk Bytes → Disk Bytes × Outcome A) (d : Disk Bytes)
      → ((e : StoreError) → e ≢ StoreError.not_found → P (take_faults version size d, err e))
      → ((p : String)
          → local_path key ≡ some p
          → P (k (faults_at (next_faults d.faults) p) p (take_faults version size d)))
      → P (with_path version size key k d)
  with_path-Kept P key k d stopped went = elim (Bool-cases (next_faults d.faults).cancelled) [
    | inl t ↦ rw t (stopped StoreError.failed (λ p. cc))
    | inr f ↦ elim (Option-cases (local_path key)) [
      | inl n ↦ rw (f, n) (stopped StoreError.invalid_key (λ p. cc))
      | inr (p, e) ↦ rw (f, e) (went p e)
    ]
  ]

  read : Faults → String → Disk Bytes → Disk Bytes × Outcome (Object Bytes)
  read f p d = read_object version size f none (lookup d.files p) d

  swap : String → Bytes → Faults → String → Disk Bytes → Disk Bytes × Outcome String
  swap old body f p d =
      if f.unlocked
      then (d, err StoreError.failed)
      else swap_over version size f p old body (lookup d.files p) d

  -- What a read of the file system leaves and returns.
  Reads : Disk Bytes → String → Disk Bytes × Outcome (Object Bytes) → Type 0
  Reads d key r =
      (on_disk r.0 key ≡ on_disk d key)
      × ((o : Object Bytes)
          → r.1 ≡ ok o
          → (on_disk d key ≡ some o.bytes) × (o.version ≡ version o.bytes))
      × (r.1 ≡ err StoreError.not_found → on_disk d key ≡ none)

  read_object-Reads :
      (f : Faults) (held : Option Bytes) (d : Disk Bytes) (key : String)
      → on_disk d key ≡ held
      → Reads d key (read_object version size f none held d)
  unfolding Reads
  read_object-Reads f none d key h = elim (Bool-cases f.unreadable) [
    | inl t ↦ rw t (refl, λ o e. absurd (err_ne_ok e), λ e. h)
    | inr t ↦ rw t (refl, λ o e. absurd (err_ne_ok e), λ e. h)
  ]
  read_object-Reads f (some body) d key h = elim (Bool-cases f.unreadable) [
    | inl t ↦ rw t (refl, λ o e. absurd (err_ne_ok e), λ e. absurd (failed_found e))
    | inr t ↦ rw t (
      refl,
      λ o e. (
        h ∙ ap (λ q. some q.bytes) (ok-inj e),
        sym (ap (λ q. q.version) (ok-inj e)) ∙ ap (λ q. version q.bytes) (ok-inj e),
      ),
      λ e. absurd (ok_ne_err e),
    )
  ]

  get-Reads : (d : Disk Bytes) (key : String) → Reads d key (get_bounded version size key none d)
  unfolding get_bounded read Reads
  get-Reads d key =
      with_path-Kept (Reads d key) key read d
        (λ e n. (refl, λ o h. absurd (err_ne_ok h), λ h. absurd (n (err-inj h))))
        (λ p e.
          read_object-Reads (faults_at (next_faults d.faults) p) (lookup d.files p)
            (take_faults version size d) key (rw e refl))

  -- What a swap leaves and returns.
  Swaps : Disk Bytes → String → String → Bytes → Disk Bytes × Outcome String → Type 0
  Swaps d key old body r =
      ((v : String)
        → r.1 ≡ ok v
        → (v ≡ version body) × (on_disk r.0 key ≡ some body) × Matches version old (on_disk d key))
      × ((e : StoreError)
          → r.1 ≡ err e
          → (on_disk r.0 key ≡ on_disk d key)
            ⊎ ((on_disk r.0 key ≡ some body) × Matches version old (on_disk d key)))

  -- A call that fails and writes nothing.
  same-Swaps :
      (d d' : Disk Bytes) (key old : String) (body : Bytes) (e : StoreError)
      → d'.files ≡ d.files
      → Swaps d key old body (d', err e)
  unfolding Swaps
  same-Swaps d d' key old body e h =
      (λ v p. absurd (err_ne_ok p), λ e' p. inl (ap (λ m. at_path m (local_path key)) h))

  write_file-Swaps :
      (f : Faults) (p : String) (d d' : Disk Bytes) (key old : String) (body : Bytes)
      → local_path key ≡ some p
      → d'.files ≡ d.files
      → Matches version old (on_disk d key)
      → Swaps d key old body (write_file version size f p body (version body) d')
  unfolding Swaps
  write_file-Swaps f p d d' key old body at h m = elim (Bool-cases f.unwritable) [
    | inl t ↦ rw t (same-Swaps d d' key old body StoreError.failed h)
    | inr t ↦ elim (Bool-cases f.unsynced) [
      | inl u ↦
          rw (t, u, at)
            (
              λ v q. absurd (err_ne_ok q),
              λ e q. inr (
                lookup-insert_self d'.files p body,
                subst (λ o. Matches version old (at_path d.files o)) at m,
              ),
            )
      | inr u ↦
          rw (t, u, at)
            (
              λ v q. (
                sym (ok-inj q),
                lookup-insert_self d'.files p body,
                subst (λ o. Matches version old (at_path d.files o)) at m,
              ),
              λ e q. absurd (ok_ne_err q),
            )
    ]
  ]

  swap_over-Swaps :
      (f : Faults) (p : String) (d d' : Disk Bytes) (key old : String) (body : Bytes)
      (held : Option Bytes)
      → local_path key ≡ some p
      → d'.files ≡ d.files
      → on_disk d key ≡ held
      → Swaps d key old body (swap_over version size f p old body held d')
  swap_over-Swaps f p d d' key old body none at h e = elim (Bool-cases f.unreadable) [
    | inl t ↦ rw t (same-Swaps d d' key old body StoreError.failed h)
    | inr t ↦ elim (Bool-cases (old == "")) [
      | inl u ↦ rw (t, u) (write_file-Swaps f p d d' key old body at h (rw e (eq_of_== old "" u)))
      | inr u ↦ rw (t, u) (same-Swaps d d' key old body StoreError.conflict h)
    ]
  ]
  swap_over-Swaps f p d d' key old body (some b) at h e = elim (Bool-cases f.unreadable) [
    | inl t ↦ rw t (same-Swaps d d' key old body StoreError.failed h)
    | inr t ↦ elim (Bool-cases (version b == old)) [
      | inl u ↦
          rw (t, u)
            (write_file-Swaps f p d d' key old body at h (rw e (sym (eq_of_== (version b) old u))))
      | inr u ↦ rw (t, u) (same-Swaps d d' key old body StoreError.conflict h)
    ]
  ]

  swap-Swaps :
      (d : Disk Bytes) (key old : String) (body : Bytes)
      → Swaps d key old body (local_swap version size key old body d)
  unfolding local_swap swap
  swap-Swaps d key old body =
      with_path-Kept (Swaps d key old body) key (swap old body) d
        (λ e n. same-Swaps d (take_faults version size d) key old body e refl)
        (λ p at. elim (Bool-cases (next_faults d.faults).unlocked) [
          | inl t ↦
              rw t (same-Swaps d (take_faults version size d) key old body StoreError.failed refl)
          | inr t ↦ rw t (
              swap_over-Swaps (faults_at (next_faults d.faults) p) p d (take_faults version size d)
                key old body (lookup d.files p) at refl (rw at refl))
        ])

  -- The store in files keeps the laws of a store whatever faults it meets: a read changes nothing and
  -- returns what the file of its key holds with the version of that, an object that is not found has no
  -- file, a swap that succeeds has found the version that it was given and written the new bytes, and one
  -- that fails has changed nothing or has done the same.
  pub local_store-IsStore : IsStore (local_store version size) version on_disk
  unfolding Reads Swaps
  local_store-IsStore = record {
    get_same = λ d key. (get-Reads d key).0;
    get_found = λ d key o h. (get-Reads d key).1 o h;
    get_missing = λ d key h. (get-Reads d key).2 h;
    swap_done = λ d key old v body h. (swap-Swaps d key old body).0 v h;
    swap_failed = λ d key old body e h. (swap-Swaps d key old body).1 e h;
  }
