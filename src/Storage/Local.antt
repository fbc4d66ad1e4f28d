-- ===== src/Storage/Local.antt =====
-- pkg/storage/local.go: the store of objects in the files of a directory.
pub mod Filled
use stark8s.Prelude.{
  ℕ, String, Bool, true, false, Option, none, some, List, [], ◌∷◌, Map, lookup, insert, delete,
  ◌==◌, not, ◌||◌, ◌&&◌, ltb, if◌then◌else◌, string_eq, is_some,
}
use stark8s.Storage.Objects.{StoreError, Outcome, ok, err, Io, Object, Store}
use stark8s.Storage.Paths.{local_path}

-- What goes wrong in one call: the context is done, the lock of the key cannot be had, the path cannot
-- be read for another reason than that nothing is there (it is a directory, or below a file), it cannot
-- be written, or it has been written and its directory cannot be synchronised.
pub record Faults : Type 0 where
  pub cancelled : Bool
  pub unlocked : Bool
  pub unreadable : Bool
  pub unwritable : Bool
  pub unsynced : Bool

-- The files below the directory, by their cleaned paths, and the faults of the calls to come; there
-- are none after the last.
pub record Disk (Bytes : Type 0) : Type 0 where
  pub files : Map String Bytes
  pub faults : List Faults

abbrev pub no_faults : Faults
no_faults = record {
  cancelled = false;
  unlocked = false;
  unreadable = false;
  unwritable = false;
  unsynced = false;
}

abbrev pub next_faults : List Faults → Faults
next_faults [] = no_faults
next_faults (f ∷ fs) = f

-- The path `.` is the directory of the store itself, which cannot be read as a file.
abbrev pub faults_at : Faults → String → Faults
faults_at f p = record f { unreadable = f.unreadable || p == "." }

abbrev later_faults : List Faults → List Faults
later_faults [] = []
later_faults (f ∷ fs) = fs

-- `Bytes` are the contents of files, with the hash of package sha256 in hexadecimal, and their length.
module _ {Bytes : Type 0} (version : Bytes → String) (size : Bytes → ℕ) where
  abbrev pub take_faults : Disk Bytes → Disk Bytes
  take_faults d = record d { faults = later_faults d.faults }

  -- Every call checks the context and the key before it looks at a file.
  abbrev pub with_path :
      {A : Type 0} → String → (Faults → String → Io (Disk Bytes) A) → Io (Disk Bytes) A
  with_path key k d =
      if (next_faults d.faults).cancelled
      then (take_faults d, err StoreError.failed)
      else elim (local_path key) [
        | none ↦ (take_faults d, err StoreError.invalid_key)
        | some p ↦ k (faults_at (next_faults d.faults) p) p (take_faults d)
      ]

  -- `writeFile` and `writeImmutable`: a new file is synchronised and then takes the path.
  abbrev pub write_file : {A : Type 0} → Faults → String → Bytes → A → Io (Disk Bytes) A
  write_file f p body a d = if f.unwritable then (d, err StoreError.failed) else (
    record d { files = insert d.files p body },
    if f.unsynced then err StoreError.failed else ok a,
  )

  abbrev put_over : Faults → String → Bytes → Option Bytes → Io (Disk Bytes) (Unit {0})
  put_over f p body (some old) d =
      (d, if version old == version body then ok tt else err StoreError.conflict)
  put_over f p body none d = write_file f p body tt d

  unfoldable pub local_put : String → Bytes → Io (Disk Bytes) (Unit {0})
  local_put key body = with_path key (λ f p d.
      if f.unreadable then (d, err StoreError.failed) else put_over f p body (lookup d.files p) d)

  abbrev over_limit : Option ℕ → Bytes → Bool
  over_limit none body = false
  over_limit (some limit) body = ltb limit (size body)

  abbrev read_object : Faults → Option ℕ → Option Bytes → Io (Disk Bytes) (Object Bytes)
  read_object f limit none d =
      (d, err (if f.unreadable then StoreError.failed else StoreError.not_found))
  read_object f limit (some body) d =
      if f.unreadable
      then (d, err StoreError.failed)
      else if over_limit limit body
      then (d, err StoreError.too_large)
      else (d, ok (record { bytes = body; version = version body }))

  -- `none` is the negative limit, which is no limit.
  unfoldable pub get_bounded : String → Option ℕ → Io (Disk Bytes) (Object Bytes)
  get_bounded key limit = with_path key (λ f p d. read_object f limit (lookup d.files p) d)

  abbrev swap_over : Faults → String → String → Bytes → Option Bytes → Io (Disk Bytes) String
  swap_over f p old_version body none d =
      if f.unreadable
      then (d, err StoreError.failed)
      else if not (old_version == "")
      then (d, err StoreError.conflict)
      else write_file f p body (version body) d
  swap_over f p old_version body (some old) d =
      if f.unreadable
      then (d, err StoreError.failed)
      else if not (version old == old_version)
      then (d, err StoreError.conflict)
      else write_file f p body (version body) d

  unfoldable pub local_swap : String → String → Bytes → Io (Disk Bytes) String
  local_swap key old_version body = with_path key (λ f p d.
      if f.unlocked
      then (d, err StoreError.failed)
      else swap_over f p old_version body (lookup d.files p) d)

  unfoldable pub local_delete : String → Io (Disk Bytes) (Unit {0})
  local_delete key = with_path key (λ f p d. if f.unwritable then (d, err StoreError.failed) else (
    record d { files = delete d.files p },
    if f.unsynced then err StoreError.failed else ok tt,
  ))

  abbrev pub local_store : Store (Disk Bytes) Bytes
  local_store = record {
    put_immutable = local_put;
    get = λ key. get_bounded key none;
    compare_and_swap = local_swap;
    delete = local_delete;
  }
