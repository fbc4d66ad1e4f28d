-- ===== src/Storage/Checkpoint.antt =====
-- pkg/storage/checkpoint.go: the checkpoint object and the writer that owns it.
use stark8s.Prelude.{
  ℕ, String, Option, none, some, List, [], ◌==◌, not, ◌||◌, add64, if◌then◌else◌, string_eq, nat_eq,
  Key, or_else,
}
use stark8s.Storage.Objects.{
  StoreError, is_not_found, is_conflict, Outcome, ok, err, Io, and_then, ◌>>=◌, return, fail,
  Object, Store, put_immutable,
}
use stark8s.Storage.Paths.{scoped_key}

-- `generation` is a uint64. `state` is a JSON text, and `none` where the source has nil.
pub record Checkpoint : Type 0 where
  pub generation : ℕ
  pub writer : String
  pub state : Option String
  pub tombstones : List String

-- A `*Writer` without its store, which is passed to every call.
pub record Writer : Type 0 where
  pub key : String
  pub id : String
  pub version : String
  pub value : Checkpoint

abbrev pub no_checkpoint : Checkpoint
no_checkpoint = record { generation = 0; writer = ""; state = none; tombstones = [] }

-- The checkpoint that `Claim` writes.
abbrev pub claimed : String → Checkpoint → Checkpoint
claimed id c = record c { generation = add64 c.generation 1; writer = id }

-- The checkpoint that `Commit` writes.
abbrev pub committed : String → List String → Checkpoint → Checkpoint
committed state tombstones c = record c {
  generation = add64 c.generation 1;
  state = some state;
  tombstones = tombstones;
}

-- The JSON of a checkpoint: a nil state is written as `null`, and read as the text `null`.
abbrev pub reread : Checkpoint → Checkpoint
reread c = record c { state = some (or_else c.state "null") }

-- `encode` and `decode` are `json.Marshal` and `json.Unmarshal` at checkpoints.
module _ {S Bytes : Type 0} (store : Store S Bytes) (encode : Checkpoint → Bytes)
    (decode : Bytes → Option Checkpoint) where
  -- The first half of `Claim`: the version of the checkpoint and its contents.
  abbrev claim_decoded : String → Option Checkpoint → Io S (String × Checkpoint)
  claim_decoded old_version none = fail StoreError.undecodable
  claim_decoded old_version (some previous) = return (old_version, previous)

  abbrev pub claim_read : S × Outcome (Object Bytes) → S × Outcome (String × Checkpoint)
  claim_read (s, ok obj) = claim_decoded obj.version (decode obj.bytes) s
  claim_read (s, err e) = (s, if is_not_found e then ok ("", no_checkpoint) else err e)

  unfoldable pub read_claim : String → String → Io S (String × Checkpoint)
  read_claim key id s =
      if id == "" then (s, err StoreError.identity_required) else claim_read (store.get key s)

  -- The second half: the claimed checkpoint takes the place of the one that was read.
  unfoldable pub write_claim : String → String → String × Checkpoint → Io S (Writer × Checkpoint)
  write_claim key id (old_version, previous) =
      store.compare_and_swap key old_version (encode (claimed id previous)) >>= λ new_version.
      return (
        record { key = key; id = id; version = new_version; value = claimed id previous },
        previous,
      )

  unfoldable pub claim : String → String → Io S (Writer × Checkpoint)
  unfolding read_claim write_claim
  claim key id = read_claim key id >>= λ found. write_claim key id found

  -- The first half of `Commit`: the checkpoint is read, and must be the one that the writer wrote.
  abbrev pub check_owned : Writer → Object Bytes → Option Checkpoint → Io S Checkpoint
  check_owned w current none = fail StoreError.undecodable
  check_owned w current (some stored) =
      if not (stored.writer == w.id)
        || not (stored.generation == w.value.generation)
        || not (current.version == w.version)
      then fail StoreError.fenced
      else return stored

  unfoldable pub read_owned : Writer → Io S Checkpoint
  read_owned w = store.get w.key >>= λ current. check_owned w current (decode current.bytes)

  abbrev pub fence_conflict : {A : Type 0} → S × Outcome A → S × Outcome A
  fence_conflict (s, ok a) = (s, ok a)
  fence_conflict (s, err e) = (s, err (if is_conflict e then StoreError.fenced else e))

  -- The second half: the checkpoint is replaced if it is still the one that was read.
  unfoldable pub replace_owned : Writer → Checkpoint → Io S Writer
  replace_owned w next s =
      and_then (fence_conflict (store.compare_and_swap w.key w.version (encode next) s))
        (λ new_version. return (record w { version = new_version; value = next }))

  -- The new writer is returned; after an error the old one stays.
  unfoldable pub commit : Writer → String → List String → Io S Writer
  unfolding read_owned replace_owned
  commit w state tombstones =
      read_owned w >>= λ stored. replace_owned w (committed state tombstones stored)

  abbrev pub writer_put : ⦃e : Key Bytes⦄ → Writer → String → Bytes → Io S (Unit {0})
  writer_put w key body = put_immutable store (scoped_key w.key key) body

  abbrev pub writer_delete : Writer → String → Io S (Unit {0})
  writer_delete w key = store.delete (scoped_key w.key key)
