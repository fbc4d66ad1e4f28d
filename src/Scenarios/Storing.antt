-- ===== src/Scenarios/Storing.antt =====
-- Tests and witnesses on concrete stores: pkg/storage.
use Prim.Native.Char.{nul}
use Prim.Native.String.{String}
use stark8s.Prelude.{
  ◌+◌, ◌%◌, ◌^◌, ℕ, zero, suc, Bool, true, false, Option, none, some, List, [], ◌∷◌, ◌≡◌, refl, sym,
  ap, or_else, lookup, insert, arith, All, ◌≢◌,
}
use stark8s.Storage.Objects.{StoreError, ok, err, Store}
use stark8s.Storage.Objects.Laws.{IsStore}
use stark8s.Storage.Paths.{local_path, split_path, clean, clean_parts, join, print_path, is_abs}
use stark8s.Storage.Paths.Inside.{local_path-Inside, walk}
use stark8s.Storage.Local.{Disk, local_store, no_faults, get_bounded, local_swap}
use stark8s.Storage.Local.Filled.{on_disk, local_store-IsStore}
use stark8s.Storage.Checkpoint.{
  Checkpoint, Writer, no_checkpoint, claim, commit, reread, read_claim, write_claim, read_owned,
  replace_owned,
}
use stark8s.Storage.Race.{Client, World, Action, act, run}
use stark8s.Storage.Race.Fencing.{IsCoded}
use stark8s.Storage.Race.Steps.{Change}
use stark8s.Storage.Race.Owners.{
  start, stored, act-Change, replace_owned-last, commit-fenced, claim-returns,
}

-- A stand-in for JSON and sha256 on checkpoints: the hash of generation n is n + 1 characters long.
unfoldable marks : ℕ → String
marks zero = String.◌∷◌ nul ""
marks (suc n) = String.◌∷◌ nul (marks n)

abbrev mark : Checkpoint → String
mark c = marks c.generation

abbrev tail_of : String → String
tail_of String.[] = ""
tail_of (String.◌∷◌ c s) = s

abbrev is_blank : String → Bool
is_blank String.[] = true
is_blank (String.◌∷◌ c s) = false

false_ne_true : false ≡ true → ⊥
false_ne_true p = cc

marks-nonempty : (n : ℕ) → marks n ≢ ""
unfolding marks
marks-nonempty zero e = false_ne_true (ap is_blank e)
marks-nonempty (suc n) e = false_ne_true (ap is_blank e)

marks-injective : (n m : ℕ) → marks n ≡ marks m → n ≡ m
unfolding marks
marks-injective zero zero e = refl
marks-injective zero (suc m) e = absurd (marks-nonempty m (sym (ap tail_of e)))
marks-injective (suc n) zero e = absurd (marks-nonempty n (ap tail_of e))
marks-injective (suc n) (suc m) e = ap suc (marks-injective n m (ap tail_of e))

marked : IsCoded reread some mark
marked = record {
  decode-encode = λ c. refl;
  tells_generations = λ a b e. marks-injective a.generation b.generation e;
  is_nonempty = λ c. marks-nonempty c.generation;
}

abbrev files : Store (Disk Checkpoint) Checkpoint
files = local_store mark (λ c. c.generation)

abbrev kept : Disk Checkpoint → String → Option Checkpoint
kept = on_disk mark (λ c. c.generation)

files-IsStore : IsStore files mark kept
files-IsStore = local_store-IsStore mark (λ c. c.generation)

-- The third write below is made, and its directory cannot be synchronised.
abbrev empty_disk : Disk Checkpoint
empty_disk = record {
  files = [];
  faults =
      no_faults
      ∷ no_faults
      ∷ no_faults
      ∷ no_faults
      ∷ no_faults
      ∷ no_faults
      ∷ no_faults
      ∷ record no_faults { unsynced = true }
      ∷ [];
}

abbrev racing : List Action → World (Disk Checkpoint)
racing acts = run files reread some "checkpoint" acts (start empty_disk)

-- Client 0 claims and is about to commit.
abbrev committing_acts : List Action
committing_acts =
    Action.claim_reads 0 "a" ∷ Action.claim_writes 0 ∷ Action.commit_reads 0 "1" [] ∷ []

-- Then client 1 claims the checkpoint, and client 0 fails to commit.
abbrev replaced_acts : List Action
replaced_acts =
    Action.claim_reads 0 "a"
    ∷ Action.claim_writes 0
    ∷ Action.commit_reads 0 "1" []
    ∷ Action.claim_reads 1 "b"
    ∷ Action.claim_writes 1
    ∷ Action.commit_writes 0
    ∷ []

abbrev first_claim : Checkpoint
first_claim = record { generation = 1; writer = "a"; state = none; tombstones = [] }

abbrev first_writer : Writer
first_writer = record { key = "checkpoint"; id = "a"; version = marks 1; value = first_claim }

abbrev first_commit : Checkpoint
first_commit = record { generation = 2; writer = "a"; state = some "1"; tombstones = [] }

abbrev stored_in : List Action → Option Checkpoint
stored_in acts = stored files-IsStore marked "checkpoint" (racing acts).store

on_empty_disk : kept empty_disk "checkpoint" ≡ none
unfolding local_path clean split_path clean_parts join lookup
on_empty_disk = refl

act-Change_example : Change (stored_in committing_acts) (
    stored files-IsStore marked "checkpoint"
      (act files reread some "checkpoint" (Action.commit_writes 0) (racing committing_acts)).store)
act-Change_example =
    act-Change files-IsStore marked "checkpoint" empty_disk committing_acts (Action.commit_writes 0)
      on_empty_disk (omega arith)

about_to_commit : (racing committing_acts).clients 0 ≡ Client.committing first_writer first_commit
unfolding run act read_claim write_claim read_owned get_bounded local_swap local_path clean
    split_path clean_parts join lookup insert marks
about_to_commit = refl

commit_done :
    (replace_owned files reread some first_writer first_commit (racing committing_acts).store).1
    ≡ ok (record first_writer { version = marks 2; value = first_commit })
unfolding run act read_claim write_claim read_owned replace_owned get_bounded local_swap local_path
    clean split_path clean_parts join lookup insert marks
commit_done = refl

replace_owned-last_example :
    (stored_in committing_acts ≡ some (reread first_claim))
    × (stored files-IsStore marked "checkpoint"
          (replace_owned files reread some first_writer first_commit
            (racing committing_acts).store).0
        ≡ some (reread first_commit))
    × (first_commit ≡ first_commit)
replace_owned-last_example =
    replace_owned-last files-IsStore marked "checkpoint" empty_disk committing_acts 0 first_writer
      (record first_writer { version = marks 2; value = first_commit }) first_commit on_empty_disk
      (omega arith) about_to_commit commit_done

fenced_client : (racing replaced_acts).clients 0 ≡ Client.owner first_writer
unfolding run act read_claim write_claim read_owned replace_owned get_bounded local_swap local_path
    clean split_path clean_parts join lookup insert marks
fenced_client = refl

second_claim : stored_in replaced_acts ≢ some (reread first_claim)
unfolding run act read_claim write_claim read_owned replace_owned get_bounded local_swap local_path
    clean split_path clean_parts join lookup insert marks
second_claim e = two_ne_one (ap generation_in e)
  where
    generation_in : Option Checkpoint → ℕ
    generation_in none = 0
    generation_in (some c) = c.generation

    two_ne_one : {n : ℕ} → suc n ≡ n → ⊥
    two_ne_one p = omega arith

commit-fenced_example :
    ((e : StoreError) × ((commit files reread some first_writer "2" []
          (racing replaced_acts).store).1
        ≡ err e))
    × (stored files-IsStore marked "checkpoint"
          (commit files reread some first_writer "2" [] (racing replaced_acts).store).0
        ≡ stored_in replaced_acts)
commit-fenced_example =
    commit-fenced files-IsStore marked "checkpoint" empty_disk replaced_acts 0 first_writer "2" []
      on_empty_disk (omega arith) fenced_client second_claim

claim_done :
    (claim files reread some "checkpoint" "a" empty_disk).1
    ≡ ok (first_writer, record { generation = 0; writer = ""; state = none; tombstones = [] })
unfolding claim get_bounded local_swap local_path clean split_path clean_parts join lookup insert
    marks
claim_done = refl

claim-returns_example :
    (no_checkpoint
      ≡ or_else
          (stored files-IsStore marked "checkpoint" empty_disk)
          (record { generation = 0; writer = ""; state = none; tombstones = [] }))
    × (stored files-IsStore marked "checkpoint"
          (claim files reread some "checkpoint" "a" empty_disk).0
        ≡ some (record {
          generation = (0 + 1) % 2 ^ 64;
          writer = "a";
          state = some "null";
          tombstones = [];
        }))
    × (first_claim
        ≡ record { generation = (0 + 1) % 2 ^ 64; writer = "a"; state = none; tombstones = [] })
claim-returns_example =
    claim-returns files-IsStore marked "checkpoint" empty_disk "a" first_writer no_checkpoint none
      on_empty_disk claim_done

local_store-IsStore_example : IsStore files mark kept
local_store-IsStore_example = local_store-IsStore mark (λ c. c.generation)

inside : local_path "segments/../a" ≡ some "a"
unfolding local_path clean split_path clean_parts join
inside = refl

local_path-Inside_example :
    (is_abs "segments/../a" ≡ false)
    × ((depth : ℕ) × (walk (some 0) (split_path "segments/../a") ≡ some depth))
    × ("a" ≡ print_path false ("a" ∷ []))
    × All (λ (part : String). part ≢ "..") ("a" ∷ [])
unfolding split_path clean_parts
local_path-Inside_example = local_path-Inside "segments/../a" "a" inside
