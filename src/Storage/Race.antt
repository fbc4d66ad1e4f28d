-- ===== src/Storage/Race.antt =====
-- Clients of one checkpoint, whose calls of `Claim` and `Commit` interleave: each call is a read of
-- the store followed by a conditional write, and other clients may act in between.
pub mod Fencing
pub mod Steps
pub mod Refines
pub mod Owners
use stark8s.Prelude.{ℕ, String, Option, none, some, List, [], ◌∷◌, nat_beq, if◌then◌else◌}
use stark8s.Storage.Objects.{Outcome, ok, err, Store}
use stark8s.Storage.Checkpoint.{
  Checkpoint, Writer, claimed, committed, read_claim, write_claim, read_owned, replace_owned,
}

-- `claiming` has an identity and what was read; `committing` has the checkpoint to write.
pub data Client : Type 0 where
  idle : Client
  claiming : String → String × Checkpoint → Client
  owner : Writer → Client
  committing : Writer → Checkpoint → Client

pub record World (S : Type 0) : Type 0 where
  pub store : S
  pub clients : ℕ → Client

-- The halves of the calls, by the number of the client that makes them.
pub data Action : Type 0 where
  claim_reads : ℕ → String → Action
  claim_writes : ℕ → Action
  commit_reads : ℕ → String → List String → Action
  commit_writes : ℕ → Action

abbrev pub update : (ℕ → Client) → ℕ → Client → ℕ → Client
update clients i c j = if nat_beq i j then c else clients j

abbrev pub after_claim_read : String → Outcome (String × Checkpoint) → Client
after_claim_read id (ok found) = Client.claiming id found
after_claim_read id (err e) = Client.idle

abbrev pub after_claim_write : Outcome (Writer × Checkpoint) → Client
after_claim_write (ok (w, previous)) = Client.owner w
after_claim_write (err e) = Client.idle

abbrev pub after_commit_read : Writer → String → List String → Outcome Checkpoint → Client
after_commit_read w state tombstones (ok stored) =
    Client.committing w (committed state tombstones stored)
after_commit_read w state tombstones (err e) = Client.owner w

abbrev pub after_commit_write : Writer → Outcome Writer → Client
after_commit_write w (ok w') = Client.owner w'
after_commit_write w (err e) = Client.owner w

-- The client takes a new state with the answer of the store.
abbrev pub step : {S A : Type 0} → World S → ℕ → S × Outcome A → (Outcome A → Client) → World S
step w i r k = record { store = r.0; clients = update w.clients i (k r.1) }

module _ {S Bytes : Type 0} (store : Store S Bytes) (encode : Checkpoint → Bytes)
    (decode : Bytes → Option Checkpoint) (key : String) where
  abbrev pub claim_writes_from : World S → ℕ → Client → World S
  claim_writes_from w i (Client.claiming id found) =
      step w i (write_claim store encode decode key id found w.store) after_claim_write
  claim_writes_from w i _ = w

  abbrev pub commit_reads_from : World S → ℕ → String → List String → Client → World S
  commit_reads_from w i state tombstones (Client.owner o) =
      step w i (read_owned store encode decode o w.store) (after_commit_read o state tombstones)
  commit_reads_from w i state tombstones _ = w

  abbrev pub commit_writes_from : World S → ℕ → Client → World S
  commit_writes_from w i (Client.committing o next) =
      step w i (replace_owned store encode decode o next w.store) (after_commit_write o)
  commit_writes_from w i _ = w

  -- A call that the client is not ready for does nothing.
  unfoldable pub act : Action → World S → World S
  act (Action.claim_reads i id) w =
      step w i (read_claim store encode decode key id w.store) (after_claim_read id)
  act (Action.claim_writes i) w = claim_writes_from w i (w.clients i)
  act (Action.commit_reads i state tombstones) w =
      commit_reads_from w i state tombstones (w.clients i)
  act (Action.commit_writes i) w = commit_writes_from w i (w.clients i)

  unfoldable pub run : List Action → World S → World S
  unfolding act
  run [] w = w
  run (a ∷ rest) w = run rest (act a w)
