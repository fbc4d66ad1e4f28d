-- ===== src/Coordinator/Recovery.antt =====
-- `NewDurable` and `rebindHeldSegments` of pkg/coordinator/coordinator.go: a coordinator that takes over
-- the state of another.
pub mod Rebound
pub mod Keys
pub mod Resumed
use stark8s.Prelude.{
  ℕ, String, Bool, not, ◌||◌, Option, none, some, List, [], ◌∷◌, Map, lookup, insert, delete,
  map_values, is_some, nat_beq, ◌==◌, if◌then◌else◌, string_eq,
}
use stark8s.Coordinator.State.{
  Channel, Coordinator, Durable, Result, ok, err, update_segment, commit_locked,
}
use stark8s.Coordinator.Names.{segment_key}
use stark8s.Coordinator.Topology.{new_coordinator}
use stark8s.Coordinator.Persistence.{PersistedCoordinator, restore}

-- `rebindHeldSegments`: the segments whose records the coordinator has are held at its new address.
abbrev pub move_inflight : String → String → ℕ → Map String ℕ → Map String ℕ
move_inflight key new p m = elim (lookup m key) [
  | none ↦ m
  | some q ↦ if nat_beq q p then insert (delete m key) new p else m
]

abbrev pub rebind_segment : String → String → ℕ → Channel → Channel
rebind_segment self_addr key p c =
    let s = c.heap p in
    let new = segment_key self_addr s.id in
    if not (is_some s.payload) || s.holder == self_addr
    then c
    else record (update_segment c p (λ s'. record s' { holder = self_addr })) {
      inflight = move_inflight key new p c.inflight;
      index = insert (delete c.index key) new p;
    }

abbrev pub rebind_all : String → Map String ℕ → Channel → Channel
rebind_all self_addr [] c = c
rebind_all self_addr ((key, p) ∷ index) c =
    rebind_all self_addr index (rebind_segment self_addr key p c)

abbrev pub rebind_channels : String → Map String Channel → Map String Channel
rebind_channels self_addr channels = map_values (λ name c. rebind_all self_addr c.index c) channels

unfoldable pub rebind_held_segments : String → Coordinator → Coordinator
rebind_held_segments self_addr co = record co { channels = rebind_channels self_addr co.channels }

-- The state of a claimed checkpoint: none, one that cannot be read, or a snapshot.
pub data SavedState : Type 0 where
  absent unreadable : SavedState
  saved : PersistedCoordinator → SavedState

abbrev restored_state : String → Coordinator → SavedState → Option Coordinator
restored_state self_addr co SavedState.absent = some co
restored_state self_addr co SavedState.unreadable = none
restored_state self_addr co (SavedState.saved s) =
    some (record (rebind_held_segments self_addr (restore s co)) { self_addr = self_addr })

abbrev committed_state : Coordinator × Result (Unit {0}) → Option Coordinator
committed_state (co, ok u) = some co
committed_state (co, err e) = none

-- The tombstones are cleared when their segments are deleted; `deleted` says whether all deletions
-- succeeded.
abbrev clear_tombstones : List String → Bool → Coordinator → Option Coordinator
clear_tombstones [] deleted co = some co
clear_tombstones (id ∷ ids) deleted co =
    if deleted then committed_state (commit_locked co) else none

abbrev then_clear : List String → Bool → Option Coordinator → Option Coordinator
then_clear ids deleted none = none
then_clear ids deleted (some co) = clear_tombstones ids deleted co

-- `NewDurable` after `Claim`, whose failure ends it: what was claimed is given with the answers of the
-- store to later calls. `none` is an error.
unfoldable pub new_durable :
    String → ℕ → Durable → SavedState → List String → Bool → Option Coordinator
unfolding rebind_held_segments restore
new_durable self_addr now d state ids deleted =
    then_clear ids deleted
      (restored_state self_addr (record (new_coordinator self_addr now) { durable = some d }) state)
