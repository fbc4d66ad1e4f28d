-- ===== src/Coordinator/Epochs.antt =====
-- Epochs of synchronous loops in pkg/coordinator/coordinator.go: `SourceDone`, `EpochDoneSession`,
-- `OperationEpochDoneSession`, `recordOperationEpochDone` and `advanceEpoch`.
pub mod Barrier
pub mod Release
use stark8s.Prelude.{
  ℕ, ℤ, pos, suc, ◌+◌, String, Bool, true, not, ◌&&◌, ◌||◌, Option, none, some, List, [], ◌∷◌, ◌++◌,
  Map, any, contains, add_key, values, map_values, lookup, insert, or_else, leb, leb_ℤ, ltb_ℤ,
  inc32, nat_beq, ◌==◌, string_eq, int_eq, if◌then◌else◌,
}
use stark8s.Coordinator.Api.{Error, PodRegistration}
use stark8s.Coordinator.State.{
  Pod, Operation, Channel, Coordinator, M, ◌>>=◌, ◌>>◌, return, fail, modify, refuse_if, get_state,
  commit_locked,
}
use stark8s.Coordinator.Channels.{synchronous, enqueue, max_epochs_of, quiet}
use stark8s.Coordinator.Pods.{op_of, op, get, put_channel, is_live, expire_all_except}
use stark8s.Coordinator.Registration.{update_op, update_pod, require_incarnation, touch}
use stark8s.Coordinator.Settle.{seal_channel, replicas_wanted}

-- Held segments of the new epoch become pending; the others stay held.
unfoldable pub release_held : List ℕ → Channel → Channel
release_held [] c = c
release_held (p ∷ ps) c =
    release_held ps
      (if (c.heap p).epoch == c.epoch then enqueue c p else record c { held = c.held ++ p ∷ [] })

abbrev next_epoch : Channel → Channel
next_epoch c =
    let e = inc32 c.epoch in
    record c {
      epoch = e;
      production_closed = if c.sealed then add_key c.production_closed e else c.production_closed;
    }

-- `advanceEpoch`
unfoldable pub advance_epoch : Channel → Channel
unfolding release_held enqueue
advance_epoch c = release_held c.held (record (next_epoch c) { held = [] })

-- Whether an input of the operation keeps it from finishing the epoch.
unfoldable pub keeps_open : String → ℤ → Channel → Bool
keeps_open op_name epoch c =
    c.spec.to == op_name
    && c.finite_epochs
    && (not (c.epoch == epoch) || not (contains c.production_closed epoch) || not (quiet c))

-- How many live pods have reported the epoch. A pod without an entry counts as epoch 0.
abbrev pub is_done_pod : Operation → ℤ → ℕ → String → Pod → Bool
is_done_pod o epoch now id p =
    is_live now p && leb_ℤ epoch (or_else (lookup o.epoch_done id) (pos 0))

unfoldable pub count_done : Operation → ℤ → ℕ → Map String Pod → ℕ
count_done o epoch now [] = 0
count_done o epoch now ((id, p) ∷ ps) =
    let rest = count_done o epoch now ps in if is_done_pod o epoch now id p then suc rest else rest

-- All the replicas that the operation should have are done with the epoch.
unfoldable pub barrier_reached : Operation → ℤ → ℕ → Bool
unfolding count_done replicas_wanted
barrier_reached o epoch now =
    not (nat_beq (replicas_wanted o) 0) && leb (replicas_wanted o) (count_done o epoch now o.pods)

-- The epoch that an output channel closes when its producer is done with `epoch`.
abbrev out_epoch : Channel → ℤ → ℤ
out_epoch c epoch = if synchronous c then inc32 epoch else epoch

abbrev is_output : String → Channel → Bool
is_output op_name c = c.spec.from == op_name && c.finite_epochs

abbrev is_last : Channel → ℤ → Bool
is_last c epoch = synchronous c && leb_ℤ (max_epochs_of c.spec.feedback) (out_epoch c epoch)

unfoldable pub close_output : String → ℤ → Channel → Channel
unfolding seal_channel
close_output op_name epoch c =
    if is_output op_name c
    then if is_last c epoch
      then seal_channel c
      else record c { production_closed = add_key c.production_closed (out_epoch c epoch) }
    else c

-- Each channel that is sealed wakes the readers once.
abbrev count_sealed : String → ℤ → List Channel → ℕ
count_sealed op_name epoch [] = 0
count_sealed op_name epoch (c ∷ cs) =
    let rest = count_sealed op_name epoch cs in
    if is_output op_name c && is_last c epoch then suc rest else rest

unfoldable pub advance_input : String → ℤ → Channel → Channel
unfolding advance_epoch
advance_input op_name epoch c =
    if c.spec.to == op_name && c.finite_epochs && c.epoch == epoch then advance_epoch c else c

unfoldable pub finish_epoch : String → ℤ → Coordinator → Coordinator
unfolding close_output advance_input
finish_epoch op_name epoch co = record co {
  wake = co.wake + count_sealed op_name epoch (values co.channels);
  channels =
      map_values (λ n c. advance_input op_name epoch c)
        (map_values (λ n c. close_output op_name epoch c) co.channels);
}

abbrev finish_at_barrier : String → ℤ → M (Unit {0})
finish_at_barrier op_name epoch = do
  co ← get_state
  if barrier_reached (op_of co op_name) epoch co.now
      then modify (finish_epoch op_name epoch)
      else return tt

abbrev record_after : String → String → ℤ → Option ℤ → M (Unit {0})
record_after op_name pod_name epoch none = fail Error.unknown_pod
record_after op_name pod_name epoch (some last) = if leb_ℤ epoch last then return tt else (do
  co ← get_state
  refuse_if (any (keeps_open op_name epoch) (values co.channels)) Error.open_input
  modify (update_op op_name (λ o. record o { epoch_done = insert o.epoch_done pod_name epoch }))
  finish_at_barrier op_name epoch)

-- `recordOperationEpochDone`
unfoldable pub record_operation_epoch_done : String → String → ℤ → M (Unit {0})
record_operation_epoch_done op_name pod_name epoch = do
  o ← op op_name
  record_after op_name pod_name epoch (lookup o.epoch_done pod_name)

abbrev has_inbound : Coordinator → String → Bool
has_inbound co op_name = any (λ c. c.spec.to == op_name) (values co.channels)

unfoldable pub source_done : PodRegistration → M (Unit {0})
source_done reg = do
  refuse_if (reg.operation == "" || reg.pod == "") Error.operation_and_pod_required
  p ← require_incarnation reg.operation reg.pod reg.incarnation
  modify (update_pod reg.operation reg.pod (λ q. record q { done = true }))
  co ← get_state
  if has_inbound co reg.operation
      then return tt
      else record_operation_epoch_done reg.operation reg.pod (pos 0)
  commit_locked

abbrev raise_epoch : String → ℤ → ℤ → Channel → Channel
raise_epoch pod_name epoch last c =
    if ltb_ℤ last epoch then record c { epoch_done = insert c.epoch_done pod_name epoch } else c

abbrev report_epoch : String → String → ℤ → Channel → Option ℤ → M (Unit {0})
report_epoch name pod_name epoch c none = fail Error.unknown_pod
report_epoch name pod_name epoch c (some last) =
    modify (put_channel name (raise_epoch pod_name epoch last c))

unfoldable pub epoch_done_session : String → String → String → String → ℤ → M (Unit {0})
epoch_done_session name op_name pod_name incarnation epoch = do
  c ← get name
  refuse_if (not (synchronous c)) Error.not_synchronous
  if op_name == ""
      then return tt
      else (require_incarnation op_name pod_name incarnation >>= λ _. return tt)
  report_epoch name pod_name epoch c (lookup c.epoch_done pod_name)
  modify (touch c.spec.to pod_name "" (pos 0))
  record_operation_epoch_done c.spec.to pod_name epoch
  commit_locked

unfoldable pub operation_epoch_done_session : String → String → String → ℤ → M (Unit {0})
operation_epoch_done_session op_name pod_name incarnation epoch = do
  refuse_if (op_name == "" || pod_name == "") Error.operation_and_pod_required
  p ← require_incarnation op_name pod_name incarnation
  co ← get_state
  modify (update_pod op_name pod_name (λ q. record q { last_seen = co.now }))
  modify (expire_all_except op_name pod_name)
  record_operation_epoch_done op_name pod_name epoch
  commit_locked
