-- ===== src/Coordinator/Registration.antt =====
-- Registration, heartbeats and process replacement in pkg/coordinator/coordinator.go: `touch`,
-- `Register`, `requireIncarnation` and `ReleasedSession`.
pub mod Retired
pub mod Fencing
pub mod Replaced
use stark8s.Prelude.{
  ℕ, ℤ, pos, negsuc, suc, String, Bool, false, not, ◌&&◌, ◌||◌, Option, none, some, List, [], ◌∷◌,
  ◌++◌, foldl, contains, add_key, remove_key, map_values, keep, keep_entries, values, lookup,
  insert, has, or_else, ltb_ℤ, is_some, ◌==◌, string_eq, if◌then◌else◌, map,
}
use stark8s.Graph.{is_retained}
use stark8s.Coordinator.Api.{Error, PodRegistration}
use stark8s.Coordinator.State.{
  Pod, Operation, Channel, Coordinator, M, ◌>>=◌, ◌>>◌, return, fail, modify, refuse_if,
  commit_locked, get_state, Result, ok, err,
}
use stark8s.Coordinator.Balance.{sort_texts}
use stark8s.Coordinator.Pods.{
  op_of, set_op, op, return_consumer_deliveries, expire_all_except, expire_all,
}

-- The cohort slot of a new pod: the least free one, or the next.
abbrev take_slot : Operation → List ℕ → ℕ × Operation
take_slot o [] = (o.next_cohort_slot, record o { next_cohort_slot = suc o.next_cohort_slot })
take_slot o (slot ∷ slots) = (slot, record o { free_cohort_slots = slots })

abbrev new_pod : String → String → ℕ → Pod
new_pod name op_name slot = record {
  name = name;
  op = op_name;
  addr = "";
  slots = pos 0;
  last_seen = 0;
  done = false;
  incarnation = "";
  cohort_slot = slot;
}

abbrev refresh : String → ℤ → ℕ → Pod → Pod
refresh addr slots now p = record p {
  addr = if addr == "" then p.addr else addr;
  slots = if ltb_ℤ (pos 0) slots then slots else p.slots;
  last_seen = now;
}

abbrev pub touch_found : String → String → String → ℤ → ℕ → Operation → Option Pod → Operation
touch_found op_name pod_name addr slots now o (some p) = record o {
  pods = insert o.pods pod_name (refresh addr slots now p);
}
touch_found op_name pod_name addr slots now o none =
    let (slot, o') = take_slot o o.free_cohort_slots in
    record o' {
      pods = insert o.pods pod_name (refresh addr slots now (new_pod pod_name op_name slot));
    }

unfoldable pub touch : String → String → String → ℤ → Coordinator → Coordinator
touch op_name pod_name addr slots co =
    let o = op_of co op_name in
    set_op op_name (touch_found op_name pod_name addr slots co.now o (lookup o.pods pod_name)) co

-- `p.incarnation != incarnation` and the like, on a pod that is registered.
abbrev check_incarnation : String → Option Pod → M Pod
check_incarnation incarnation none = fail Error.pod_not_registered
check_incarnation incarnation (some p) =
    if p.incarnation == incarnation then return p else fail Error.incarnation_inactive

unfoldable pub require_incarnation : String → String → String → M Pod
require_incarnation op_name pod_name incarnation = do
  o ← op op_name
  check_incarnation incarnation (lookup o.pods pod_name)

-- A caller that names no pod is not verified.
abbrev pub verify_pod : String → String → String → M (Unit {0})
verify_pod op_name pod_name incarnation =
    if pod_name == ""
    then return tt
    else (do require_incarnation op_name pod_name incarnation >>= λ _. return tt)

abbrev pub update_pod : String → String → (Pod → Pod) → Coordinator → Coordinator
update_pod op_name pod_name f co =
    let o = op_of co op_name in
    elim (lookup o.pods pod_name) [
      | none ↦ co
      | some p ↦ set_op op_name (record o { pods = insert o.pods pod_name (f p) }) co
    ]

abbrev pub update_op : String → (Operation → Operation) → Coordinator → Coordinator
update_op name f co = set_op name (f (op_of co name)) co

abbrev pub retired_of : Operation → String → List String
retired_of o pod_name = or_else (lookup o.retired pod_name) []

abbrev pub retire : String → String → Operation → Operation
retire pod_name incarnation o = if incarnation == "" then o else (record o {
  retired = insert o.retired pod_name (add_key (retired_of o pod_name) incarnation);
})

abbrev pub restart : String → Operation → Operation
restart pod_name o = record o {
  epoch_done = insert o.epoch_done pod_name (negsuc 0);
  completed = false;
}

abbrev pub start_epochs : String → Operation → Operation
start_epochs pod_name o =
    if has o.epoch_done pod_name
    then o
    else (record o { epoch_done = insert o.epoch_done pod_name (negsuc 0) })

-- The branch of `Register` for a pod whose process has been replaced.
abbrev replace_process : PodRegistration → Pod → M (Unit {0})
replace_process reg p = do
  refuse_if (not (p.incarnation == "") && reg.incarnation == "") Error.incarnation_required
  modify (update_op reg.operation (retire reg.pod p.incarnation))
  modify (return_consumer_deliveries reg.operation reg.pod p.incarnation false)
  modify (
      update_pod reg.operation reg.pod
        (λ q. record q { done = false; incarnation = reg.incarnation }))
  modify (update_op reg.operation (restart reg.pod))

abbrev replace_if_new : PodRegistration → Option Pod → M (Unit {0})
replace_if_new reg none = return tt
replace_if_new reg (some p) =
    if p.incarnation == reg.incarnation then return tt else replace_process reg p

abbrev pub is_retired : Operation → PodRegistration → Bool
is_retired o reg = not (reg.incarnation == "") && contains (retired_of o reg.pod) reg.incarnation

unfoldable pub register : PodRegistration → M (Unit {0})
register reg = do
  refuse_if (reg.operation == "" || reg.pod == "") Error.operation_and_pod_required
  modify (expire_all_except reg.operation reg.pod)
  o ← op reg.operation
  refuse_if (is_retired o reg) Error.incarnation_replaced
  replace_if_new reg (lookup o.pods reg.pod)
  modify (touch reg.operation reg.pod reg.addr reg.slots)
  modify (update_pod reg.operation reg.pod (λ p. record p { incarnation = reg.incarnation }))
  modify (update_op reg.operation (start_epochs reg.pod))
  commit_locked

-- Whether the holder may delete a segment and the coordinator may forget it.
abbrev deletable : String → Channel → ℕ → Bool
deletable pod_name c p =
    let s = c.heap p in
    if is_retained c.spec.durability && not s.retention_deleted
    then false
    else s.producer == pod_name && s.released && not (is_some s.payload)

abbrev deletable_ids : String → Channel → List String
deletable_ids pod_name c = map (λ p. (c.heap p).id) (keep (deletable pod_name c) (values c.index))

abbrev all_deletable : String → List Channel → List String
all_deletable pod_name [] = []
all_deletable pod_name (c ∷ cs) = deletable_ids pod_name c ++ all_deletable pod_name cs

abbrev forget_deletable : String → Channel → Channel
forget_deletable pod_name c = record c {
  index = keep_entries (λ k p. not (deletable pod_name c p)) c.index;
}

abbrev forget_all : String → List String → Coordinator → Coordinator
forget_all pod_name ids co = record co {
  channels = map_values (λ n c. forget_deletable pod_name c) co.channels;
  tombstone_keys = foldl add_key co.tombstone_keys ids;
}

-- A failed commit puts the indexes back and takes the tombstones away.
abbrev restore_on_error :
    Coordinator → List String → Coordinator × Result (Unit {0}) → Coordinator × Result (List String)
restore_on_error before ids (co, ok u) = (co, ok (sort_texts ids))
restore_on_error before ids (co, err e) = (
  record co { channels = before.channels; tombstone_keys = foldl remove_key co.tombstone_keys ids },
  err e,
)

unfoldable pub released_session : String → String → String → M (List String)
released_session op_name pod_name incarnation = do
  if op_name == ""
      then return tt
      else (require_incarnation op_name pod_name incarnation >>= λ _. return tt)
  modify expire_all
  before ← get_state
  let ids = all_deletable pod_name (values before.channels)
  modify (forget_all pod_name ids)
  λ co. restore_on_error before ids (commit_locked co)
