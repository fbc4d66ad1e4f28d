-- ===== src/Coordinator/Registration/Retired.antt =====
-- pkg/coordinator/coordinator.go: what `Register` leaves of the incarnations that were replaced.
use stark8s.Prelude.{
  ℕ, ℤ, String, Bool, true, false, not, ◌&&◌, ◌||◌, Option, none, some, List, [], ◌∷◌, contains,
  lookup, insert, or_else, ◌==◌, string_eq, ◌≡◌, refl, ap, ◌∙◌, arith,
}
use stark8s.Coordinator.Api.{Error, PodRegistration}
use stark8s.Coordinator.State.{Pod, Operation, Coordinator, commit_locked, err}
use stark8s.Coordinator.Pods.{
  new_operation, op_of, set_op, return_consumer_deliveries, release_ownership, expire_all_except,
}
use stark8s.Coordinator.Registration.{
  take_slot, touch, touch_found, update_pod, update_op, is_retired, restart, start_epochs, register,
}
use stark8s.Coordinator.Registration.Fencing.{set_op-retired, expire_all_except-Kept}

-- The replaced incarnations of every pod are as before.
abbrev SameRetired : Coordinator → Coordinator → Type 0
SameRetired co co' = (name : String) → (op_of co' name).retired ≡ (op_of co name).retired

take_slot-retired : (o : Operation) (slots : List ℕ) → (take_slot o slots).1.retired ≡ o.retired
take_slot-retired o [] = refl
take_slot-retired o (slot ∷ slots) = refl

touch_found-retired :
    (op_name pod_name addr : String) (slots : ℤ) (now : ℕ) (o : Operation) (found : Option Pod)
    → (touch_found op_name pod_name addr slots now o found).retired ≡ o.retired
touch_found-retired op_name pod_name addr slots now o none = take_slot-retired o o.free_cohort_slots
touch_found-retired op_name pod_name addr slots now o (some p) = refl

touch-retired :
    (op_name pod_name addr : String) (slots : ℤ) (co : Coordinator)
    → SameRetired co (touch op_name pod_name addr slots co)
unfolding touch
touch-retired op_name pod_name addr slots co = set_op-retired co op_name _ (
    touch_found-retired op_name pod_name addr slots co.now (op_of co op_name)
      (lookup (op_of co op_name).pods pod_name))

abbrev updated : String → String → (Pod → Pod) → Coordinator → Option Pod → Coordinator
updated op_name pod_name f co found =
    let o = op_of co op_name in
    elim found [
      | none ↦ co
      | some p ↦ set_op op_name (record o { pods = insert o.pods pod_name (f p) }) co
    ]

updated-retired :
    (op_name pod_name : String) (f : Pod → Pod) (co : Coordinator) (found : Option Pod)
    → SameRetired co (updated op_name pod_name f co found)
updated-retired op_name pod_name f co none name = refl
updated-retired op_name pod_name f co (some p) name =
    let o = op_of co op_name in
    set_op-retired co op_name (record o { pods = insert o.pods pod_name (f p) }) refl name

update_pod-retired :
    (op_name pod_name : String) (f : Pod → Pod) (co : Coordinator)
    → SameRetired co (update_pod op_name pod_name f co)
update_pod-retired op_name pod_name f co =
    updated-retired op_name pod_name f co (lookup (op_of co op_name).pods pod_name)

start_epochs-retired :
    (pod_name : String) (o : Operation) → (start_epochs pod_name o).retired ≡ o.retired
start_epochs-retired pod_name o = ground arith

return_consumer-retired :
    (n id incarnation : String) (all : Bool) (co : Coordinator)
    → SameRetired co (return_consumer_deliveries n id incarnation all co)
unfolding return_consumer_deliveries
return_consumer-retired n id incarnation all co =
    set_op-retired co n (release_ownership id (op_of co n)) refl

commit_locked-ops : (co : Coordinator) → (commit_locked co).0.ops ≡ co.ops
unfolding commit_locked
commit_locked-ops co = ground arith

commit_locked-retired : (co : Coordinator) → SameRetired co (commit_locked co).0
commit_locked-retired co name =
    ap (λ ops. (or_else (lookup ops name) new_operation).retired) (commit_locked-ops co)

-- The states that a replacing registration goes through after the replaced incarnation is retired.
abbrev pub returned : PodRegistration → Pod → Coordinator → Coordinator
returned reg p co = return_consumer_deliveries reg.operation reg.pod p.incarnation false co

abbrev pub restarted : PodRegistration → Coordinator → Coordinator
restarted reg co = update_op reg.operation (restart reg.pod) (
    update_pod reg.operation reg.pod (λ q. record q { done = false; incarnation = reg.incarnation })
      co)

abbrev pub refreshed : PodRegistration → Coordinator → Coordinator
refreshed reg co = update_op reg.operation (start_epochs reg.pod) (
    update_pod reg.operation reg.pod (λ q. record q { incarnation = reg.incarnation })
      (touch reg.operation reg.pod reg.addr reg.slots co))

restarted-retired : (reg : PodRegistration) (co : Coordinator) → SameRetired co (restarted reg co)
restarted-retired reg co name =
    let mid =
      update_pod reg.operation reg.pod
        (λ q. record q { done = false; incarnation = reg.incarnation }) co in
    set_op-retired mid reg.operation (restart reg.pod (op_of mid reg.operation)) refl name
    ∙ update_pod-retired reg.operation reg.pod _ co name

refreshed-retired : (reg : PodRegistration) (co : Coordinator) → SameRetired co (refreshed reg co)
refreshed-retired reg co name =
    let a = touch reg.operation reg.pod reg.addr reg.slots co in
    let b = update_pod reg.operation reg.pod (λ q. record q { incarnation = reg.incarnation }) a in
    set_op-retired b reg.operation (start_epochs reg.pod (op_of b reg.operation))
      (start_epochs-retired reg.pod (op_of b reg.operation)) name
    ∙ update_pod-retired reg.operation reg.pod _ a name
    ∙ touch-retired reg.operation reg.pod reg.addr reg.slots co name

pub finish-retired :
    (reg : PodRegistration) (p : Pod) (co : Coordinator)
    → SameRetired co (commit_locked (refreshed reg (restarted reg (returned reg p co)))).0
finish-retired reg p co name =
    commit_locked-retired (refreshed reg (restarted reg (returned reg p co))) name
    ∙ refreshed-retired reg (restarted reg (returned reg p co)) name
    ∙ restarted-retired reg (returned reg p co) name
    ∙ return_consumer-retired reg.operation reg.pod p.incarnation false co name

abbrev pub expired : PodRegistration → Coordinator → Coordinator
expired reg co = expire_all_except reg.operation reg.pod co

is_retired-expired :
    (reg : PodRegistration) (co : Coordinator)
    → is_retired (op_of (expired reg co) reg.operation) reg
      ≡ is_retired (op_of co reg.operation) reg
is_retired-expired reg co =
    ap
      (λ r. not (reg.incarnation == "") && contains (or_else (lookup r reg.pod) []) reg.incarnation)
      ((expire_all_except-Kept reg.operation reg.pod co).0 reg.operation)

-- A registration whose incarnation was replaced before fails, at any later time.
pub register-retired :
    (reg : PodRegistration) (co : Coordinator)
    → (reg.operation == "" || reg.pod == "") ≡ false
    → is_retired (op_of co reg.operation) reg ≡ true
    → (register reg co).1 ≡ err Error.incarnation_replaced
unfolding register
register-retired reg co named old = rw (named, is_retired-expired reg co ∙ old) refl
