-- ===== src/Coordinator/Registration/Replaced.antt =====
-- A process that was replaced cannot register again (`Register` of pkg/coordinator/coordinator.go).
use stark8s.Prelude.{
  ℕ, ℤ, String, true, false, ◌||◌, some, [], contains, add_key, contains-add_key_self, lookup,
  lookup-insert_self, or_else, Bool-cases, ◌==◌, string_eq, ==-refl, ==-ne, ◌≢◌, inl, inr, ◌≡◌, ap,
  ◌∙◌,
}
use stark8s.Coordinator.Api.{Error, PodRegistration}
use stark8s.Coordinator.State.{Pod, Operation, Coordinator, commit_locked, Result, ok, err}
use stark8s.Coordinator.Pods.{op_of, set_op}
use stark8s.Coordinator.Registration.{update_op, retired_of, is_retired, retire, register}
use stark8s.Coordinator.Registration.Fencing.{op_of-set_op_self, expire_all_except-Kept}
use stark8s.Coordinator.Registration.Retired.{
  returned, restarted, refreshed, finish-retired, expired, register-retired,
}

err_ne_ok : {e : Error} → ◌≡◌ {A = Result (Unit {0})} (err e) (ok tt) → ⊥
err_ne_ok p = cc

-- The operation is in the table, and the replaced incarnation is retired.
abbrev replaced : PodRegistration → Pod → Coordinator → Coordinator
replaced reg p co =
    update_op reg.operation (retire reg.pod p.incarnation)
      (set_op reg.operation (op_of co reg.operation) co)

-- A registration that succeeds names its operation and its pod.
named_pod :
    (reg : PodRegistration) (co : Coordinator)
    → (register reg co).1 ≡ ok tt
    → (reg.operation == "" || reg.pod == "") ≡ false
unfolding register
named_pod reg co done = elim (Bool-cases (reg.operation == "" || reg.pod == "")) [
  | inl bad ↦ absurd (err_ne_ok (rw bad at done))
  | inr fine ↦ fine
]

-- How `Register` runs where a process replaces another.
register-replaces :
    (P : Coordinator → Type 0) (reg : PodRegistration) (p : Pod) (co : Coordinator)
    → lookup (op_of co reg.operation).pods reg.pod ≡ some p
    → (p.incarnation == "") ≡ false
    → (p.incarnation == reg.incarnation) ≡ false
    → (register reg co).1 ≡ ok tt
    → P
        (commit_locked
          (refreshed reg (restarted reg (returned reg p (replaced reg p (expired reg co)))))).0
    → P (register reg co).0
unfolding register
register-replaces P reg p co found named other done result =
    elim (Bool-cases (reg.operation == "" || reg.pod == "")) [
      | inl bad ↦ absurd (err_ne_ok (rw bad at done))
      | inr fine ↦ elim (Bool-cases (is_retired (op_of (expired reg co) reg.operation) reg)) [
        | inl old ↦ absurd (err_ne_ok (rw (fine, old) at done))
        | inr fresh ↦ elim (Bool-cases (reg.incarnation == "")) [
          | inl bare ↦ absurd (err_ne_ok (rw (fine, fresh, here, other, named, bare) at done))
          | inr given ↦ rw (fine, fresh, here, other, named, given) result
        ]
      ]
    ]
  where
    here : lookup (op_of (expired reg co) reg.operation).pods reg.pod ≡ some p
    here = (expire_all_except-Kept reg.operation reg.pod co).1 ∙ found

retire-retired :
    (pod_name incarnation : String) (o : Operation)
    → (incarnation == "") ≡ false
    → contains (retired_of (retire pod_name incarnation o) pod_name) incarnation ≡ true
retire-retired pod_name incarnation o named =
    rw (named, lookup-insert_self o.retired pod_name (add_key (retired_of o pod_name) incarnation))
      (contains-add_key_self (retired_of o pod_name) incarnation)

-- After a registration that replaced the process of a pod, the replaced incarnation is retired.
register-retires :
    (reg : PodRegistration) (p : Pod) (co : Coordinator)
    → lookup (op_of co reg.operation).pods reg.pod ≡ some p
    → (p.incarnation == "") ≡ false
    → (p.incarnation == reg.incarnation) ≡ false
    → (register reg co).1 ≡ ok tt
    → contains (retired_of (op_of (register reg co).0 reg.operation) reg.pod) p.incarnation ≡ true
register-retires reg p co found named other done =
    register-replaces
      (λ co'. contains (retired_of (op_of co' reg.operation) reg.pod) p.incarnation ≡ true) reg p co
      found named other done
      (ap (λ r. contains (or_else (lookup r reg.pod) []) p.incarnation)
          (finish-retired reg p (replaced reg p (expired reg co)) reg.operation
            ∙ ap (λ o. o.retired)
                (op_of-set_op_self (set_op reg.operation now (expired reg co)) reg.operation
                  reg.operation
                  (retire reg.pod p.incarnation
                    (op_of (set_op reg.operation now (expired reg co)) reg.operation))
                  (==-refl reg.operation)))
        ∙ retire-retired reg.pod p.incarnation
            (op_of (set_op reg.operation now (expired reg co)) reg.operation) named)
  where
    now : Operation
    now = op_of (expired reg co) reg.operation

-- A process with an incarnation that another process of its pod has replaced is fenced: when the new
-- one, with another incarnation, has registered, the old incarnation cannot register again on the
-- state that was left, at any later time.
pub register-fences :
    (reg : PodRegistration) (p : Pod) (co : Coordinator)
    → lookup (op_of co reg.operation).pods reg.pod ≡ some p
    → p.incarnation ≢ ""
    → p.incarnation ≢ reg.incarnation
    → (register reg co).1 ≡ ok tt
    → (addr : String) (slots : ℤ) (later : ℕ)
    → let old = record reg { incarnation = p.incarnation; addr = addr; slots = slots } in
      (register old (record ((register reg co).0) { now = later })).1
      ≡ err Error.incarnation_replaced
register-fences reg p co found named other done addr slots later =
    register-retired (record reg { incarnation = p.incarnation; addr = addr; slots = slots })
      (record ((register reg co).0) { now = later }) (named_pod reg co done)
      (rw (==-ne p.incarnation "" named) (
        register-retires reg p co found (==-ne p.incarnation "" named)
          (==-ne p.incarnation reg.incarnation other) done))
