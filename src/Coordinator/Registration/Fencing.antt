-- ===== src/Coordinator/Registration/Fencing.antt =====
-- Process replacement in `Register` of pkg/coordinator/coordinator.go: what expiry and registration
-- do to the incarnations that were replaced.
use stark8s.Prelude.{
  String, Bool, true, false, ◌&&◌, ◌||◌, some, [], ◌∷◌, Map, lookup, lookup-insert,
  lookup-delete_ne, or_else, Bool-cases, ◌==◌, string_eq, if◌then◌else◌, eq_of_==, ==-refl, inl,
  inr, ◌≡◌, refl, sym, subst, ap, ◌∙◌, arith,
}
use stark8s.Coordinator.State.{Pod, Operation, Coordinator}
use stark8s.Coordinator.Pods.{
  op_of, set_op, new_operation, release_ownership, drop_pod, is_live, return_consumer_deliveries,
  expire_holder, expire_pod, expire_pods, expire_ops, expire_all_except,
}

pub op_of-set_op_self :
    (co : Coordinator) (n m : String) (o : Operation)
    → (n == m) ≡ true
    → op_of (set_op n o co) m ≡ o
op_of-set_op_self co n m o same =
    ap (λ l. or_else l new_operation) {y = some o} (lookup-insert co.ops n o m ∙ rw same refl)

op_of-set_op_ne :
    (co : Coordinator) (n m : String) (o : Operation)
    → (n == m) ≡ false
    → op_of (set_op n o co) m ≡ op_of co m
op_of-set_op_ne co n m o other =
    ap (λ l. or_else l new_operation) {y = lookup co.ops m}
      (lookup-insert co.ops n o m ∙ rw other refl)

-- The pod (`skip_op`, `skip_pod`) is as before, and so are the replaced incarnations of all pods.
abbrev Kept : String → String → Coordinator → Coordinator → Type 0
Kept skip_op skip_pod co co' =
    ((name : String) → (op_of co' name).retired ≡ (op_of co name).retired)
    × (lookup (op_of co' skip_op).pods skip_pod ≡ lookup (op_of co skip_op).pods skip_pod)

pub set_op-retired :
    (co : Coordinator) (n : String) (o : Operation)
    → o.retired ≡ (op_of co n).retired
    → (name : String) → (op_of (set_op n o co) name).retired ≡ (op_of co name).retired
set_op-retired co n o h name = elim (Bool-cases (n == name)) [
  | inl same ↦
      ap (λ o. o.retired) (op_of-set_op_self co n name o same)
      ∙ h
      ∙ ap (λ m. (op_of co m).retired) (eq_of_== n name same)
  | inr other ↦ ap (λ o. o.retired) (op_of-set_op_ne co n name o other)
]

set_op-Kept :
    (skip_op skip_pod : String) (co : Coordinator) (n : String) (o : Operation)
    → o.retired ≡ (op_of co n).retired
    → (n ≡ skip_op → lookup o.pods skip_pod ≡ lookup (op_of co n).pods skip_pod)
    → Kept skip_op skip_pod co (set_op n o co)
set_op-Kept skip_op skip_pod co n o h k = (
  set_op-retired co n o h,
  elim (Bool-cases (n == skip_op)) [
    | inl same ↦
        ap (λ o. lookup o.pods skip_pod) (op_of-set_op_self co n skip_op o same)
        ∙ k (eq_of_== n skip_op same)
        ∙ ap (λ m. lookup (op_of co m).pods skip_pod) (eq_of_== n skip_op same)
    | inr other ↦ ap (λ o. lookup o.pods skip_pod) (op_of-set_op_ne co n skip_op o other)
  ],
)

Kept-trans :
    (skip_op skip_pod : String) (a b c : Coordinator)
    → Kept skip_op skip_pod a b
    → Kept skip_op skip_pod b c
    → Kept skip_op skip_pod a c
Kept-trans skip_op skip_pod a b c (h, k) (h', k') = (λ n. h' n ∙ h n, k' ∙ k)

return_consumer-Kept :
    (skip_op skip_pod n id incarnation : String) (all : Bool) (co : Coordinator)
    → Kept skip_op skip_pod co (return_consumer_deliveries n id incarnation all co)
unfolding return_consumer_deliveries
return_consumer-Kept skip_op skip_pod n id incarnation all co =
    set_op-Kept skip_op skip_pod co n (release_ownership id (op_of co n)) refl (λ e. refl)

expire_pod-Kept :
    (skip_op skip_pod n id : String) (p : Pod) (co : Coordinator)
    → (n == skip_op && id == skip_pod) ≡ false
    → Kept skip_op skip_pod co (expire_pod n id p co)
unfolding expire_pod expire_holder
expire_pod-Kept skip_op skip_pod n id p co ne =
    let co1 = set_op n (drop_pod id p (op_of co n)) co in
    Kept-trans skip_op skip_pod co co1 (return_consumer_deliveries n id "" true co1)
      (set_op-Kept skip_op skip_pod co n (drop_pod id p (op_of co n)) refl (λ e.
        lookup-delete_ne (op_of co n).pods id skip_pod
          (λ e'. absurd (ground (arith, ne, ==-refl n, ==-refl id, e, e')))))
      (return_consumer-Kept skip_op skip_pod n id "" true co1)

-- One round of the loop over the pods of an operation.
abbrev expire_silent : String → String → String → String → Pod → Coordinator → Coordinator
expire_silent skip_op skip_pod n id p co =
    if (n == skip_op && id == skip_pod) || is_live co.now p then co else expire_pod n id p co

expire_silent-Kept :
    (skip_op skip_pod n id : String) (p : Pod) (co : Coordinator)
    → Kept skip_op skip_pod co (expire_silent skip_op skip_pod n id p co)
expire_silent-Kept skip_op skip_pod n id p co =
    elim (Bool-cases ((n == skip_op && id == skip_pod) || is_live co.now p)) [
      | inl spared ↦
          subst (λ b. Kept skip_op skip_pod co (if b then co else expire_pod n id p co))
            (sym spared) (λ name. refl, refl)
      | inr silent ↦
          subst (λ b. Kept skip_op skip_pod co (if b then co else expire_pod n id p co))
            (sym silent) (expire_pod-Kept skip_op skip_pod n id p co (ground (arith, silent)))
    ]

expire_pods-Kept :
    (skip_op skip_pod n : String) (ps : Map String Pod) (co : Coordinator)
    → Kept skip_op skip_pod co (expire_pods skip_op skip_pod n ps co)
unfolding expire_pods
expire_pods-Kept skip_op skip_pod n [] co = (λ name. refl, refl)
expire_pods-Kept skip_op skip_pod n ((id, p) ∷ ps) co =
    let co1 = expire_silent skip_op skip_pod n id p co in
    Kept-trans skip_op skip_pod co co1 (expire_pods skip_op skip_pod n ps co1)
      (expire_silent-Kept skip_op skip_pod n id p co) (expire_pods-Kept skip_op skip_pod n ps co1)

expire_ops-Kept :
    (skip_op skip_pod : String) (os : Map String Operation) (co : Coordinator)
    → Kept skip_op skip_pod co (expire_ops skip_op skip_pod os co)
unfolding expire_ops
expire_ops-Kept skip_op skip_pod [] co = (λ name. refl, refl)
expire_ops-Kept skip_op skip_pod ((n, o) ∷ os) co =
    Kept-trans skip_op skip_pod co (expire_pods skip_op skip_pod n o.pods co)
      (expire_ops skip_op skip_pod os (expire_pods skip_op skip_pod n o.pods co))
      (expire_pods-Kept skip_op skip_pod n o.pods co)
      (expire_ops-Kept skip_op skip_pod os (expire_pods skip_op skip_pod n o.pods co))

-- Expiry never forgets an incarnation that was replaced, and spares the pod of its caller.
pub expire_all_except-Kept :
    (skip_op skip_pod : String) (co : Coordinator)
    → let co' = expire_all_except skip_op skip_pod co in
      ((name : String) → (op_of co' name).retired ≡ (op_of co name).retired)
      × (lookup (op_of co' skip_op).pods skip_pod ≡ lookup (op_of co skip_op).pods skip_pod)
unfolding expire_all_except
expire_all_except-Kept skip_op skip_pod co = expire_ops-Kept skip_op skip_pod co.ops co
