-- ===== src/Coordinator/Epochs/Barrier.antt =====
-- The barrier between epochs in `recordOperationEpochDone` of pkg/coordinator/coordinator.go.
use stark8s.Prelude.{
  ◌+◌, ◌≤ℤ◌, or_else, pos, ℕ, ℤ, ◌≤◌, ◌<◌, pos_part, String, true, false, Option, none, some, [],
  ◌∷◌, Map, All, any, length, values, lookup, insert, leb_ℤ, Bool-cases, string_eq, int_eq, nat_eq,
  ◌⊎◌, inl, inr, ◌≡◌, refl, arith,
}
use stark8s.Coordinator.State.{Pod, Operation, Coordinator}
use stark8s.Coordinator.Pods.{pod_ttl, op_of, set_op}
use stark8s.Coordinator.Registration.{update_op}
use stark8s.Coordinator.Epochs.{
  is_done_pod, count_done, barrier_reached, keeps_open, finish_epoch, finish_at_barrier,
  record_after, record_operation_epoch_done,
}

count_done-le :
    (o : Operation) (epoch : ℤ) (now : ℕ) (ps : Map String Pod)
    → count_done o epoch now ps ≤ length ps
unfolding count_done
count_done-le o epoch now [] = omega arith
count_done-le o epoch now ((id, p) ∷ ps) = ground (arith, count_done-le o epoch now ps)

-- If as many pods are done as there are, each of them is.
count_done-All :
    (o : Operation) (epoch : ℤ) (now : ℕ) (ps : Map String Pod)
    → length ps ≤ count_done o epoch now ps
    → All (λ e. is_done_pod o epoch now e.0 e.1 ≡ true) ps
unfolding count_done
count_done-All o epoch now [] h = tt
count_done-All o epoch now ((id, p) ∷ ps) h = elim (Bool-cases (is_done_pod o epoch now id p)) [
  | inl done ↦ (done, count_done-All o epoch now ps (ground arith))
  | inr open_pod ↦ absurd (ground (arith, count_done-le o epoch now ps))
]

-- What the test of one pod says.
done-All :
    (o : Operation) (epoch : ℤ) (now : ℕ) (ps : Map String Pod)
    → All (λ e. is_done_pod o epoch now e.0 e.1 ≡ true) ps
    → All
        (λ (e : String × Pod).
          (now < e.1.last_seen + pod_ttl) × (epoch ≤ℤ or_else (lookup o.epoch_done e.0) (pos 0)))
        ps
done-All o epoch now [] h = tt
done-All o epoch now ((id, p) ∷ ps) h =
    ((ground (arith, h.0), ground (arith, h.0)), done-All o epoch now ps h.1)

-- The barrier is reached only when every registered pod was seen less than the time to live ago and the
-- last epoch that it has reported, 0 for a pod that has reported none, is at least the epoch; and when
-- the pods are at least as many as the published replica count, and not none.
pub barrier_reached-All :
    (o : Operation) (epoch : ℤ) (now : ℕ)
    → barrier_reached o epoch now ≡ true
    → All
        (λ (e : String × Pod).
          (now < e.1.last_seen + pod_ttl) × (epoch ≤ℤ or_else (lookup o.epoch_done e.0) (pos 0)))
        o.pods
      × (pos_part o.replicas ≤ length o.pods)
      × (0 < length o.pods)
unfolding barrier_reached
barrier_reached-All o epoch now h = (
  done-All o epoch now o.pods (count_done-All o epoch now o.pods (ground arith)),
  ground (arith, count_done-le o epoch now o.pods),
  ground (arith, count_done-le o epoch now o.pods),
)

abbrev Outcome : String → ℤ → Coordinator → Coordinator → Type 0
Outcome op_name epoch co co' =
    (co'.channels ≡ co.channels)
    ⊎ ((co'.channels ≡ (finish_epoch op_name epoch co).channels)
        × (barrier_reached (op_of co' op_name) epoch co.now ≡ true)
        × (any (keeps_open op_name epoch) (values co.channels) ≡ false))

finish_at_barrier-channels :
    (op_name : String) (epoch : ℤ) (co : Coordinator)
    → any (keeps_open op_name epoch) (values co.channels) ≡ false
    → Outcome op_name epoch co (finish_at_barrier op_name epoch co).0
unfolding finish_epoch
finish_at_barrier-channels op_name epoch co closed =
    elim (Bool-cases (barrier_reached (op_of co op_name) epoch co.now)) [
      | inl reached ↦ rw reached (inr (refl, reached, closed))
      | inr waiting ↦ rw waiting (inl refl)
    ]

record_after-channels :
    (op_name pod_name : String) (epoch : ℤ) (last : Option ℤ) (co : Coordinator)
    → Outcome op_name epoch co (record_after op_name pod_name epoch last co).0
unfolding finish_epoch
record_after-channels op_name pod_name epoch none co = inl refl
record_after-channels op_name pod_name epoch (some last) co = elim (Bool-cases (leb_ℤ epoch last)) [
  | inl old ↦ rw old (inl refl)
  | inr new ↦ elim (Bool-cases (any (keeps_open op_name epoch) (values co.channels))) [
    | inl open_input ↦ rw (new, open_input) (inl refl)
    | inr closed ↦
        rw (new, closed)
          (elim (finish_at_barrier-channels op_name epoch
            (update_op op_name (λ o. record o { epoch_done = insert o.epoch_done pod_name epoch })
              co)
            closed) [
              | inl same ↦ inl same
              | inr (stepped, reached, quiet') ↦ inr (stepped, reached, refl)
            ])
  ]
]

-- What one report does to the channels: nothing, or the step to the next epoch, and then the barrier
-- is reached and no input of the operation is open.
pub record_operation_epoch_done-channels :
    (op_name pod_name : String) (epoch : ℤ) (co : Coordinator)
    → let co' = (record_operation_epoch_done op_name pod_name epoch co).0 in
      (co'.channels ≡ co.channels)
      ⊎ ((co'.channels ≡ (finish_epoch op_name epoch co).channels)
          × (barrier_reached (op_of co' op_name) epoch co.now ≡ true)
          × (any (keeps_open op_name epoch) (values co.channels) ≡ false))
unfolding record_operation_epoch_done finish_epoch
record_operation_epoch_done-channels op_name pod_name epoch co =
    record_after-channels op_name pod_name epoch (lookup (op_of co op_name).epoch_done pod_name)
      (set_op op_name (op_of co op_name) co)
