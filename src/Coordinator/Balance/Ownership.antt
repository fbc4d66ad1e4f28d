-- ===== src/Coordinator/Balance/Ownership.antt =====
-- Who owns the hash partitions after `balanceHash` of pkg/coordinator/coordinator.go.
use stark8s.Prelude.{
  ℕ, zero, suc, ◌+◌, ◌<◌, String, true, some, List, [], ◌∷◌, All, contains, lookup, insert,
  lookup-insert_ne, ◌≤◌, range_from, ◌==◌, string_eq, nat_eq, Bool-cases, ◌≢◌, inl, inr, ◌≡◌, refl,
  ◌∙◌, arith,
}
use stark8s.Coordinator.State.{Operation}
use stark8s.Coordinator.Names.{owner_key}
use stark8s.Coordinator.Balance.{
  Balance, add_load, scan, least_loaded, assign_free, start_balance, balance_over, balance_hash,
  live_ids,
}
use stark8s.Coordinator.Balance.Scanned.{
  OwnedIn, assign_free-keeps, assign_free-owned, scan-Seen, scan-owned, scan-apart,
}

assign_free-apart :
    (first : String) (rest : List String) (n : ℕ) (ps : List ℕ) (b : Balance) (j : String)
    → All (λ q. owner_key n q ≢ j) ps
    → lookup (assign_free first rest n ps b).owner j ≡ lookup b.owner j
unfolding assign_free
assign_free-apart first rest n [] b j h = refl
assign_free-apart first rest n (p ∷ ps) b j h =
    let best = least_loaded b.load first rest in
    assign_free-apart first rest n ps
      (record b { owner = insert b.owner (owner_key n p) best; load = add_load b.load best }) j h.1
    ∙ lookup-insert_ne b.owner (owner_key n p) best j h.0

assign_free-pinned :
    (first : String) (rest : List String) (n : ℕ) (ps : List ℕ) (b : Balance)
    → (assign_free first rest n ps b).pinned ≡ b.pinned
unfolding assign_free
assign_free-pinned first rest n [] b = refl
assign_free-pinned first rest n (p ∷ ps) b =
    let best = least_loaded b.load first rest in
    assign_free-pinned first rest n ps
      (record b { owner = insert b.owner (owner_key n p) best; load = add_load b.load best })

contains-range_from :
    (start n p : ℕ) → start ≤ p → p < start + n → contains (range_from start n) p ≡ true
contains-range_from start zero p h k = absurd (omega arith)
contains-range_from start (suc n) p h k = elim (Bool-cases (start == p)) [
  | inl same ↦ rw same refl
  | inr other ↦ rw other (contains-range_from (suc start) n p (ground arith) (omega arith))
]

balance_over-owned :
    (first : String) (rest : List String) (n : ℕ) (o : Operation) (p : ℕ)
    → p < n
    → OwnedIn (first ∷ rest) (balance_over (first ∷ rest) n o).owner (owner_key n p)
unfolding balance_over
balance_over-owned first rest n o p h =
    let b = scan (first ∷ rest) n (range_from 0 n) (start_balance o) in
    elim (scan-Seen (first ∷ rest) n (range_from 0 n) (start_balance o) p
      (contains-range_from 0 n p (omega arith) (omega arith))) [
        | inl free ↦ assign_free-owned first rest n b.free b p free
        | inr (owned, pin) ↦ assign_free-keeps first rest n b.free b (owner_key n p) owned
      ]

balance_over-pinned :
    (ids : List String) (n : ℕ) (o : Operation) (j id : String)
    → lookup o.owner j ≡ some id
    → contains ids id ≡ true
    → contains o.pinned j ≡ true
    → (lookup (balance_over ids n o).owner j ≡ some id)
      × (contains (balance_over ids n o).pinned j ≡ true)
unfolding balance_over
balance_over-pinned [] n o j id e m pin = (e, pin)
balance_over-pinned (first ∷ rest) n o j id e m pin =
    let b = scan (first ∷ rest) n (range_from 0 n) (start_balance o) in
    let (e', pin') = scan-owned (first ∷ rest) n (range_from 0 n) (start_balance o) j id e m pin in
    (
      assign_free-apart first rest n b.free b j
            (scan-apart (first ∷ rest) n (range_from 0 n) (start_balance o) j id e m pin tt)
          ∙ e',
      rw (assign_free-pinned first rest n b.free b) pin',
    )

-- While the operation has a live pod, every hash partition is owned by one of its live pods once the
-- partitions have been balanced.
pub balance_hash-owned :
    (n : ℕ) (o : Operation) (p : ℕ)
    → live_ids o ≢ []
    → p < n
    → (id : String) × (lookup (balance_hash n o).owner (owner_key n p) ≡ some id)
      × (contains (live_ids o) id ≡ true)
unfolding balance_hash
balance_hash-owned n o p ne h = go (live_ids o) refl
  where
    go :
        (ids : List String)
        → live_ids o ≡ ids
        → OwnedIn ids (balance_over ids n o).owner (owner_key n p)
    go [] e = absurd (ne e)
    go (first ∷ rest) e = balance_over-owned first rest n o p h

-- A pinned partition stays with its owner while that owner is alive, under every partition count.
pub balance_hash-pinned :
    (n : ℕ) (o : Operation) (j id : String)
    → lookup o.owner j ≡ some id
    → contains (live_ids o) id ≡ true
    → contains o.pinned j ≡ true
    → (lookup (balance_hash n o).owner j ≡ some id) × (contains (balance_hash n o).pinned j ≡ true)
unfolding balance_hash
balance_hash-pinned n o j id e m pin = balance_over-pinned (live_ids o) n o j id e m pin
