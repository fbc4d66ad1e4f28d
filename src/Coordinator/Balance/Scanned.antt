-- ===== src/Coordinator/Balance/Scanned.antt =====
-- The loop of `balanceHash` of pkg/coordinator/coordinator.go over the partitions.
use stark8s.Prelude.{
  ℕ, String, true, some, List, [], ◌∷◌, ◌++◌, All, Map, contains, contains-remove_key_ne,
  contains-append, lookup, insert, lookup-insert, ne_of_==, All-append, lookup-insert_self,
  lookup-delete_ne, ltb, ==-refl, eq_of_==, ◌==◌, string_eq, nat_eq, if◌then◌else◌, Bool-cases,
  Option-cases, ◌≢◌, ◌⊎◌, inl, inr, ◌≡◌, refl, ◌∙◌, arith,
}
use stark8s.Coordinator.Names.{owner_key}
use stark8s.Coordinator.Balance.{
  Balance, load_of, add_load, scan_partition, scan, least_loaded, assign_free,
}

-- The key is owned by a pod of the list.
abbrev pub OwnedIn : List String → Map String String → String → Type 0
OwnedIn ids owner k = (id : String) × (lookup owner k ≡ some id) × (contains ids id ≡ true)

least_loaded-mem :
    (load : Map String ℕ) (best : String) (ids : List String)
    → contains (best ∷ ids) (least_loaded load best ids) ≡ true
unfolding least_loaded
least_loaded-mem load best [] = ground (arith, ==-refl best)
least_loaded-mem load best (id ∷ ids) = ground (
  arith,
  least_loaded-mem load (if ltb (load_of load id) (load_of load best) then id else best) ids,
)

-- A key that is owned by a live pod is so still when the free partitions have been assigned.
module _ (first : String) (rest : List String) (n : ℕ) where
  OwnedIn-insert :
      (owner : Map String String) (k j best : String)
      → contains (first ∷ rest) best ≡ true
      → OwnedIn (first ∷ rest) owner j
      → OwnedIn (first ∷ rest) (insert owner k best) j
  OwnedIn-insert owner k j best live (id, e, m) = elim (Bool-cases (k == j)) [
    | inl same ↦ (best, lookup-insert owner k best j ∙ rw same refl, live)
    | inr other ↦ (id, lookup-insert owner k best j ∙ rw other e, m)
  ]

  pub assign_free-keeps :
      (ps : List ℕ) (b : Balance) (j : String)
      → OwnedIn (first ∷ rest) b.owner j
      → OwnedIn (first ∷ rest) (assign_free first rest n ps b).owner j
  unfolding assign_free
  assign_free-keeps [] b j h = h
  assign_free-keeps (p ∷ ps) b j h =
      let best = least_loaded b.load first rest in
      assign_free-keeps ps
        (record b { owner = insert b.owner (owner_key n p) best; load = add_load b.load best }) j
        (OwnedIn-insert b.owner (owner_key n p) j best (least_loaded-mem b.load first rest) h)

  pub assign_free-owned :
      (ps : List ℕ) (b : Balance) (p : ℕ)
      → contains ps p ≡ true
      → OwnedIn (first ∷ rest) (assign_free first rest n ps b).owner (owner_key n p)
  unfolding assign_free
  assign_free-owned [] b p h = absurd (ground arith)
  assign_free-owned (q ∷ ps) b p h =
      let best = least_loaded b.load first rest in
      let b' : Balance = record b {
        owner = insert b.owner (owner_key n q) best;
        load = add_load b.load best;
      } in
      elim (Bool-cases (q == p)) [
        | inr other ↦ assign_free-owned ps b' p (ground arith)
        | inl same ↦ rw (← eq_of_== q p same) (
            assign_free-keeps ps b' (owner_key n q) (
              best,
              lookup-insert_self b.owner (owner_key n q) best,
              least_loaded-mem b.load first rest,
            ))
      ]

-- A partition is free, or its key is owned by a live pod and pinned.
abbrev Seen : List String → ℕ → Balance → ℕ → Type 0
Seen ids n b p =
    (contains b.free p ≡ true)
    ⊎ (OwnedIn ids b.owner (owner_key n p) × (contains b.pinned (owner_key n p) ≡ true))

module _ (ids : List String) (n : ℕ) where
  scan_partition-Seen : (p : ℕ) (b : Balance) → Seen ids n (scan_partition ids n p b) p
  unfolding scan_partition
  scan_partition-Seen p b =
      let free : contains (b.free ++ p ∷ []) p ≡ true =
        contains-append b.free (p ∷ []) p ∙ ground (arith, ==-refl p) in
      elim (Option-cases (lookup b.owner (owner_key n p))) [
        | inl unowned ↦ rw unowned (inl free)
        | inr (id, e) ↦ elim (Bool-cases (contains ids id)) [
          | inr dead ↦ rw (e, dead) (inl free)
          | inl live ↦ elim (Bool-cases (contains b.pinned (owner_key n p))) [
            | inl pin ↦ rw (e, live, pin) (inr ((id, e, live), pin))
            | inr loose ↦ rw (e, live, loose) (inl free)
          ]
        ]
      ]

  scan_partition-free :
      (p : ℕ) (b : Balance) (q : ℕ)
      → contains b.free q ≡ true
      → contains (scan_partition ids n p b).free q ≡ true
  unfolding scan_partition
  scan_partition-free p b q h =
      let more : contains (b.free ++ p ∷ []) q ≡ true =
        contains-append b.free (p ∷ []) q ∙ ground arith in
      ground arith

  -- What is owned by a live pod and pinned is not touched.
  scan_partition-owned :
      (p : ℕ) (b : Balance) (j id : String)
      → lookup b.owner j ≡ some id
      → contains ids id ≡ true
      → contains b.pinned j ≡ true
      → (lookup (scan_partition ids n p b).owner j ≡ some id)
        × (contains (scan_partition ids n p b).pinned j ≡ true)
  unfolding scan_partition
  scan_partition-owned p b j id e m pin = elim (Bool-cases (owner_key n p == j)) [
    | inl same ↦
        let k = eq_of_== (owner_key n p) j same in
        let e' : lookup b.owner (owner_key n p) ≡ some id = rw k e in
        let pin' : contains b.pinned (owner_key n p) ≡ true = rw k pin in rw (e', m, pin') (e, pin)
    | inr other ↦
        let ne = ne_of_== (owner_key n p) j other in
        ground (
          arith,
          lookup-delete_ne b.owner (owner_key n p) j ne,
          contains-remove_key_ne b.pinned (owner_key n p) j ne,
        )
  ]

  scan_partition-keeps :
      (p : ℕ) (b : Balance) (q : ℕ) → Seen ids n b q → Seen ids n (scan_partition ids n p b) q
  scan_partition-keeps p b q (inl free) = inl (scan_partition-free p b q free)
  scan_partition-keeps p b q (inr ((id, e, m), pin)) =
      let (e', pin') = scan_partition-owned p b (owner_key n q) id e m pin in
      inr ((id, e', m), pin')

  scan-keeps : (ps : List ℕ) (b : Balance) (q : ℕ) → Seen ids n b q → Seen ids n (scan ids n ps b) q
  unfolding scan
  scan-keeps [] b q s = s
  scan-keeps (p ∷ ps) b q s =
      scan-keeps ps (scan_partition ids n p b) q (scan_partition-keeps p b q s)

  pub scan-Seen :
      (ps : List ℕ) (b : Balance) (q : ℕ) → contains ps q ≡ true → Seen ids n (scan ids n ps b) q
  unfolding scan
  scan-Seen [] b q h = absurd (ground arith)
  scan-Seen (p ∷ ps) b q h = elim (Bool-cases (p == q)) [
    | inl same ↦
        scan-keeps ps (scan_partition ids n p b) q
          (rw (← eq_of_== p q same) (scan_partition-Seen p b))
    | inr other ↦ scan-Seen ps (scan_partition ids n p b) q (ground arith)
  ]

  pub scan-owned :
      (ps : List ℕ) (b : Balance) (j id : String)
      → lookup b.owner j ≡ some id
      → contains ids id ≡ true
      → contains b.pinned j ≡ true
      → (lookup (scan ids n ps b).owner j ≡ some id) × (contains (scan ids n ps b).pinned j ≡ true)
  unfolding scan
  scan-owned [] b j id e m pin = (e, pin)
  scan-owned (p ∷ ps) b j id e m pin =
      let (e', pin') = scan_partition-owned p b j id e m pin in
      scan-owned ps (scan_partition ids n p b) j id e' m pin'

  -- No free partition has a key that is owned by a live pod and pinned.
  scan_partition-apart :
      (p : ℕ) (b : Balance) (j id : String)
      → lookup b.owner j ≡ some id
      → contains ids id ≡ true
      → contains b.pinned j ≡ true
      → All (λ q. owner_key n q ≢ j) b.free
      → All (λ q. owner_key n q ≢ j) (scan_partition ids n p b).free
  unfolding scan_partition
  scan_partition-apart p b j id e m pin h = elim (Bool-cases (owner_key n p == j)) [
    | inl same ↦
        let k = eq_of_== (owner_key n p) j same in
        let e' : lookup b.owner (owner_key n p) ≡ some id = rw k e in
        let pin' : contains b.pinned (owner_key n p) ≡ true = rw k pin in rw (e', m, pin') h
    | inr other ↦
        let more =
          All-append (λ q. owner_key n q ≢ j) b.free (p ∷ []) h
            (ne_of_== (owner_key n p) j other, tt) in
        elim (Option-cases (lookup b.owner (owner_key n p))) [
          | inl unowned ↦ rw unowned more
          | inr (id', e') ↦ elim (Bool-cases (contains ids id')) [
            | inr dead ↦ rw (e', dead) more
            | inl live ↦ elim (Bool-cases (contains b.pinned (owner_key n p))) [
              | inl fixed ↦ rw (e', live, fixed) h
              | inr loose ↦ rw (e', live, loose) more
            ]
          ]
        ]
  ]

  pub scan-apart :
      (ps : List ℕ) (b : Balance) (j id : String)
      → lookup b.owner j ≡ some id
      → contains ids id ≡ true
      → contains b.pinned j ≡ true
      → All (λ q. owner_key n q ≢ j) b.free
      → All (λ q. owner_key n q ≢ j) (scan ids n ps b).free
  unfolding scan
  scan-apart [] b j id e m pin h = h
  scan-apart (p ∷ ps) b j id e m pin h =
      let (e', pin') = scan_partition-owned p b j id e m pin in
      scan-apart ps (scan_partition ids n p b) j id e' m pin'
        (scan_partition-apart p b j id e m pin h)
