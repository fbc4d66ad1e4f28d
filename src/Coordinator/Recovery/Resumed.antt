-- ===== src/Coordinator/Recovery/Resumed.antt =====
-- `NewDurable` of pkg/coordinator/coordinator.go: what a coordinator takes over from the snapshot of
-- another.
use stark8s.Prelude.{
  ℕ, String, Option, none, some, [], ◌∷◌, All, Map, values, lookup, if◌then◌else◌, string_eq, ◌⊎◌,
  ◌≡◌, ◌≢◌,
}
use stark8s.Coordinator.State.{Channel, Coordinator, Durable}
use stark8s.Coordinator.Channels.{contains_segment}
use stark8s.Coordinator.Persistence.{PersistedCoordinator, restore_channels, restore_operations}
use stark8s.Coordinator.Persistence.Keyed.{holder_key}
use stark8s.Coordinator.Recovery.Rebound.{rehomed}
use stark8s.Coordinator.Recovery.Keys.{home_key}

module _ (self_addr : String) where
  -- Two entries of an index are one, or each of their keys differs from the others, also once their
  -- segments are rehomed.
  abbrev pub Apart : Channel → String × ℕ → String × ℕ → Type 0
  Apart c e f =
      (f.0 ≡ e.0)
      ⊎ ((f.0 ≢ e.0)
          × (f.0 ≢ home_key self_addr (c.heap e.1))
          × (home_key self_addr (c.heap f.1) ≢ home_key self_addr (c.heap e.1))
          × (home_key self_addr (c.heap f.1) ≢ e.0))

  -- The indexed segments are under the keys of their holders, each key once, and stay apart when they
  -- are rehomed; the segments in flight are indexed.
  pub record IsRebindable (c : Channel) : Type 0 where
    pub indexed :
        All
          (λ (e : String × ℕ).
            (lookup c.index e.0 ≡ some e.1)
            × (holder_key (c.heap e.1) ≡ e.0)
            × All (Apart c e) c.index)
          c.index
    pub inflight :
        All
          (λ (e : String × ℕ). (lookup c.inflight e.0 ≡ some e.1) × (lookup c.index e.0 ≡ some e.1))
          c.inflight

  -- The indexed segments whose records the coordinator has are held at its address, and every segment
  -- that was indexed or in flight is so under its new key. Nothing else has changed.
  pub record IsRebound (c' c : Channel) : Type 0 where
    pub rest : record c' { heap = c.heap; index = c.index; inflight = c.inflight } ≡ c
    pub heap :
        (p : ℕ)
        → c'.heap p
          ≡ (if contains_segment (values c.index) p then rehomed self_addr (c.heap p) else c.heap p)
    pub index :
        All (λ (e : String × ℕ). lookup c'.index (holder_key (c'.heap e.1)) ≡ some e.1) c.index
    pub inflight :
        All
          (λ (e : String × ℕ). lookup c'.inflight (holder_key (c'.heap e.1)) ≡ some e.1)
          c.inflight

  -- The same names in the same order, with channels that are rebound.
  abbrev pub AreRebound : Map String Channel → Map String Channel → Type 0
  AreRebound [] [] = Unit
  AreRebound [] (e ∷ m) = ⊥
  AreRebound (e ∷ m') [] = ⊥
  AreRebound ((n', c') ∷ m') ((n, c) ∷ m) = (n' ≡ n) × IsRebound c' c × AreRebound m' m

  -- A coordinator that has started at an address with a store and a snapshot.
  abbrev pub Resumes : Durable → PersistedCoordinator → Option Coordinator → Type 0
  Resumes d s none = ⊥
  Resumes d s (some co') =
      (co'.self_addr ≡ self_addr)
      × (co'.durable ≡ some d)
      × (co'.next_id ≡ s.next_id)
      × (co'.ops ≡ restore_operations s.operations)
      × AreRebound co'.channels (restore_channels s.channels)
