-- ===== src/Scenarios/Restoring.antt =====
-- Witnesses for snapshots: coordinators with one segment.
use stark8s.Prelude.{some, inr, refl, ◌≡◌, lookup, insert, string_eq, ◌==◌, ap, arith, [], ◌∷◌}
use stark8s.Coordinator.State.{Channel, Coordinator, Durable}
use stark8s.Coordinator.Names.{segment_key}
use stark8s.Coordinator.Segments.{index_segment, record_segment, place_segment, durable_holder}
use stark8s.Coordinator.Persistence.{snapshot_channel, snapshot, restore}
use stark8s.Coordinator.Persistence.RoundTrip.{IsPersistable}
use stark8s.Coordinator.Persistence.Whole.{AreSame, restore-snapshot}
use stark8s.Scenarios.{started, running, empty_lines, first_segment}

-- A segment whose records the coordinator keeps, with a pod.
abbrev held_line : Channel
held_line =
    record (index_segment empty_lines (record first_segment {
      append_id = "r/s1";
      holder = "c:1";
      payload = some [];
      delivered = "a" ∷ [];
    })) { queues = [] ∷ [] ∷ []; inflight = ("c:1/s1", 0) ∷ [] }

held_line-IsPersistable : IsPersistable held_line
unfolding index_segment record_segment place_segment insert lookup snapshot_channel durable_holder
    segment_key
held_line-IsPersistable = record {
  filed = ((refl, (λ e. absurd (ground (arith, ap (λ i. i == "") e))), refl), tt, tt);
  queues = (tt, (tt, tt));
  log = tt;
  held = tt;
  history = (tt, ((refl, tt), tt));
  partitioned = refl;
  based = refl;
  indexed = ((refl, (refl, refl)), tt);
  inflight = ((refl, (refl, refl)), tt);
  delivered = (inr refl, tt);
}

abbrev busy : Coordinator
busy = record running { channels = ("lines", held_line) ∷ [] }

restore-snapshot_example :
    let co' = restore (snapshot busy) started in
    (co'.next_id ≡ busy.next_id) × (co'.ops ≡ busy.ops) × AreSame co'.channels busy.channels
restore-snapshot_example =
    restore-snapshot busy started ((refl, tt), tt) (held_line-IsPersistable, tt)

abbrev blank_store : Durable
blank_store = record { commits = []; puts = [] }
