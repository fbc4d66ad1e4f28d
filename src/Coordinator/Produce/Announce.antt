-- ===== src/Coordinator/Produce/Announce.antt =====
-- `AnnounceSession` of pkg/coordinator/coordinator.go: refusals are complete, and retries are absorbed.
use stark8s.Prelude.{
  String, Bool, true, false, not, List, [], ◌∷◌, foldl, Map, keys, string_eq, nat_eq, int_eq, ◌≡◌,
  refl, arith,
}
use stark8s.Coordinator.Api.{Error, SegmentAnnouncement}
use stark8s.Coordinator.State.{Channel, Coordinator, Result, ok, err}
use stark8s.Coordinator.State.Commits.{
  InMemory, Reads, Refuses, >>=-Refuses, refuse_if-Reads, require_durable_writer-Reads,
  get_state-Reads, commit_locked-Refuses,
}
use stark8s.Coordinator.Registration.{require_incarnation, verify_pod}
use stark8s.Coordinator.Pods.{get, put_channel}
use stark8s.Coordinator.Settle.{settle, settle_channel}
use stark8s.Coordinator.Produce.{lift, check_all, announce_session, announce_all, commit_announced}
use stark8s.Coordinator.Segments.{may_produce}

settle_channel-InMemory :
    (co : Coordinator) (n : String) → InMemory co → InMemory (settle_channel co n)
unfolding settle_channel
settle_channel-InMemory co n v = ground arith

settle_all-InMemory :
    (ns : List String) (co : Coordinator) → InMemory co → InMemory (foldl settle_channel co ns)
settle_all-InMemory [] co v = v
settle_all-InMemory (n ∷ ns) co v =
    settle_all-InMemory ns (settle_channel co n) (settle_channel-InMemory co n v)

settle-InMemory : (co : Coordinator) → InMemory co → InMemory (settle co)
unfolding settle
settle-InMemory co v = settle_all-InMemory (keys co.channels) co v

module _ {chs : Map String Channel} where
  get-Reads : (name : String) → Reads chs (get name)
  get-Reads name = record { reads = λ co u. ground arith }

  verify_pod-Reads :
      (op_name pod_name incarnation : String) → Reads chs (verify_pod op_name pod_name incarnation)
  unfolding require_incarnation
  verify_pod-Reads op_name pod_name incarnation = record { reads = λ co u. ground arith }

  lift-Reads : (r : Result Bool) → Reads chs (lift r)
  lift-Reads (ok b) = record { reads = λ co u. u }
  lift-Reads (err e) = record { reads = λ co u. u }

  commit_announced-Refuses :
      (name op_name : String) (anns : List SegmentAnnouncement) (c : Channel) (b : Bool)
      → Refuses chs (commit_announced name op_name anns c b)
  commit_announced-Refuses name op_name anns c false = record { refuses = λ co u e h. u.same }
  commit_announced-Refuses name op_name anns c true =
      commit_locked-Refuses (λ co. settle (put_channel name (announce_all name op_name anns c) co))
        chs
        (λ co v.
          settle-InMemory (put_channel name (announce_all name op_name anns c) co)
            (record { no_store = v.no_store; no_failure = v.no_failure }))

-- A refused announcement indexes nothing: in a coordinator without a store, whenever the call returns
-- an error, all channels are as they were, whichever of the batch's segments was at fault.
pub announce_session-err :
    (name op_name pod_name incarnation : String) (anns : List SegmentAnnouncement)
    (co : Coordinator) (e : Error)
    → InMemory co
    → (announce_session name op_name pod_name incarnation anns co).1 ≡ err e
    → (announce_session name op_name pod_name incarnation anns co).0.channels ≡ co.channels
unfolding announce_session
announce_session-err name op_name pod_name incarnation anns co e v h =
    all_steps.refuses co (record { same = refl; memory = v }) e h
  where
    all_steps : Refuses co.channels (announce_session name op_name pod_name incarnation anns)
    all_steps = >>=-Refuses require_durable_writer-Reads λ _. >>=-Refuses (get-Reads name) λ c.
        >>=-Refuses get_state-Reads λ co'.
          >>=-Refuses (refuse_if-Reads (not (may_produce co' c op_name)) Error.may_not_produce) λ _.
            >>=-Refuses (verify_pod-Reads op_name pod_name incarnation) λ _.
              >>=-Refuses (lift-Reads (check_all c name anns))
                λ b. commit_announced-Refuses name op_name anns c b
