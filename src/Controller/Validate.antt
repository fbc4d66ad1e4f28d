-- ===== src/Controller/Validate.antt =====
-- `Validate` of pkg/controller/reconciler.go: the checks of a workload before anything is made for it.
use Prim.Native.Char.{code}
use Prim.Native.String.{String}
use stark8s.Prelude.{
  ℕ, ℤ, pos, Bool, true, false, not, ◌&&◌, ◌||◌, Option, none, some, List, [], ◌∷◌, ◌++◌, any,
  contains, or_else, is_some, ◌==◌, leb, nat_beq, ltb_ℤ, leb_ℤ, ◌+ℤ◌, if◌then◌else◌, string_eq,
}
use stark8s.Graph.{ChannelSpec}
use stark8s.Controller.Types.{
  WorkloadSpec, DeclaredOperation, CollectiveSpec, Container, PodTemplate, Url, ObjectStoreSpec,
  EgressDestination, is_never, is_gang,
}

-- One constructor for each error of `Validate`, with the operation or the channel that it names.
-- `too_deep` is none of them: the search for cycles has run out of its bound.
pub data Invalid : Type 0 where
  bad_endpoint no_credentials too_deep : Invalid
  duplicate_operation negative_slots checkpoint_replicas endless_collective : String → Invalid
  small_collective gang_placement unfenced_retries negative_tick : String → Invalid
  unknown_egress : String → String → Invalid
  empty_segments small_segments segment_volume pod_limit container_limit : String → Invalid
  duplicate_channel unknown_producer unknown_consumer volatile_output : String → Invalid
  open_feedback unknown_overflow own_overflow : String → Invalid
  unbroken_cycle : String → String → Invalid

-- The first check that finds a fault.
abbrev pub first_fault : List (Bool × Invalid) → Option Invalid
first_fault [] = none
first_fault ((bad, e) ∷ checks) = let rest = first_fault checks in if bad then some e else rest

abbrev pub and_also : Option Invalid → Option Invalid → Option Invalid
and_also none e = e
and_also (some e) f = some e

-- `strings.TrimSpace(s) == ""`
abbrev is_space : ℕ → Bool
is_space n =
    (leb 9 n && leb n 13)
    || nat_beq n 32
    || nat_beq n 133
    || nat_beq n 160
    || nat_beq n 5760
    || (leb 8192 n && leb n 8202)
    || nat_beq n 8232
    || nat_beq n 8233
    || nat_beq n 8239
    || nat_beq n 8287
    || nat_beq n 12288

unfoldable is_blank : String → Bool
is_blank String.[] = true
is_blank (String.◌∷◌ c s) = is_space (code c) && is_blank s

abbrev bad_url : Option Url → Bool
bad_url none = true
bad_url (some u) =
    not (u.scheme == "http" || u.scheme == "https")
    || u.host == ""
    || u.has_user
    || not (u.raw_query == "")
    || not (u.fragment == "")

unfoldable pub check_object_store : Option ObjectStoreSpec → Option Invalid
unfolding is_blank
check_object_store none = none
check_object_store (some o) = first_fault (
    (bad_url o.endpoint, Invalid.bad_endpoint)
    ∷ (is_blank o.credentials_secret, Invalid.no_credentials)
    ∷ [])

-- `podEphemeralStorageLimit`: containers that run together add up, and an init container that is no
-- sidecar has to fit on its own.
abbrev add_limit : Option ℤ → Container → Option ℤ
add_limit total c = elim c.storage_limit [
  | none ↦ total
  | some l ↦ some (or_else total (pos 0) +ℤ l)
]

abbrev raise_limit : Option ℤ → Option ℤ → Option ℤ
raise_limit total none = total
raise_limit total (some l) =
    some (if ltb_ℤ (or_else total (pos 0)) l then l else or_else total (pos 0))

abbrev add_limits : (Container → Bool) → Option ℤ → List Container → Option ℤ
add_limits f total [] = total
add_limits f total (c ∷ cs) = add_limits f (if f c then add_limit total c else total) cs

abbrev raise_limits : Option ℤ → List Container → Option ℤ
raise_limits total [] = total
raise_limits total (c ∷ cs) =
    raise_limits (if c.always then total else raise_limit total c.storage_limit) cs

unfoldable pub pod_storage_limit : PodTemplate → Option ℤ
pod_storage_limit t =
    raise_limits
      (add_limits (λ c. true) (add_limits (λ c. c.always) none t.init_containers) t.containers)
      t.init_containers

abbrev at_most : Option ℤ → ℤ → Bool
at_most none size = false
at_most (some l) size = leb_ℤ l size

abbrev first_limit : List Container → Option ℤ
first_limit [] = none
first_limit (c ∷ cs) = c.storage_limit

abbrev below : Option ℤ → ℤ → Bool
below none size = false
below (some l) size = ltb_ℤ l size

-- 1Mi is 1048576 bytes.
check_segments : DeclaredOperation → Option ℤ → Option Invalid
unfolding pod_storage_limit
check_segments o none = none
check_segments o (some size) = first_fault (
    (leb_ℤ size (pos 0), Invalid.empty_segments o.name)
    ∷ (ltb_ℤ size (pos 1048576), Invalid.small_segments o.name)
    ∷ (contains o.template.volumes "stark8s-segments", Invalid.segment_volume o.name)
    ∷ (at_most (pod_storage_limit o.template) size, Invalid.pod_limit o.name)
    ∷ (below (first_limit o.template.containers) size, Invalid.container_limit o.name)
    ∷ [])

abbrev touches : String → ChannelSpec → Bool
touches name c = c.from == name || c.to == name

check_collective : WorkloadSpec → DeclaredOperation → Option CollectiveSpec → Option Invalid
check_collective s o none = none
check_collective s o (some c) = first_fault (
    (is_never o.completion, Invalid.endless_collective o.name)
    ∷ (ltb_ℤ c.size (pos 2), Invalid.small_collective o.name)
    ∷ (is_gang c.placement, Invalid.gang_placement o.name)
    ∷ (
      ltb_ℤ (pos 1) c.max_attempts
          && any (touches o.name) s.channels
          && (not o.checkpoint || not (is_some s.object_store)),
      Invalid.unfenced_retries o.name,
    )
    ∷ [])

abbrev check_egress : String → List EgressDestination → Option Invalid
check_egress name [] = none
check_egress name (EgressDestination.other e ∷ es) = some (Invalid.unknown_egress name e)
check_egress name (_ ∷ es) = check_egress name es

abbrev is_negative : Option ℤ → Bool
is_negative none = false
is_negative (some n) = ltb_ℤ n (pos 0)

unfoldable pub check_operation : WorkloadSpec → List String → DeclaredOperation → Option Invalid
unfolding check_collective check_segments
check_operation s ops o =
    and_also
      (first_fault (
        (contains ops o.name, Invalid.duplicate_operation o.name)
        ∷ (ltb_ℤ o.slots (pos 0), Invalid.negative_slots o.name)
        ∷ (
          o.checkpoint
              && not (is_some o.collective)
              && (ltb_ℤ (pos 1) o.scaling.horizontal.min || ltb_ℤ (pos 1) o.scaling.horizontal.max),
          Invalid.checkpoint_replicas o.name,
        )
        ∷ []))
      (and_also (check_collective s o o.collective) (
        and_also (first_fault ((is_negative o.tick_interval, Invalid.negative_tick o.name) ∷ []))
          (and_also (check_egress o.name o.egress) (check_segments o o.segments))))

unfoldable pub check_operations :
    WorkloadSpec → List String → List DeclaredOperation → Option Invalid
unfolding check_operation
check_operations s ops [] = none
check_operations s ops (o ∷ os) =
    and_also (check_operation s ops o) (check_operations s (ops ++ o.name ∷ []) os)

abbrev pub check_names : List String → List ChannelSpec → Option Invalid
check_names chans [] = none
check_names chans (c ∷ cs) =
    and_also (first_fault ((contains chans c.name, Invalid.duplicate_channel c.name) ∷ []))
      (check_names (chans ++ c.name ∷ []) cs)
