-- ===== src/Controller/Types.antt =====
-- api/v1alpha1/types.go: the Workload resource.
use stark8s.Prelude.{
  ℤ, String, Bool, true, false, Option, none, some, List, [], ◌∷◌, keep, ◌==◌, string_eq,
  if◌then◌else◌,
}
use stark8s.Graph.{ChannelSpec}

-- Each string type is a data type. Its `unset` constructor is the empty string.
pub data Completion : Type 0 where
  unset drain never : Completion

pub record HorizontalScaling : Type 0 where
  pub min : ℤ
  pub max : ℤ
  pub cpu_utilization_percent : ℤ

pub data VerticalScalingMode : Type 0 where
  unset off initial auto : VerticalScalingMode

pub record Scaling : Type 0 where
  pub horizontal : HorizontalScaling
  pub vertical : Option VerticalScalingMode

-- `other` is a text that is none of the two destinations.
pub data EgressDestination : Type 0 where
  metadata internet : EgressDestination
  other : String → EgressDestination

pub data CollectivePlacement : Type 0 where
  unset ordinary gang : CollectivePlacement

pub record CollectiveSpec : Type 0 where
  pub size : ℤ
  pub max_attempts : ℤ
  pub placement : CollectivePlacement
  pub checkpoint : String

-- The parts of a pod's template that the controller reads. Quantities of storage are whole numbers of
-- bytes. `always` is a restart policy that is set and Always, `probed` a startup probe that is set.
pub record Container : Type 0 where
  pub name : String
  pub storage_limit : Option ℤ
  pub storage_request : Option ℤ
  pub always : Bool
  pub probed : Bool

pub record PodTemplate : Type 0 where
  pub init_containers : List Container
  pub containers : List Container
  pub volumes : List String

-- `segments` is the size of the segment volume. `tick_interval` is a duration in nanoseconds.
pub record DeclaredOperation : Type 0 where
  pub name : String
  pub checkpoint : Bool
  pub completion : Completion
  pub template : PodTemplate
  pub scaling : Scaling
  pub slots : ℤ
  pub collective : Option CollectiveSpec
  pub tick_interval : Option ℤ
  pub egress : List EgressDestination
  pub segments : Option ℤ

-- What Go's `url.Parse` makes of the endpoint; `none` is its error.
pub record Url : Type 0 where
  pub scheme : String
  pub host : String
  pub has_user : Bool
  pub raw_query : String
  pub fragment : String

pub record ObjectStoreSpec : Type 0 where
  pub endpoint : Option Url
  pub region : String
  pub credentials_secret : String

pub record WorkloadSpec : Type 0 where
  pub operations : List DeclaredOperation
  pub channels : List ChannelSpec
  pub object_store : Option ObjectStoreSpec

abbrev pub is_never : Completion → Bool
is_never Completion.never = true
is_never _ = false

abbrev pub is_gang : CollectivePlacement → Bool
is_gang CollectivePlacement.gang = true
is_gang _ = false

abbrev pub is_auto : Option VerticalScalingMode → Bool
is_auto (some VerticalScalingMode.auto) = true
is_auto _ = false

abbrev pub operation_by_name : List DeclaredOperation → String → Option DeclaredOperation
operation_by_name [] name = none
operation_by_name (o ∷ ops) name =
    let rest = operation_by_name ops name in if o.name == name then some o else rest

abbrev pub inbound_channels : WorkloadSpec → String → List ChannelSpec
inbound_channels s op = keep (λ c. c.to == op) s.channels

abbrev pub outbound_channels : WorkloadSpec → String → List ChannelSpec
outbound_channels s op = keep (λ c. c.from == op) s.channels
