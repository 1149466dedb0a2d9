-- ===== src/Api/Kube.antt =====
-- The Kubernetes and Gateway API objects, with the fields that the operator fills or reads.
use kai_operator.Base.{String, Option, List}
use kai_operator.Base.Labels.{Labels}
use kai_operator.Base.Text.{ℤ}
use kai_operator.Api.Meta.{ObjectMeta}

-- A `resource.Quantity`, by the text that it was parsed from.
pub record Quantity : Type 0 where
  pub text : String

-- A `ResourceList`.
abbrev pub Quantities : Type 0
Quantities = List (String × Quantity)

pub record ResourceRequirements : Type 0 where
  pub requests : Quantities
  pub limits : Quantities

abbrev pub no_resources : ResourceRequirements
no_resources = record { requests = List.[]; limits = List.[] }

pub record Env : Type 0 where
  pub name : String
  pub value : String

pub record Mount : Type 0 where
  pub name : String
  pub mount_path : String

pub record ContainerPort : Type 0 where
  pub name : String
  pub container_port : ℤ

pub record Container : Type 0 where
  pub name : String
  pub image : String
  pub command : List String
  pub args : List String
  pub env : List Env
  pub ports : List ContainerPort
  pub resources : ResourceRequirements
  pub volume_mounts : List Mount

-- The sources of a volume that the code sets; `unset` is the zero value.
pub data VolumeSource : Type 0 where
  unset : VolumeSource
  empty_dir : Option Quantity → VolumeSource
  persistent_volume_claim : String → VolumeSource
  config_map : String → VolumeSource
  secret : String → VolumeSource

pub record Volume : Type 0 where
  pub name : String
  pub source : VolumeSource

pub record PodTemplate : Type 0 where
  pub labels : Labels
  pub restart_policy : String
  pub init_containers : List Container
  pub containers : List Container
  pub volumes : List Volume

pub record Deployment : Type 0 where
  pub meta : ObjectMeta
  pub replicas : Option ℤ
  pub match_labels : Labels
  pub template : PodTemplate

pub record ServicePort : Type 0 where
  pub name : String
  pub port : ℤ
  pub target_port : ℤ
  pub node_port : ℤ
  pub protocol : String

pub record Ingress : Type 0 where
  pub ip : String
  pub hostname : String

pub record Service : Type 0 where
  pub meta : ObjectMeta
  pub selector : Labels
  pub ports : List ServicePort
  pub service_type : String
  pub ingress : List Ingress

-- `conditions` holds the messages of the job's conditions.
pub record JobStatus : Type 0 where
  pub active : ℤ
  pub succeeded : ℤ
  pub failed : ℤ
  pub conditions : List String

pub record Job : Type 0 where
  pub meta : ObjectMeta
  pub ttl_seconds_after_finished : Option ℤ
  pub template : PodTemplate
  pub status : JobStatus

-- The phases of a pod; `other` is any further text.
pub data PodPhase : Type 0 where
  pending running succeeded failed unknown : PodPhase
  other : String → PodPhase

-- `waiting` holds, for each container status, the reason of its waiting state.
pub record Pod : Type 0 where
  pub meta : ObjectMeta
  pub waiting : List (Option String)
  pub phase : PodPhase
  pub reason : String

pub record ParentReference : Type 0 where
  pub group : String
  pub kind : String
  pub name : String
  pub namespace : String

pub record BackendRef : Type 0 where
  pub group : String
  pub kind : String
  pub name : String
  pub port : ℤ

-- `rewrites` holds the `ReplacePrefixMatch` of each URL rewrite filter.
pub record RouteRule : Type 0 where
  pub path_type : String
  pub path : String
  pub rewrites : List String
  pub backends : List BackendRef

pub record HttpRoute : Type 0 where
  pub meta : ObjectMeta
  pub hostnames : List String
  pub parents : List ParentReference
  pub rules : List RouteRule

pub record Listener : Type 0 where
  pub protocol : String
  pub port : ℤ

pub record Gateway : Type 0 where
  pub meta : ObjectMeta
  pub listeners : List Listener
  pub addresses : List String
