-- ===== src/Api/Task.antt =====
-- The parts that the five task kinds share (api/v1alpha1/devtask_types.go, lines 25 to 162).
use kai_operator.Base.{String, Bool, true, Option, none, some, List, ◌==◌, if◌then◌else◌}
use kai_operator.Base.Labels.{Labels}
use kai_operator.Base.Text.{ℤ, pos}
use kai_operator.Api.Meta.{Time}

-- The constants of `TaskPhase`; `unset` is the empty text and `other` any further one.
pub data TaskPhase : Type 0 where
  unset pending creating running completed failed terminating : TaskPhase
  other : String → TaskPhase

pub record RoutingSpec : Type 0 where
  pub enabled : Bool
  pub gateway_name : String
  pub gateway_namespace : String
  pub path_prefix : String
  pub external_host : String
  pub external_port : ℤ
  pub gateway_port : ℤ
  pub hostnames : List String

pub record ResourceSpec : Type 0 where
  pub cpu : String
  pub memory : String
  pub gpu : String
  pub storage : String
  pub instance_type : String

pub record EnvVar : Type 0 where
  pub name : String
  pub value : String

pub record VolumeMount : Type 0 where
  pub name : String
  pub mount_path : String
  pub read_only : Bool

pub record VolumeSpec : Type 0 where
  pub name : String
  pub type : String
  pub capacity : String
  pub storage_class : String
  pub mount_path : String

pub record DataSourceSpec : Type 0 where
  pub type : String
  pub uri : String
  pub mount_path : String

pub record HealthCheckSpec : Type 0 where
  pub path : String
  pub port : ℤ
  pub initial_delay : ℤ
  pub period : ℤ
  pub timeout : ℤ

pub record AutoScalingSpec : Type 0 where
  pub min_replicas : ℤ
  pub max_replicas : ℤ
  pub target_cpu_util : ℤ
  pub target_gpu_util : ℤ

pub record BaseToolSpec : Type 0 where
  pub image : String
  pub version : String
  pub env : List EnvVar
  pub volumes : List VolumeMount
  pub port : ℤ
  pub command : List String
  pub args : List String
  pub resources : Option ResourceSpec
  pub dependencies : List String
  pub routing : Option RoutingSpec

-- `BaseToolSpec{}`.
abbrev pub no_tool : BaseToolSpec
no_tool = record {
  image = "";
  version = "";
  env = List.[];
  volumes = List.[];
  port = pos 0;
  command = List.[];
  args = List.[];
  resources = Option.none;
  dependencies = List.[];
  routing = Option.none;
}

-- `RoutingSpec{Enabled: enabled}`.
abbrev pub routing_enabled : Bool → RoutingSpec
routing_enabled enabled = record {
  enabled = enabled;
  gateway_name = "";
  gateway_namespace = "";
  path_prefix = "";
  external_host = "";
  external_port = pos 0;
  gateway_port = pos 0;
  hostnames = List.[];
}

pub record Condition : Type 0 where
  pub type : String
  pub status : String
  pub message : String

pub record TaskStatus : Type 0 where
  pub phase : TaskPhase
  pub message : String
  pub pod_name : String
  pub service_url : String
  pub external_url : String
  pub endpoints : List String
  pub metrics : Labels
  pub conditions : List Condition
  pub start_time : Option Time
  pub end_time : Option Time

-- `TaskStatus{}`.
abbrev pub no_status : TaskStatus
no_status = record {
  phase = unset;
  message = "";
  pod_name = "";
  service_url = "";
  external_url = "";
  endpoints = List.[];
  metrics = List.[];
  conditions = List.[];
  start_time = Option.none;
  end_time = Option.none;
}

-- `Routing == nil || Routing.Enabled`.
abbrev pub is_routed : BaseToolSpec → Bool
is_routed tool = elim tool.routing [ none ↦ true | some cfg ↦ cfg.enabled ]

-- The routing of a tool, nil where the tool or its routing is.
abbrev pub routing_of {ℓ} : {S : Type ℓ} → (S → BaseToolSpec) → Option S → Option RoutingSpec
routing_of tool none = none
routing_of tool (some s) = (tool s).routing

-- The first that is not nil.
abbrev pub or_else {ℓ} : {A : Type ℓ} → Option A → Option A → Option A
or_else (some a) b = some a
or_else none b = b

-- A text of the routing that is not empty, or a default.
abbrev pub text_or : Option RoutingSpec → (RoutingSpec → String) → String → String
text_or none field default = default
text_or (some cfg) field default = if field cfg == "" then default else field cfg
