-- ===== src/Memory/Shared.antt =====
-- The parts that the task types share of api/v1alpha1/devtask_types.go in memory, and their deep copies
-- (api/v1alpha1/zz_generated.deepcopy.go).
pub mod Deep
use kai_operator.Base.{String, Bool, Option, none, some, List}
use kai_operator.Base.Labels.{Labels}
use kai_operator.Base.Text.{ℤ}
use kai_operator.Api.Task.{
  TaskPhase, EnvVar, VolumeMount, ResourceSpec, VolumeSpec, DataSourceSpec, HealthCheckSpec,
  AutoScalingSpec, Condition,
}
use kai_operator.Api.EvalTask.{ModelEvalConfig}
use kai_operator.Memory.{Ref, Alloc, pure, ◌>>=◌, copy_ref, copy_or_nil, copy_each, Library}

pub record RoutingSpec : Type 0 where
  pub enabled : Bool
  pub gateway_name : String
  pub gateway_namespace : String
  pub path_prefix : String
  pub external_host : String
  pub external_port : ℤ
  pub gateway_port : ℤ
  pub hostnames : Option (Ref (List String))

pub record BaseToolSpec : Type 0 where
  pub image : String
  pub version : String
  pub env : Option (Ref (List EnvVar))
  pub volumes : Option (Ref (List VolumeMount))
  pub port : ℤ
  pub command : Option (Ref (List String))
  pub args : Option (Ref (List String))
  pub resources : Option (Ref ResourceSpec)
  pub dependencies : Option (Ref (List String))
  pub routing : Option (Ref RoutingSpec)

pub record TaskStatus (T : Type 0) : Type 0 where
  pub phase : TaskPhase
  pub message : String
  pub pod_name : String
  pub service_url : String
  pub external_url : String
  pub endpoints : Option (Ref (List String))
  pub metrics : Option (Ref Labels)
  pub conditions : Option (Ref (List Condition))
  pub start_time : Option T
  pub end_time : Option T

unfoldable pub routing_spec_deep_copy_into : RoutingSpec → Alloc RoutingSpec
routing_spec_deep_copy_into x = do
  hostnames ← copy_ref pure x.hostnames
  pure (record x { hostnames = hostnames })

unfoldable pub routing_spec_deep_copy : Option (Ref RoutingSpec) → Alloc (Option (Ref RoutingSpec))
unfolding routing_spec_deep_copy_into
routing_spec_deep_copy x = copy_ref routing_spec_deep_copy_into x

unfoldable pub base_tool_spec_deep_copy_into : BaseToolSpec → Alloc BaseToolSpec
unfolding routing_spec_deep_copy_into
base_tool_spec_deep_copy_into x = do
  env ← copy_ref pure x.env
  volumes ← copy_ref pure x.volumes
  command ← copy_ref pure x.command
  args ← copy_ref pure x.args
  resources ← copy_ref pure x.resources
  dependencies ← copy_ref pure x.dependencies
  routing ← copy_ref routing_spec_deep_copy_into x.routing
  pure (record x {
    env = env;
    volumes = volumes;
    command = command;
    args = args;
    resources = resources;
    dependencies = dependencies;
    routing = routing;
  })

unfoldable pub base_tool_spec_deep_copy :
    Option (Ref BaseToolSpec) → Alloc (Option (Ref BaseToolSpec))
unfolding base_tool_spec_deep_copy_into
base_tool_spec_deep_copy x = copy_ref base_tool_spec_deep_copy_into x

module _ {M L T : Type 0} (l : Library M L T) where
  unfoldable pub task_status_deep_copy_into : TaskStatus T → Alloc (TaskStatus T)
  task_status_deep_copy_into x = do
    endpoints ← copy_ref pure x.endpoints
    metrics ← copy_ref pure x.metrics
    conditions ← copy_ref pure x.conditions
    start_time ← copy_or_nil l.time.copy x.start_time
    end_time ← copy_or_nil l.time.copy x.end_time
    pure (record x {
      endpoints = endpoints;
      metrics = metrics;
      conditions = conditions;
      start_time = start_time;
      end_time = end_time;
    })

  unfoldable pub task_status_deep_copy :
      Option (Ref (TaskStatus T)) → Alloc (Option (Ref (TaskStatus T)))
  unfolding task_status_deep_copy_into
  task_status_deep_copy x = copy_ref task_status_deep_copy_into x
