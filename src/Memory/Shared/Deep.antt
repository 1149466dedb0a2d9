-- ===== src/Memory/Shared/Deep.antt =====
-- The copies of the parts that the task types share are deep
-- (api/v1alpha1/zz_generated.deepcopy.go).
use kai_operator.Api.Task as ValueTask
use kai_operator.Base.{refl, String, Option, List}
use kai_operator.Base.Labels.{Labels}
use kai_operator.Api.Meta.{Time}
use kai_operator.Api.Task.{
  TaskPhase, EnvVar, VolumeMount, ResourceSpec, VolumeSpec, DataSourceSpec, HealthCheckSpec,
  AutoScalingSpec, Condition,
}
use kai_operator.Memory.{Ref, Copier, pointer, or_nil, slice, flat, both, Layout, struct, Library}
use kai_operator.Memory.Rules.{
  IsDeep, LibraryIsDeep, struct-IsDeep, flat-IsDeep, pointer-IsDeep, or_nil-IsDeep, both-IsDeep,
  slice-IsDeep,
}
use kai_operator.Memory.Shared.{
  RoutingSpec, routing_spec_deep_copy_into, BaseToolSpec, base_tool_spec_deep_copy_into, TaskStatus,
  task_status_deep_copy_into,
}

abbrev routing_spec_layout :
    Layout RoutingSpec (Option (Ref (List String))) ValueTask.RoutingSpec (List String)
routing_spec_layout = record {
  parts = slice flat;
  fields = λ x. x.hostnames;
  put = λ x f. record x { hostnames = f };
  build = λ x v. record {
    enabled = x.enabled;
    gateway_name = x.gateway_name;
    gateway_namespace = x.gateway_namespace;
    path_prefix = x.path_prefix;
    external_host = x.external_host;
    external_port = x.external_port;
    gateway_port = x.gateway_port;
    hostnames = v;
  };
}

abbrev pub routing_spec : Copier RoutingSpec ValueTask.RoutingSpec
routing_spec = record (struct routing_spec_layout) { copy = routing_spec_deep_copy_into }

pub routing_spec-IsDeep : IsDeep routing_spec
unfolding routing_spec_deep_copy_into
routing_spec-IsDeep =
    struct-IsDeep routing_spec_layout (λ a t. refl) (λ a t x. refl) (slice-IsDeep flat-IsDeep)

abbrev base_tool_spec_layout :
    Layout BaseToolSpec
      (Option (Ref (List EnvVar))
        × (Option (Ref (List VolumeMount))
            × (Option (Ref (List String))
                × (Option (Ref (List String))
                    × (Option (Ref ResourceSpec)
                        × (Option (Ref (List String)) × Option (Ref RoutingSpec)))))))
      ValueTask.BaseToolSpec
      (List EnvVar
        × (List VolumeMount
            × (List String
                × (List String
                    × (Option ResourceSpec × (List String × Option ValueTask.RoutingSpec))))))
base_tool_spec_layout = record {
  parts = both (slice flat) (
      both (slice flat) (
        both (slice flat)
          (both (slice flat) (both (pointer flat) (both (slice flat) (pointer routing_spec))))));
  fields =
      λ x. (x.env, (x.volumes, (x.command, (x.args, (x.resources, (x.dependencies, x.routing))))));
  put = λ x f. record x {
    env = f.0;
    volumes = f.1.0;
    command = f.1.1.0;
    args = f.1.1.1.0;
    resources = f.1.1.1.1.0;
    dependencies = f.1.1.1.1.1.0;
    routing = f.1.1.1.1.1.1;
  };
  build = λ x v. record {
    image = x.image;
    version = x.version;
    env = v.0;
    volumes = v.1.0;
    port = x.port;
    command = v.1.1.0;
    args = v.1.1.1.0;
    resources = v.1.1.1.1.0;
    dependencies = v.1.1.1.1.1.0;
    routing = v.1.1.1.1.1.1;
  };
}

abbrev pub base_tool_spec : Copier BaseToolSpec ValueTask.BaseToolSpec
base_tool_spec = record (struct base_tool_spec_layout) { copy = base_tool_spec_deep_copy_into }

pub base_tool_spec-IsDeep : IsDeep base_tool_spec
unfolding base_tool_spec_deep_copy_into
base_tool_spec-IsDeep =
    struct-IsDeep base_tool_spec_layout (λ a t. refl) (λ a t x. refl)
      (both-IsDeep (slice-IsDeep flat-IsDeep) (
        both-IsDeep (slice-IsDeep flat-IsDeep) (
          both-IsDeep (slice-IsDeep flat-IsDeep) (
            both-IsDeep (slice-IsDeep flat-IsDeep) (
              both-IsDeep (pointer-IsDeep flat-IsDeep)
                (both-IsDeep (slice-IsDeep flat-IsDeep) (pointer-IsDeep routing_spec-IsDeep)))))))

module _ {M L T : Type 0} (l : Library M L T) where
  abbrev task_status_layout :
      Layout
        (TaskStatus T)
        (Option (Ref (List String))
          × (Option (Ref Labels) × (Option (Ref (List Condition)) × (Option T × Option T))))
        ValueTask.TaskStatus
        (List String × (Labels × (List Condition × (Option Time × Option Time))))
  task_status_layout = record {
    parts =
        both (slice flat)
          (both (slice flat) (both (slice flat) (both (or_nil l.time) (or_nil l.time))));
    fields = λ x. (x.endpoints, (x.metrics, (x.conditions, (x.start_time, x.end_time))));
    put = λ x f. record x {
      endpoints = f.0;
      metrics = f.1.0;
      conditions = f.1.1.0;
      start_time = f.1.1.1.0;
      end_time = f.1.1.1.1;
    };
    build = λ x v. record {
      phase = x.phase;
      message = x.message;
      pod_name = x.pod_name;
      service_url = x.service_url;
      external_url = x.external_url;
      endpoints = v.0;
      metrics = v.1.0;
      conditions = v.1.1.0;
      start_time = v.1.1.1.0;
      end_time = v.1.1.1.1;
    };
  }

  abbrev pub task_status : Copier (TaskStatus T) ValueTask.TaskStatus
  task_status = record (struct task_status_layout) { copy = task_status_deep_copy_into l }

  pub task_status-IsDeep : (h : LibraryIsDeep l) → IsDeep task_status
  unfolding task_status_deep_copy_into
  task_status-IsDeep h =
      struct-IsDeep task_status_layout (λ a t. refl) (λ a t x. refl)
        (both-IsDeep (slice-IsDeep flat-IsDeep) (
          both-IsDeep (slice-IsDeep flat-IsDeep) (
            both-IsDeep (slice-IsDeep flat-IsDeep)
              (both-IsDeep (or_nil-IsDeep h.time) (or_nil-IsDeep h.time)))))
