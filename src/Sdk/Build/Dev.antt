-- ===== src/Sdk/Build/Dev.antt =====
-- The builder of a DevTask (sdk/devtask_builder.go).
use kai_operator.Base.{String, Bool, none, some, List, [], ◌∷◌, ◌++◌}
use kai_operator.Base.Labels.{Labels}
use kai_operator.Base.Text.{ℤ, pos}
use kai_operator.Api.Meta.{new_meta}
use kai_operator.Api.Task.{RoutingSpec, BaseToolSpec, no_status}
use kai_operator.Api.DevTask.{DevTask, DevTaskSpec, CodeServerSpec, JupyterSpec, NoVncSpec}
use kai_operator.Sdk.Build.{
  apply, if_set, tool_with, resources_of, volume_of, data_source_of, add_env, routing_of,
  set_routing, add_labels,
}

unfoldable pub new_dev_task : String → String → DevTask
new_dev_task name namespace = record {
  meta = new_meta name namespace [];
  spec = record {
    resources = none;
    volumes = [];
    data_sources = [];
    run_after = [];
    ttl_seconds = none;
    code_server = none;
    jupyter = none;
    no_vnc = none;
    vllm = none;
  };
  status = no_status;
}

unfoldable pub with_code_server :
    String → List (CodeServerSpec → CodeServerSpec) → DevTask → DevTask
with_code_server image opts t =
    let spec : CodeServerSpec = record {
      tool = tool_with image (pos 8080);
      password = none;
      workspace = "";
    } in
    record t { spec = record t.spec { code_server = some (apply opts spec) } }

unfoldable pub with_jupyter : String → List (JupyterSpec → JupyterSpec) → DevTask → DevTask
with_jupyter image opts t =
    let spec : JupyterSpec = record { tool = tool_with image (pos 8888); notebook_dir = "" } in
    record t { spec = record t.spec { jupyter = some (apply opts spec) } }

unfoldable pub with_no_vnc : String → List (NoVncSpec → NoVncSpec) → DevTask → DevTask
with_no_vnc image opts t =
    let spec : NoVncSpec = record {
      tool = tool_with image (pos 6080);
      display = "";
      password = "";
    } in
    record t { spec = record t.spec { no_vnc = some (apply opts spec) } }

unfoldable pub with_resources : String → String → String → DevTask → DevTask
with_resources cpu memory gpu t = record t {
  spec = record t.spec { resources = some (resources_of cpu memory gpu) };
}

unfoldable pub with_volume : String → String → String → DevTask → DevTask
unfolding volume_of
with_volume name capacity mount_path t = record t {
  spec = record t.spec { volumes = t.spec.volumes ++ (volume_of name capacity mount_path ∷ []) };
}

unfoldable pub with_data_source : String → String → DevTask → DevTask
with_data_source uri mount_path t = record t {
  spec = record t.spec {
    data_sources = t.spec.data_sources ++ (data_source_of uri mount_path ∷ []);
  };
}

-- A change of the tool of each section that is set.
abbrev on_tools : (BaseToolSpec → BaseToolSpec) → DevTaskSpec → DevTaskSpec
on_tools f s = record s {
  code_server = if_set (λ (x : CodeServerSpec). record x { tool = f x.tool }) s.code_server;
  jupyter = if_set (λ (x : JupyterSpec). record x { tool = f x.tool }) s.jupyter;
  no_vnc = if_set (λ (x : NoVncSpec). record x { tool = f x.tool }) s.no_vnc;
}

unfoldable pub with_env : String → String → DevTask → DevTask
with_env name value t = record t { spec = on_tools (add_env name value) t.spec }

unfoldable pub with_labels : Labels → DevTask → DevTask
unfolding add_labels
with_labels labels t = record t { meta = add_labels labels t.meta }

unfoldable pub with_ttl : ℤ → DevTask → DevTask
with_ttl seconds t = record t { spec = record t.spec { ttl_seconds = some seconds } }

unfoldable pub with_routing : Bool → List (RoutingSpec → RoutingSpec) → DevTask → DevTask
with_routing enabled opts t = record t {
  spec = on_tools (set_routing (routing_of enabled opts)) t.spec;
}
