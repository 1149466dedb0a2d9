-- ===== src/Sdk/Build/Inference.antt =====
-- The builder of an InferenceTask (sdk/inferencetask_builder.go).
use kai_operator.Base.{String, Bool, none, some, List, [], ◌∷◌, ◌++◌}
use kai_operator.Base.Labels.{Labels}
use kai_operator.Base.Text.{ℤ, pos}
use kai_operator.Api.Meta.{new_meta}
use kai_operator.Api.Task.{RoutingSpec, AutoScalingSpec, BaseToolSpec, no_status}
use kai_operator.Api.InferenceTask.{
  InferenceTask, InferenceTaskSpec, VllmSpec, LlamaCppSpec, TgiSpec,
}
use kai_operator.Sdk.Build.{
  apply, if_set, tool_with, resources_of, volume_of, add_env, routing_of, set_routing, add_labels,
}

unfoldable pub new_inference_task : String → String → InferenceTask
new_inference_task name namespace = record {
  meta = new_meta name namespace [];
  spec = record {
    resources = none;
    volumes = [];
    data_sources = [];
    run_after = [];
    ttl_seconds = none;
    model = "";
    engine = "";
    hf_mirror = "";
    vllm = none;
    llama_cpp = none;
    tgi = none;
  };
  status = no_status;
}

-- The port is that of the inline tool, not the one of the section.
unfoldable pub with_vllm : String → List (VllmSpec → VllmSpec) → InferenceTask → InferenceTask
with_vllm model opts t =
    let spec : VllmSpec = record {
      tool = tool_with "vllm/vllm:latest" (pos 8000);
      model_path = model;
      model_name = model;
      tensor_parallel_size = pos 0;
      gpu_memory_utilization = "";
      max_model_len = pos 0;
      port = pos 0;
      health_check = none;
      auto_scaling = none;
    } in
    record t {
      spec = record t.spec { vllm = some (apply opts spec); model = model; engine = "vllm" };
    }

unfoldable pub with_llama_cpp :
    String → List (LlamaCppSpec → LlamaCppSpec) → InferenceTask → InferenceTask
with_llama_cpp model opts t =
    let spec : LlamaCppSpec = record {
      tool = tool_with "ghcr.io/ggml-org/llama.cpp:server" (pos 0);
      model_path = model;
      context_size = pos 0;
      threads = pos 0;
      gpu_layers = pos 0;
      port = pos 0;
      n = none;
      health_check = none;
      auto_scaling = none;
    } in
    record t {
      spec = record t.spec {
        llama_cpp = some (apply opts spec);
        model = model;
        engine = "llama.cpp";
      };
    }

unfoldable pub with_tgi : String → List (TgiSpec → TgiSpec) → InferenceTask → InferenceTask
with_tgi model opts t =
    let spec : TgiSpec = record {
      tool = tool_with "ghcr.io/huggingface/text-generation-inference:latest" (pos 8080);
      model_path = model;
      model_id = model;
      max_batch_size = pos 0;
      max_input_len = pos 0;
      max_total_tokens = pos 0;
      port = pos 0;
      health_check = none;
      auto_scaling = none;
    } in
    record t {
      spec = record t.spec { tgi = some (apply opts spec); model = model; engine = "tgi" };
    }

unfoldable pub with_resources : String → String → String → InferenceTask → InferenceTask
with_resources cpu memory gpu t = record t {
  spec = record t.spec { resources = some (resources_of cpu memory gpu) };
}

unfoldable pub with_gpu_count : ℤ → InferenceTask → InferenceTask
with_gpu_count count t = record t {
  spec = record t.spec {
    vllm = if_set (λ (v : VllmSpec). record v { tensor_parallel_size = count }) t.spec.vllm;
  };
}

unfoldable pub with_gpu_memory_utilization : String → InferenceTask → InferenceTask
with_gpu_memory_utilization util t = record t {
  spec = record t.spec {
    vllm = if_set (λ (v : VllmSpec). record v { gpu_memory_utilization = util }) t.spec.vllm;
  };
}

unfoldable pub with_volume : String → String → String → InferenceTask → InferenceTask
unfolding volume_of
with_volume name capacity mount_path t = record t {
  spec = record t.spec { volumes = t.spec.volumes ++ (volume_of name capacity mount_path ∷ []) };
}

-- A change of the tool of each section that is set.
abbrev on_tools : (BaseToolSpec → BaseToolSpec) → InferenceTaskSpec → InferenceTaskSpec
on_tools f s = record s {
  vllm = if_set (λ (x : VllmSpec). record x { tool = f x.tool }) s.vllm;
  llama_cpp = if_set (λ (x : LlamaCppSpec). record x { tool = f x.tool }) s.llama_cpp;
  tgi = if_set (λ (x : TgiSpec). record x { tool = f x.tool }) s.tgi;
}

unfoldable pub with_env : String → String → InferenceTask → InferenceTask
with_env name value t = record t { spec = on_tools (add_env name value) t.spec }

unfoldable pub with_labels : Labels → InferenceTask → InferenceTask
unfolding add_labels
with_labels labels t = record t { meta = add_labels labels t.meta }

unfoldable pub with_ttl : ℤ → InferenceTask → InferenceTask
with_ttl seconds t = record t { spec = record t.spec { ttl_seconds = some seconds } }

-- `WithAutoScaling`, which leaves a section for llama.cpp alone.
unfoldable pub with_auto_scaling : ℤ → ℤ → InferenceTask → InferenceTask
with_auto_scaling least most t =
    let spec : AutoScalingSpec = record {
      min_replicas = least;
      max_replicas = most;
      target_cpu_util = pos 0;
      target_gpu_util = pos 0;
    } in
    record t {
      spec = record t.spec {
        vllm = if_set (λ (v : VllmSpec). record v { auto_scaling = some spec }) t.spec.vllm;
        tgi = if_set (λ (g : TgiSpec). record g { auto_scaling = some spec }) t.spec.tgi;
      };
    }

unfoldable pub with_routing :
    Bool → List (RoutingSpec → RoutingSpec) → InferenceTask → InferenceTask
with_routing enabled opts t = record t {
  spec = on_tools (set_routing (routing_of enabled opts)) t.spec;
}
