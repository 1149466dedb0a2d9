-- ===== src/Api/InferenceTask.antt =====
-- The InferenceTask kind and its methods (api/v1alpha1/inferencetask_types.go).
use kai_operator.Base.{String, ◌<>◌, Bool, false, Option, none, some, List, if◌then◌else◌}
use kai_operator.Base.Text.{ℤ}
use kai_operator.Api.Meta.{ObjectMeta}
use kai_operator.Api.Task.{
  RoutingSpec, ResourceSpec, VolumeSpec, DataSourceSpec, HealthCheckSpec, AutoScalingSpec,
  BaseToolSpec, TaskStatus, is_routed, routing_of, or_else, text_or,
}

pub record VllmSpec : Type 0 where
  pub tool : BaseToolSpec
  pub model_path : String
  pub model_name : String
  pub tensor_parallel_size : ℤ
  pub gpu_memory_utilization : String
  pub max_model_len : ℤ
  pub port : ℤ
  pub health_check : Option HealthCheckSpec
  pub auto_scaling : Option AutoScalingSpec

pub record LlamaCppSpec : Type 0 where
  pub tool : BaseToolSpec
  pub model_path : String
  pub context_size : ℤ
  pub threads : ℤ
  pub gpu_layers : ℤ
  pub port : ℤ
  pub n : Option ℤ
  pub health_check : Option HealthCheckSpec
  pub auto_scaling : Option AutoScalingSpec

pub record TgiSpec : Type 0 where
  pub tool : BaseToolSpec
  pub model_path : String
  pub model_id : String
  pub max_batch_size : ℤ
  pub max_input_len : ℤ
  pub max_total_tokens : ℤ
  pub port : ℤ
  pub health_check : Option HealthCheckSpec
  pub auto_scaling : Option AutoScalingSpec

pub record InferenceTaskSpec : Type 0 where
  pub resources : Option ResourceSpec
  pub volumes : List VolumeSpec
  pub data_sources : List DataSourceSpec
  pub run_after : List String
  pub ttl_seconds : Option ℤ
  pub model : String
  pub engine : String
  pub hf_mirror : String
  pub vllm : Option VllmSpec
  pub llama_cpp : Option LlamaCppSpec
  pub tgi : Option TgiSpec

pub record InferenceTask : Type 0 where
  pub meta : ObjectMeta
  pub spec : InferenceTaskSpec
  pub status : TaskStatus

abbrev framework_of : Option VllmSpec → Option LlamaCppSpec → Option TgiSpec → String
framework_of (some _) _ _ = "vllm"
framework_of none (some _) _ = "llama.cpp"
framework_of none none (some _) = "tgi"
framework_of none none none = ""

-- `(*InferenceTask).GetFramework`.
unfoldable pub get_framework : InferenceTask → String
get_framework t = framework_of t.spec.vllm t.spec.llama_cpp t.spec.tgi

abbrev routed_of : Option VllmSpec → Option LlamaCppSpec → Option TgiSpec → Bool
routed_of (some s) _ _ = is_routed s.tool
routed_of none (some s) _ = is_routed s.tool
routed_of none none (some s) = is_routed s.tool
routed_of none none none = false

-- `(*InferenceTask).NeedsExternalRouting`.
unfoldable pub needs_external_routing : InferenceTask → Bool
needs_external_routing t = routed_of t.spec.vllm t.spec.llama_cpp t.spec.tgi

-- `(*InferenceTask).GetRoutingConfig`.
unfoldable pub get_routing_config : InferenceTask → Option RoutingSpec
get_routing_config t =
    or_else (routing_of (λ v. v.tool) t.spec.vllm)
      (or_else (routing_of (λ l. l.tool) t.spec.llama_cpp) (routing_of (λ g. g.tool) t.spec.tgi))

-- `(*InferenceTask).GetGatewayNamespace`.
unfoldable pub get_gateway_namespace : InferenceTask → String
unfolding get_routing_config
get_gateway_namespace t = text_or (get_routing_config t) (λ cfg. cfg.gateway_namespace) "default"

-- `(*InferenceTask).GetGatewayName`.
unfoldable pub get_gateway_name : InferenceTask → String
unfolding get_routing_config
get_gateway_name t = text_or (get_routing_config t) (λ cfg. cfg.gateway_name) "traefik"

-- `(*InferenceTask).GetRoutePath`.
unfoldable pub get_route_path : InferenceTask → String
unfolding get_routing_config get_framework
get_route_path t =
    text_or (get_routing_config t) (λ cfg. cfg.path_prefix)
      ("/" <> (get_framework t <> ("/" <> t.meta.name)))

-- `(*InferenceTask).GetExternalURL`.
unfoldable pub get_external_url : InferenceTask → String
unfolding needs_external_routing get_routing_config get_route_path
get_external_url t =
    let cfg = get_routing_config t in
    if needs_external_routing t
    then "http://"
      <> (text_or cfg (λ c. c.gateway_name) "traefik-gateway"
          <> ("."
              <> (text_or cfg (λ c. c.gateway_namespace) "default"
                  <> (".svc" <> get_route_path t))))
    else ""
