-- ===== src/InferenceTask/ObjectTests.antt =====
-- Instances of the theorems on the objects, the engine and the port of an InferenceTask.
use kai_operator.Base.{false, ◌≡◌, ◌↔◌, ◌⊎◌, refl, String, true, none, some, ◌<>◌, arith}
use kai_operator.Base.Lists.{Any, AllOfSome}
use kai_operator.Base.Labels.{selects, insert}
use kai_operator.Base.Text.{pos}
use kai_operator.Api.Task.{running, no_tool}
use kai_operator.Api.InferenceTask.{InferenceTask, get_framework}
use kai_operator.Client.Calls.{calls}
use kai_operator.Config.{get_framework_port, get_default_config, override}
use kai_operator.Config.Ports.{IsInt32}
use kai_operator.Host.Address.{get_default_host_ip}
use kai_operator.InferenceTask.Model.{
  get_model_path, get_engine, get_inference_image, get_inference_port,
}
use kai_operator.InferenceTask.Deployment.{build_inference_deployment}
use kai_operator.InferenceTask.Service.{get_service_name, build_service, service_labels}
use kai_operator.InferenceTask.Route.{build_http_route}
use kai_operator.InferenceTask.State.{pod_labels}
use kai_operator.InferenceTask.Controller.{reconcile}
use kai_operator.InferenceTask.Objects.{ServesAt, pods_own, inference_route_reaches}
use kai_operator.InferenceTask.Engine.{
  with_model, without_llama, is_torn, model_path_roundtrip, engine_divergence, inference_port_range,
}
use kai_operator.InferenceTask.Samples.{tgi, task, system, llm, built}

all : Unit {0}
unfolding reconcile calls insert build_inference_deployment get_default_host_ip get_framework_port
    get_default_config override
all = tt

pods_own_example :
    ((selects (pod_labels llm) (built (task "other" running)).template.labels ≡ true)
      ↔ ◌≡◌ {A = String} "llm" "other")
    × ((selects (built llm).match_labels (built (task "other" running)).template.labels ≡ true)
        ↔ ◌≡◌ {A = String} "llm" "other")
pods_own_example =
    pods_own system llm (task "other" running) (built llm) (built (task "other" running))
      (unfold all in refl) (unfold all in refl)

inference_route_reaches_example :
    (let port = get_inference_port system.getenv llm in
      let svc = build_service (get_service_name llm) "lab" port (service_labels llm) in
      AllOfSome
        (λ rule.
          AllOfSome
            (λ b.
              (b.name ≡ svc.meta.name)
              × Any
                  (λ p. (p.port ≡ b.port) × (p.target_port ≡ pos 0) × ServesAt p.port (built llm))
                  svc.ports)
            rule.backends)
        (build_http_route llm (get_service_name llm) port).rules
      × (selects svc.selector (built llm).template.labels ≡ true))
inference_route_reaches_example =
    inference_route_reaches system llm (built llm) (unfold all in refl)

model_path_roundtrip_example :
    (get_model_path (with_model ("s3://" <> "llama/7b") llm) ≡ ("llama/7b", ""))
    × (get_model_path (with_model ("hf://" <> "llama/7b") llm) ≡ ("", "llama/7b"))
    × (let (path, id) = get_model_path llm in
        ("hf://qwen" ≡ path) ⊎ (("hf://qwen" ≡ "s3://" <> path) ⊎ ("hf://qwen" ≡ "hf://" <> id)))
model_path_roundtrip_example = model_path_roundtrip llm "llama/7b"

abbrev two_engines : InferenceTask
two_engines = record llm {
  spec = record llm.spec {
    vllm = none;
    tgi = some tgi;
    llama_cpp = some (record {
      tool = no_tool;
      model_path = "";
      context_size = pos 0;
      threads = pos 0;
      gpu_layers = pos 0;
      port = pos 0;
      n = none;
      health_check = none;
      auto_scaling = none;
    });
  };
}

engine_divergence_example :
    ((get_framework two_engines ≡ get_engine two_engines) ↔ (is_torn two_engines ≡ false))
    × (((get_framework two_engines ≡ "llama.cpp")
          × (get_engine two_engines ≡ "tgi")
          × (get_inference_image system.getenv two_engines
              ≡ get_inference_image system.getenv (without_llama two_engines)))
        ↔ (is_torn two_engines ≡ true))
engine_divergence_example = engine_divergence system.getenv two_engines refl

llm_port_is_int32 : IsInt32 (get_inference_port system.getenv llm)
llm_port_is_int32 = inference_port_range system.getenv llm (omega arith) tt tt
