-- ===== src/InferenceTask/Samples.antt =====
-- Tasks and a machine for the tests of the InferenceTask controller.
use kai_operator.Base.{String, false, none, some, [], ◌∷◌}
use kai_operator.Base.Text.{pos}
use kai_operator.Api.Meta.{Key, new_meta}
use kai_operator.Api.Kube.{Deployment, ResourceRequirements}
use kai_operator.Api.Task.{TaskPhase, running, no_tool, no_status}
use kai_operator.Api.InferenceTask.{InferenceTask, VllmSpec, TgiSpec}
use kai_operator.Fake.{World, empty, server}
use kai_operator.Host.{System}
use kai_operator.InferenceTask.Deployment.{deployment_with}
use kai_operator.InferenceTask.State.{finalizer_name}

abbrev pub vllm : VllmSpec
vllm = record {
  tool = no_tool;
  model_path = "";
  model_name = "";
  tensor_parallel_size = pos 2;
  gpu_memory_utilization = "0.9";
  max_model_len = pos 0;
  port = pos 0;
  health_check = none;
  auto_scaling = none;
}

abbrev pub tgi : TgiSpec
tgi = record {
  tool = no_tool;
  model_path = "";
  model_id = "";
  max_batch_size = pos 0;
  max_input_len = pos 0;
  max_total_tokens = pos 0;
  port = pos 0;
  health_check = none;
  auto_scaling = none;
}

abbrev pub task : String → TaskPhase → InferenceTask
task name phase = record {
  meta = record (new_meta name "lab" (("framework", "vllm") ∷ [])) {
    finalizers = finalizer_name ∷ [];
  };
  spec = record {
    resources = none;
    volumes =
        record {
          name = "cache";
          mount_path = "/cache";
          type = "emptyDir";
          capacity = "";
          storage_class = "";
        }
        ∷ [];
    data_sources = [];
    run_after = [];
    ttl_seconds = none;
    model = "hf://qwen";
    engine = "";
    hf_mirror = "";
    vllm = some vllm;
    llama_cpp = none;
    tgi = none;
  };
  status = record no_status { phase = phase };
}

abbrev pub system : System World
system = record {
  client = server;
  getenv = λ _. "";
  host = record { colima = none; parses_ip = λ _. false; interfaces = none };
}

abbrev pub key : Key
key = record { name = "llm"; namespace = "lab" }

abbrev pub llm : InferenceTask
llm = task "llm" running

abbrev pub unlabelled : TaskPhase → InferenceTask
unlabelled phase = record (task "llm" phase) {
  meta = record (task "llm" phase).meta { labels = [] };
}

abbrev pub held : InferenceTask → World
held t = record empty { inference_tasks = t ∷ [] }

-- The resources of a task that asks for none.
abbrev pub defaults : ResourceRequirements
defaults =
    let amounts = ("cpu", record { text = "500m" }) ∷ ("memory", record { text = "512Mi" }) ∷ [] in
    record { requests = amounts; limits = amounts }

abbrev pub built : InferenceTask → Deployment
built t = deployment_with system.getenv t defaults
