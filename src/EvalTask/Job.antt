-- ===== src/EvalTask/Job.antt =====
-- The Job of an EvalTask (ensureJob and buildEvalArgs of
-- internal/controller/evaltask/evaltask_controller.go).
use kai_operator.Base.{String, ◌<>◌, Option, none, some, List, [], ◌∷◌, ◌++◌, ◌==◌, if◌then◌else◌}
use kai_operator.Base.Labels.{Labels}
use kai_operator.Base.Text.{pos}
use kai_operator.Api.Meta.{new_meta}
use kai_operator.Api.Kube.{ResourceRequirements, no_resources, empty_dir, Volume, Job}
use kai_operator.Api.Task.{ResourceSpec}
use kai_operator.Api.EvalTask.{
  ModelEvalConfig, OpenCompassSpec, no_open_compass, EvalTask, get_framework,
}
use kai_operator.Client.{Result, ok, Client}
use kai_operator.Client.Fallible.{◌>>=◌}
use kai_operator.Reconcile.{must_parse}

-- `framework := eval.GetFramework(); if framework == "" { framework = "opencompass" }`.
unfoldable pub framework_or_default : EvalTask → String
unfolding get_framework
framework_or_default t =
    let framework = get_framework t in if framework == "" then "opencompass" else framework

-- `fmt.Sprintf("eval-%s-%s", framework, eval.Name)`.
unfoldable pub job_name : String → EvalTask → String
job_name framework t = "eval-" <> (framework <> ("-" <> t.meta.name))

-- `if value != "" { args = append(args, flag, value) }`
abbrev pub option : String → String → List String
option flag value = if value == "" then [] else flag ∷ value ∷ []

model_args : List ModelEvalConfig → List String
model_args [] = []
model_args (model ∷ _) =
    "--models"
    ∷ model.model
    ∷ (option "--model-path" model.model_path ++ option "--template" model.template)

dataset_args : List String → List String
dataset_args [] = []
dataset_args (d ∷ _) = "--datasets" ∷ d ∷ []

unfoldable pub build_eval_args : OpenCompassSpec → List String
unfolding model_args dataset_args
build_eval_args spec =
    ("-m" ∷ "opencompass" ∷ [])
    ++ (model_args spec.models
        ++ (dataset_args spec.datasets
            ++ (option "--work-dir" spec.work_dir
                ++ (option "--output" spec.output_dir
                    ++ (if spec.debug then "--debug" ∷ [] else [])))))

-- The labels of the job and of its pods.
unfoldable pub job_labels : String → EvalTask → Labels
job_labels framework t =
    ("app.kubernetes.io/name", "kai")
    ∷ ("app.kubernetes.io/managed-by", "kai-operator")
    ∷ ("kai.io/eval", t.meta.name)
    ∷ ("kai.io/task-type", "eval")
    ∷ ("framework", framework)
    ∷ []

abbrev scratch : String → Volume
scratch name = record { name = name; source = empty_dir none }

-- `spec := eval.Spec.OpenCompass; if spec == nil { spec = &OpenCompassSpec{} }`.
abbrev open_compass_or_empty : Option OpenCompassSpec → OpenCompassSpec
open_compass_or_empty none = no_open_compass
open_compass_or_empty (some spec) = spec

module _ {W : Type 0} (c : Client W) where
  -- The requests hold the CPU and the limits the GPU; a text that is no quantity panics.
  job_resources : Option ResourceSpec → Result ResourceRequirements
  job_resources none = ok no_resources
  job_resources (some r) = do
    requests ← if r.cpu == "" then ok [] else do q ← must_parse c r.cpu; ok (("cpu", q) ∷ [])
    limits ←
        if r.gpu == "" then ok [] else do q ← must_parse c r.gpu; ok (("nvidia.com/gpu", q) ∷ [])
    ok (record { requests = requests; limits = limits })

  unfoldable pub build_job : String → EvalTask → Result Job
  unfolding job_resources job_name job_labels build_eval_args
  build_job framework t = do
    let spec = open_compass_or_empty t.spec.open_compass
    resources ← job_resources spec.tool.resources
    ok (record {
      meta = new_meta (job_name framework t) t.meta.namespace (job_labels framework t);
      ttl_seconds_after_finished = some (pos 300);
      template = record {
        labels = job_labels framework t;
        restart_policy = "Never";
        init_containers = [];
        containers =
            record {
              name = "eval";
              image = "opencompass/eval:latest";
              command = "python" ∷ [];
              args = build_eval_args spec;
              env =
                  record { name = "KAI_TASK_NAME"; value = t.meta.name }
                  ∷ record { name = "KAI_TASK_TYPE"; value = "eval" }
                  ∷ record { name = "KAI_FRAMEWORK"; value = framework }
                  ∷ [];
              ports = [];
              resources = resources;
              volume_mounts =
                  record { name = "data"; mount_path = "/data" }
                  ∷ record { name = "output"; mount_path = "/output" }
                  ∷ record { name = "models"; mount_path = "/models" }
                  ∷ [];
            }
            ∷ [];
        volumes = scratch "data" ∷ scratch "output" ∷ scratch "models" ∷ [];
      };
      status = record { active = pos 0; succeeded = pos 0; failed = pos 0; conditions = [] };
    })
