-- ===== src/FineTuneTask/Job.antt =====
-- The Job of a FineTuneTask (ensureJob and buildTrainArgs of
-- internal/controller/finetunetask/finetunetask_controller.go).
use kai_operator.Base.{String, ◌<>◌, Option, none, some, List, [], ◌∷◌, ◌++◌, ◌==◌, if◌then◌else◌}
use kai_operator.Base.Labels.{Labels}
use kai_operator.Base.Text.{ℤ, pos, is_pos, show}
use kai_operator.Api.Meta.{new_meta}
use kai_operator.Api.Kube.{ResourceRequirements, no_resources, empty_dir, Volume, Job}
use kai_operator.Api.Task.{ResourceSpec}
use kai_operator.Api.FineTuneTask.{LlamaFactorySpec, no_llama_factory, FineTuneTask, get_framework}
use kai_operator.Client.{Result, ok, Client}
use kai_operator.Client.Fallible.{◌>>=◌}
use kai_operator.Reconcile.{must_parse}

-- `framework := finetune.GetFramework(); if framework == "" { framework = "llamafactory" }`.
unfoldable pub framework_or_default : FineTuneTask → String
unfolding get_framework
framework_or_default t =
    let framework = get_framework t in if framework == "" then "llamafactory" else framework

-- `fmt.Sprintf("finetune-%s-%s", framework, finetune.Name)`, the name of the job, of the service and of
-- the route.
unfoldable pub object_name : String → FineTuneTask → String
object_name framework t = "finetune-" <> (framework <> ("-" <> t.meta.name))

-- `spec := finetune.Spec.LlamaFactory; if spec == nil { spec = &LlamaFactorySpec{} }`.
abbrev llama_factory_or_empty : Option LlamaFactorySpec → LlamaFactorySpec
llama_factory_or_empty none = no_llama_factory
llama_factory_or_empty (some spec) = spec

-- `if value != "" { args = append(args, flag, value) }`, and the form with a default.
abbrev option : String → String → List String
option flag value = if value == "" then [] else flag ∷ value ∷ []

abbrev option_or : String → String → String → List String
option_or flag value default = flag ∷ (if value == "" then default else value) ∷ []

abbrev positive : String → ℤ → List String → List String
positive flag n otherwise = if is_pos n then flag ∷ show n ∷ [] else otherwise

unfoldable pub build_train_args : FineTuneTask → List String
build_train_args t =
    let spec = llama_factory_or_empty t.spec.llama_factory in
    ("train" ∷ "--stage" ∷ "sft" ∷ "--do_train" ∷ "true" ∷ "--finetuning_type" ∷ "lora" ∷ [])
    ++ (option "--model_name_or_path" spec.model_path
        ++ (option "--dataset" spec.train_data
            ++ ((if spec.valid_data == "" then [] else "--dataset_format" ∷ "alpaca" ∷ [])
                ++ (option_or "--output_dir" spec.output_dir "/output"
                    ++ (positive "--per_device_train_batch_size" spec.batch_size []
                        ++ (option_or "--learning_rate" spec.learning_rate "5e-5"
                            ++ (positive "--num_train_epochs" spec.num_epochs
                                  ("--num_train_epochs" ∷ "3" ∷ [])
                                ++ ("--loraplus_lr_ratio" ∷ "1.0" ∷ "--fp16" ∷ "true" ∷ []))))))))

-- The labels of the job and of its pods.
unfoldable pub job_labels : String → FineTuneTask → Labels
job_labels framework t =
    ("app.kubernetes.io/name", "kai")
    ∷ ("app.kubernetes.io/managed-by", "kai-operator")
    ∷ ("kai.io/finetune", t.meta.name)
    ∷ ("kai.io/task-type", "finetune")
    ∷ ("framework", framework)
    ∷ []

abbrev scratch : String → Volume
scratch name = record { name = name; source = empty_dir none }

module _ {W : Type 0} (c : Client W) where
  -- The two assignments to the requests of the container; a text that is no quantity panics.
  unfoldable pub job_resources : Option ResourceSpec → Result ResourceRequirements
  job_resources none = ok no_resources
  job_resources (some r) = do
    cpu ← if r.cpu == "" then ok [] else do q ← must_parse c r.cpu; ok (("cpu", q) ∷ [])
    requests ←
        if r.gpu == "" then ok cpu else do q ← must_parse c r.gpu; ok (("nvidia.com/gpu", q) ∷ [])
    ok (record { requests = requests; limits = [] })

  unfoldable pub build_job : String → FineTuneTask → Result Job
  unfolding job_resources object_name job_labels build_train_args
  build_job framework t = do
    resources ← job_resources t.spec.resources
    ok (record {
      meta = new_meta (object_name framework t) t.meta.namespace (job_labels framework t);
      ttl_seconds_after_finished = some (pos 300);
      template = record {
        labels = job_labels framework t;
        restart_policy = "Never";
        init_containers = [];
        containers =
            record {
              name = "train";
              image = "hiyouga/llamafactory:latest";
              command = "llamafactory-cli" ∷ [];
              args = build_train_args t;
              env =
                  record { name = "KAI_TASK_NAME"; value = t.meta.name }
                  ∷ record { name = "KAI_TASK_TYPE"; value = "finetune" }
                  ∷ record { name = "KAI_FRAMEWORK"; value = framework }
                  ∷ [];
              ports = [];
              resources = resources;
              volume_mounts =
                  record { name = "data"; mount_path = "/data" }
                  ∷ record { name = "output"; mount_path = "/output" }
                  ∷ record { name = "models"; mount_path = "/models" }
                  ∷ [];
            }
            ∷ [];
        volumes = scratch "data" ∷ scratch "output" ∷ scratch "models" ∷ [];
      };
      status = record { active = pos 0; succeeded = pos 0; failed = pos 0; conditions = [] };
    })
