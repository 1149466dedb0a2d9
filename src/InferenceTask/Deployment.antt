-- ===== src/InferenceTask/Deployment.antt =====
-- The Deployment of an InferenceTask (buildInitContainers and BuildInferenceDeployment of
-- internal/controller/inference/utils.go).
use kai_operator.Base.{
  ℕ, String, ◌<>◌, Option, none, some, List, [], ◌∷◌, ◌++◌, ◌==◌, if◌then◌else◌, ◌&&◌, not,
}
use kai_operator.Base.Labels.{Labels}
use kai_operator.Base.Text.{ℤ, pos, is_pos, is_int, show}
use kai_operator.Api.Meta.{new_meta}
use kai_operator.Api.Kube.{
  Env, Mount, Container, VolumeSource, unset, empty_dir, persistent_volume_claim, config_map,
  secret, Volume, Deployment, no_resources, ResourceRequirements,
}
use kai_operator.Api.Task.{EnvVar, VolumeSpec, AutoScalingSpec, BaseToolSpec}
use kai_operator.Api.InferenceTask.{InferenceTask, VllmSpec, TgiSpec, LlamaCppSpec}
use kai_operator.Client.{Result, ok}
use kai_operator.Client.Fallible.{◌>>=◌}
use kai_operator.Host.{System}
use kai_operator.Builder.{build_resources}
use kai_operator.InferenceTask.Model.{
  get_model_path, framework_or_engine, object_name, get_inference_port, get_inference_image,
}

abbrev mirror_env : String → List Env
mirror_env mirror =
    if mirror == "" then [] else record { name = "HF_ENDPOINT"; value = mirror } ∷ []

-- The script that fetches a model from the hub.
abbrev download_script : String → String
download_script id =
    "\npip install huggingface_hub -q\npython -c \"\nimport os\n"
    <> ("os.environ['HF_HUB_OFFLINE'] = '0'\nfrom huggingface_hub import snapshot_download\n"
        <> ("model_id = '"
            <> (id
                <> ("'\ntry:\n"
                    <> ("    snapshot_download(model_id, cache_dir='/models', local_dir='/models')\n"
                        <> ("    print(f'Downloaded model to /models')\nexcept Exception as e:\n"
                            <> "    print(f'Error: {e}')\n    import sys\n    sys.exit(1)\n\"\n"))))))

-- `buildInitContainers`, which does not use the framework.
unfoldable pub build_init_containers : InferenceTask → String → List Container
build_init_containers t id =
    if id == ""
    then []
    else record {
      name = "download-model";
      image = "python:3.11-slim";
      command = "sh" ∷ "-c" ∷ [];
      args = download_script id ∷ [];
      env = mirror_env t.spec.hf_mirror;
      ports = [];
      resources = no_resources;
      volume_mounts = record { name = "models"; mount_path = "/models" } ∷ [];
    }
      ∷ []

-- The arguments for a model that is a path.
unfoldable pub path_args : Option LlamaCppSpec → String → List String
path_args llama path = if path == "" then [] else elim llama [
  | some _ ↦ "-m" ∷ ("/models/" <> path) ∷ []
  | none ↦ "--model" ∷ ("/models/" <> path) ∷ []
]

-- The arguments and the environment of an engine for a model of the hub.
abbrev hub_args : {S : Type 0} → Option S → String → List String
hub_args none id = []
hub_args (some _) id = if id == "" then [] else "--trust-remote-code" ∷ "--model" ∷ id ∷ []

abbrev hub_env : {S : Type 0} → Option S → String → String → List Env
hub_env none id mirror = []
hub_env (some _) id mirror = if id == "" then [] else mirror_env mirror

-- `if value > 0 { args = append(args, flag, fmt.Sprintf("%d", value)) }`
abbrev number_arg : String → ℤ → List String
number_arg flag value = if is_pos value then flag ∷ show value ∷ [] else []

abbrev address_args : ℤ → List String
address_args port = "--host" ∷ "0.0.0.0" ∷ "--port" ∷ show port ∷ []

unfoldable pub vllm_args : Option VllmSpec → ℤ → List String
vllm_args none port = []
vllm_args (some v) port =
    address_args port
    ++ ((if is_pos v.tensor_parallel_size && not (is_int 1 v.tensor_parallel_size)
          then "--tensor-parallel-size" ∷ show v.tensor_parallel_size ∷ []
          else [])
        ++ ((if v.gpu_memory_utilization == ""
              then []
              else "--gpu-memory-utilization" ∷ v.gpu_memory_utilization ∷ [])
            ++ number_arg "--max-model-len" v.max_model_len))

unfoldable pub tgi_args : Option TgiSpec → ℤ → List String
tgi_args none port = []
tgi_args (some g) port =
    address_args port
    ++ (number_arg "--max-batch-size" g.max_batch_size
        ++ (number_arg "--max-input-length" g.max_input_len
            ++ number_arg "--max-total-tokens" g.max_total_tokens))

unfoldable pub llama_args : Option LlamaCppSpec → ℤ → List String
llama_args none port = []
llama_args (some l) port =
    address_args port
    ++ (number_arg "-c" l.context_size
        ++ (number_arg "-t" l.threads
            ++ (number_arg "--n-gpu-layers" l.gpu_layers
                ++ elim l.n [ none ↦ [] | some n ↦ number_arg "-n" n ])))

-- The arguments of the container: the model first, then each engine that is set.
unfoldable pub container_args : InferenceTask → ℤ → List String
unfolding get_model_path path_args vllm_args tgi_args llama_args
container_args t port =
    let (path, id) = get_model_path t in
    path_args t.spec.llama_cpp path
    ++ (hub_args t.spec.vllm id
        ++ (hub_args t.spec.tgi id
            ++ (vllm_args t.spec.vllm port
                ++ (tgi_args t.spec.tgi port ++ llama_args t.spec.llama_cpp port))))

abbrev env_list : List EnvVar → List Env
env_list [] = []
env_list (e ∷ rest) = record { name = e.name; value = e.value } ∷ env_list rest

abbrev tool_env : {S : Type 0} → (S → BaseToolSpec) → Option S → List Env
tool_env tool none = []
tool_env tool (some s) = env_list (tool s).env

unfoldable pub container_env : InferenceTask → List Env
unfolding get_model_path framework_or_engine
container_env t =
    let id = (get_model_path t).1 in
    hub_env t.spec.vllm id t.spec.hf_mirror
    ++ (hub_env t.spec.tgi id t.spec.hf_mirror
        ++ ((record { name = "KAI_TASK_NAME"; value = t.meta.name }
              ∷ record { name = "KAI_TASK_TYPE"; value = "inference" }
              ∷ record { name = "KAI_FRAMEWORK"; value = framework_or_engine t }
              ∷ [])
            ++ (tool_env (λ v. v.tool) t.spec.vllm
                ++ (tool_env (λ g. g.tool) t.spec.tgi ++ tool_env (λ l. l.tool) t.spec.llama_cpp))))

abbrev scaled : {S : Type 0} → (S → Option AutoScalingSpec) → Option S → ℤ → ℤ
scaled scaling none n = n
scaled scaling (some s) n = elim (scaling s) [ none ↦ n | some a ↦ a.min_replicas ]

-- One replica, or the least number of the automatic scaling, where TGI's goes before vLLM's.
unfoldable pub replicas_of : InferenceTask → ℤ
replicas_of t =
    scaled (λ g. g.auto_scaling) t.spec.tgi (scaled (λ v. v.auto_scaling) t.spec.vllm (pos 1))

-- The labels of the deployment and of its pods.
unfoldable pub inference_labels : InferenceTask → Labels
unfolding framework_or_engine
inference_labels t =
    ("app.kubernetes.io/name", "kai")
    ∷ ("app.kubernetes.io/managed-by", "kai-operator")
    ∷ ("kai.io/inference", t.meta.name)
    ∷ ("kai.io/task-type", "inference")
    ∷ ("framework", framework_or_engine t)
    ∷ []

-- The source of a volume, without the capacity.
unfoldable pub volume_source : VolumeSpec → VolumeSource
volume_source v =
    if v.type == "emptyDir"
    then empty_dir none
    else if v.type == "persistentVolumeClaim"
    then persistent_volume_claim v.name
    else if v.type == "configMap"
    then config_map v.name
    else if v.type == "secret"
    then secret v.name
    else unset

-- The loop over the volumes.
unfoldable pub spec_volumes : List VolumeSpec → List Volume
unfolding volume_source
spec_volumes [] = []
spec_volumes (v ∷ rest) = record { name = v.name; source = volume_source v } ∷ spec_volumes rest

unfoldable pub spec_mounts : List VolumeSpec → List Mount
spec_mounts [] = []
spec_mounts (v ∷ rest) = record { name = v.name; mount_path = v.mount_path } ∷ spec_mounts rest

-- The deployment, for the resources that its container gets.
unfoldable pub deployment_with :
    (List ℕ → String) → InferenceTask → ResourceRequirements → Deployment
unfolding build_init_containers container_args container_env replicas_of inference_labels
    object_name get_inference_port get_inference_image spec_volumes spec_mounts
deployment_with getenv t resources = record {
  meta = new_meta (object_name t) t.meta.namespace (inference_labels t);
  replicas = some (replicas_of t);
  match_labels = ("kai.io/inference", t.meta.name) ∷ [];
  template = record {
    labels = inference_labels t;
    restart_policy = "Always";
    init_containers = build_init_containers t (get_model_path t).1;
    containers =
        record {
          name = "inference";
          image = get_inference_image getenv t;
          command = [];
          args = container_args t (get_inference_port getenv t);
          env = container_env t;
          ports = record { name = "http"; container_port = get_inference_port getenv t } ∷ [];
          resources = resources;
          volume_mounts = spec_mounts t.spec.volumes;
        }
        ∷ [];
    volumes = record { name = "models"; source = empty_dir none } ∷ spec_volumes t.spec.volumes;
  };
}

-- `BuildInferenceDeployment`. The panic is that of the resources.
unfoldable pub build_inference_deployment :
    {W : Type 0} → System W → InferenceTask → Result Deployment
unfolding deployment_with build_resources
build_inference_deployment o t = do
  resources ← build_resources o.client t.spec.resources
  ok (deployment_with o.getenv t resources)
