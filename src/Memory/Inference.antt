-- ===== src/Memory/Inference.antt =====
-- The InferenceTask types of api/v1alpha1/inferencetask_types.go in memory, and their deep copies
-- (api/v1alpha1/zz_generated.deepcopy.go).
pub mod Deep
use kai_operator.Base.{String, Bool, Option, none, some, List}
use kai_operator.Base.Labels.{Labels}
use kai_operator.Base.Text.{ℤ}
use kai_operator.Api.Task.{
  TaskPhase, EnvVar, VolumeMount, ResourceSpec, VolumeSpec, DataSourceSpec, HealthCheckSpec,
  AutoScalingSpec, Condition,
}
use kai_operator.Api.EvalTask.{ModelEvalConfig}
use kai_operator.Memory.{Ref, Alloc, pure, ◌>>=◌, copy_ref, copy_or_nil, copy_each, Library}
use kai_operator.Memory.Shared.{
  BaseToolSpec, base_tool_spec_deep_copy_into, TaskStatus, task_status_deep_copy_into,
}

pub record VllmSpec : Type 0 where
  pub tool : BaseToolSpec
  pub model_path : String
  pub model_name : String
  pub tensor_parallel_size : ℤ
  pub gpu_memory_utilization : String
  pub max_model_len : ℤ
  pub port : ℤ
  pub health_check : Option (Ref HealthCheckSpec)
  pub auto_scaling : Option (Ref AutoScalingSpec)

pub record LlamaCppSpec : Type 0 where
  pub tool : BaseToolSpec
  pub model_path : String
  pub context_size : ℤ
  pub threads : ℤ
  pub gpu_layers : ℤ
  pub port : ℤ
  pub n : Option (Ref ℤ)
  pub health_check : Option (Ref HealthCheckSpec)
  pub auto_scaling : Option (Ref AutoScalingSpec)

pub record TgiSpec : Type 0 where
  pub tool : BaseToolSpec
  pub model_path : String
  pub model_id : String
  pub max_batch_size : ℤ
  pub max_input_len : ℤ
  pub max_total_tokens : ℤ
  pub port : ℤ
  pub health_check : Option (Ref HealthCheckSpec)
  pub auto_scaling : Option (Ref AutoScalingSpec)

pub record InferenceTaskSpec : Type 0 where
  pub resources : Option (Ref ResourceSpec)
  pub volumes : Option (Ref (List VolumeSpec))
  pub data_sources : Option (Ref (List DataSourceSpec))
  pub run_after : Option (Ref (List String))
  pub ttl_seconds : Option (Ref ℤ)
  pub model : String
  pub engine : String
  pub hf_mirror : String
  pub vllm : Option (Ref VllmSpec)
  pub llama_cpp : Option (Ref LlamaCppSpec)
  pub tgi : Option (Ref TgiSpec)

pub record InferenceTask (M T : Type 0) : Type 0 where
  pub meta : M
  pub spec : InferenceTaskSpec
  pub status : TaskStatus T

pub record InferenceTaskList (M L T : Type 0) : Type 0 where
  pub meta : L
  pub items : Option (Ref (List (InferenceTask M T)))

unfoldable pub vllm_spec_deep_copy_into : VllmSpec → Alloc VllmSpec
unfolding base_tool_spec_deep_copy_into
vllm_spec_deep_copy_into x = do
  tool ← base_tool_spec_deep_copy_into x.tool
  health_check ← copy_ref pure x.health_check
  auto_scaling ← copy_ref pure x.auto_scaling
  pure (record x { tool = tool; health_check = health_check; auto_scaling = auto_scaling })

unfoldable pub vllm_spec_deep_copy : Option (Ref VllmSpec) → Alloc (Option (Ref VllmSpec))
unfolding vllm_spec_deep_copy_into
vllm_spec_deep_copy x = copy_ref vllm_spec_deep_copy_into x

-- `N` is not copied: the pointer in the copy is that of the original.
unfoldable pub llama_cpp_spec_deep_copy_into : LlamaCppSpec → Alloc LlamaCppSpec
unfolding base_tool_spec_deep_copy_into
llama_cpp_spec_deep_copy_into x = do
  tool ← base_tool_spec_deep_copy_into x.tool
  health_check ← copy_ref pure x.health_check
  auto_scaling ← copy_ref pure x.auto_scaling
  pure (record x { tool = tool; health_check = health_check; auto_scaling = auto_scaling })

unfoldable pub llama_cpp_spec_deep_copy :
    Option (Ref LlamaCppSpec) → Alloc (Option (Ref LlamaCppSpec))
unfolding llama_cpp_spec_deep_copy_into
llama_cpp_spec_deep_copy x = copy_ref llama_cpp_spec_deep_copy_into x

unfoldable pub tgi_spec_deep_copy_into : TgiSpec → Alloc TgiSpec
unfolding base_tool_spec_deep_copy_into
tgi_spec_deep_copy_into x = do
  tool ← base_tool_spec_deep_copy_into x.tool
  health_check ← copy_ref pure x.health_check
  auto_scaling ← copy_ref pure x.auto_scaling
  pure (record x { tool = tool; health_check = health_check; auto_scaling = auto_scaling })

unfoldable pub tgi_spec_deep_copy : Option (Ref TgiSpec) → Alloc (Option (Ref TgiSpec))
unfolding tgi_spec_deep_copy_into
tgi_spec_deep_copy x = copy_ref tgi_spec_deep_copy_into x

unfoldable pub inference_task_spec_deep_copy_into : InferenceTaskSpec → Alloc InferenceTaskSpec
unfolding vllm_spec_deep_copy_into llama_cpp_spec_deep_copy_into tgi_spec_deep_copy_into
inference_task_spec_deep_copy_into x = do
  resources ← copy_ref pure x.resources
  volumes ← copy_ref pure x.volumes
  data_sources ← copy_ref pure x.data_sources
  run_after ← copy_ref pure x.run_after
  ttl_seconds ← copy_ref pure x.ttl_seconds
  vllm ← copy_ref vllm_spec_deep_copy_into x.vllm
  llama_cpp ← copy_ref llama_cpp_spec_deep_copy_into x.llama_cpp
  tgi ← copy_ref tgi_spec_deep_copy_into x.tgi
  pure (record x {
    resources = resources;
    volumes = volumes;
    data_sources = data_sources;
    run_after = run_after;
    ttl_seconds = ttl_seconds;
    vllm = vllm;
    llama_cpp = llama_cpp;
    tgi = tgi;
  })

unfoldable pub inference_task_spec_deep_copy :
    Option (Ref InferenceTaskSpec) → Alloc (Option (Ref InferenceTaskSpec))
unfolding inference_task_spec_deep_copy_into
inference_task_spec_deep_copy x = copy_ref inference_task_spec_deep_copy_into x

module _ {M L T : Type 0} (l : Library M L T) where
  unfoldable pub inference_task_deep_copy_into : InferenceTask M T → Alloc (InferenceTask M T)
  unfolding inference_task_spec_deep_copy_into task_status_deep_copy_into
  inference_task_deep_copy_into x = do
    meta ← l.object_meta.copy x.meta
    spec ← inference_task_spec_deep_copy_into x.spec
    status ← task_status_deep_copy_into l x.status
    pure (record x { meta = meta; spec = spec; status = status })

  unfoldable pub inference_task_deep_copy :
      Option (Ref (InferenceTask M T)) → Alloc (Option (Ref (InferenceTask M T)))
  unfolding inference_task_deep_copy_into
  inference_task_deep_copy x = copy_ref inference_task_deep_copy_into x

  unfoldable pub inference_task_deep_copy_object :
      Option (Ref (InferenceTask M T)) → Alloc (Option (Ref (InferenceTask M T)))
  unfolding inference_task_deep_copy
  inference_task_deep_copy_object x = do
    c ← inference_task_deep_copy x
    pure (elim c [ none ↦ none | some o ↦ some o ])

  unfoldable pub inference_task_list_deep_copy_into :
      InferenceTaskList M L T → Alloc (InferenceTaskList M L T)
  unfolding inference_task_deep_copy_into
  inference_task_list_deep_copy_into x = do
    meta ← l.list_meta.copy x.meta
    items ← copy_ref (copy_each (inference_task_deep_copy_into)) x.items
    pure (record x { meta = meta; items = items })

  unfoldable pub inference_task_list_deep_copy :
      Option (Ref (InferenceTaskList M L T)) → Alloc (Option (Ref (InferenceTaskList M L T)))
  unfolding inference_task_list_deep_copy_into
  inference_task_list_deep_copy x = copy_ref inference_task_list_deep_copy_into x

  unfoldable pub inference_task_list_deep_copy_object :
      Option (Ref (InferenceTaskList M L T)) → Alloc (Option (Ref (InferenceTaskList M L T)))
  unfolding inference_task_list_deep_copy
  inference_task_list_deep_copy_object x = do
    c ← inference_task_list_deep_copy x
    pure (elim c [ none ↦ none | some o ↦ some o ])
