-- ===== src/Memory/FineTune.antt =====
-- The FineTuneTask types of api/v1alpha1/finetunetask_types.go in memory, and their deep copies
-- (api/v1alpha1/zz_generated.deepcopy.go).
pub mod Deep
use kai_operator.Base.{String, Bool, Option, none, some, List}
use kai_operator.Base.Labels.{Labels}
use kai_operator.Base.Text.{ℤ}
use kai_operator.Api.Task.{
  TaskPhase, EnvVar, VolumeMount, ResourceSpec, VolumeSpec, DataSourceSpec, HealthCheckSpec,
  AutoScalingSpec, Condition,
}
use kai_operator.Api.EvalTask.{ModelEvalConfig}
use kai_operator.Memory.{Ref, Alloc, pure, ◌>>=◌, copy_ref, copy_or_nil, copy_each, Library}
use kai_operator.Memory.Shared.{
  BaseToolSpec, base_tool_spec_deep_copy_into, TaskStatus, task_status_deep_copy_into,
}

pub record LoraSpec : Type 0 where
  pub tool : BaseToolSpec
  pub model_path : String
  pub train_data : String
  pub valid_data : String
  pub output_dir : String
  pub lora_rank : ℤ
  pub lora_alpha : ℤ
  pub lora_dropout : String
  pub target_modules : Option (Ref (List String))
  pub batch_size : ℤ
  pub learning_rate : String
  pub epochs : ℤ
  pub cutoff_len : ℤ
  pub warmup_steps : ℤ
  pub save_steps : ℤ
  pub eval_steps : ℤ

pub record LlamaFactorySpec : Type 0 where
  pub tool : BaseToolSpec
  pub model_path : String
  pub stage : String
  pub train_data : String
  pub valid_data : String
  pub output_dir : String
  pub finetuning_type : String
  pub lora_rank : ℤ
  pub lora_alpha : ℤ
  pub lora_dropout : String
  pub target_modules : Option (Ref (List String))
  pub batch_size : ℤ
  pub learning_rate : String
  pub num_epochs : ℤ
  pub max_grad_norm : String
  pub warmup_ratio : String
  pub save_steps : ℤ
  pub eval_steps : ℤ

pub record FineTuneTaskSpec : Type 0 where
  pub resources : Option (Ref ResourceSpec)
  pub volumes : Option (Ref (List VolumeSpec))
  pub data_sources : Option (Ref (List DataSourceSpec))
  pub run_after : Option (Ref (List String))
  pub ttl_seconds : Option (Ref ℤ)
  pub lora : Option (Ref LoraSpec)
  pub llama_factory : Option (Ref LlamaFactorySpec)

pub record FineTuneTask (M T : Type 0) : Type 0 where
  pub meta : M
  pub spec : FineTuneTaskSpec
  pub status : TaskStatus T

pub record FineTuneTaskList (M L T : Type 0) : Type 0 where
  pub meta : L
  pub items : Option (Ref (List (FineTuneTask M T)))

unfoldable pub lora_spec_deep_copy_into : LoraSpec → Alloc LoraSpec
unfolding base_tool_spec_deep_copy_into
lora_spec_deep_copy_into x = do
  tool ← base_tool_spec_deep_copy_into x.tool
  target_modules ← copy_ref pure x.target_modules
  pure (record x { tool = tool; target_modules = target_modules })

unfoldable pub lora_spec_deep_copy : Option (Ref LoraSpec) → Alloc (Option (Ref LoraSpec))
unfolding lora_spec_deep_copy_into
lora_spec_deep_copy x = copy_ref lora_spec_deep_copy_into x

unfoldable pub llama_factory_spec_deep_copy_into : LlamaFactorySpec → Alloc LlamaFactorySpec
unfolding base_tool_spec_deep_copy_into
llama_factory_spec_deep_copy_into x = do
  tool ← base_tool_spec_deep_copy_into x.tool
  target_modules ← copy_ref pure x.target_modules
  pure (record x { tool = tool; target_modules = target_modules })

unfoldable pub llama_factory_spec_deep_copy :
    Option (Ref LlamaFactorySpec) → Alloc (Option (Ref LlamaFactorySpec))
unfolding llama_factory_spec_deep_copy_into
llama_factory_spec_deep_copy x = copy_ref llama_factory_spec_deep_copy_into x

unfoldable pub fine_tune_task_spec_deep_copy_into : FineTuneTaskSpec → Alloc FineTuneTaskSpec
unfolding lora_spec_deep_copy_into llama_factory_spec_deep_copy_into
fine_tune_task_spec_deep_copy_into x = do
  resources ← copy_ref pure x.resources
  volumes ← copy_ref pure x.volumes
  data_sources ← copy_ref pure x.data_sources
  run_after ← copy_ref pure x.run_after
  ttl_seconds ← copy_ref pure x.ttl_seconds
  lora ← copy_ref lora_spec_deep_copy_into x.lora
  llama_factory ← copy_ref llama_factory_spec_deep_copy_into x.llama_factory
  pure (record x {
    resources = resources;
    volumes = volumes;
    data_sources = data_sources;
    run_after = run_after;
    ttl_seconds = ttl_seconds;
    lora = lora;
    llama_factory = llama_factory;
  })

unfoldable pub fine_tune_task_spec_deep_copy :
    Option (Ref FineTuneTaskSpec) → Alloc (Option (Ref FineTuneTaskSpec))
unfolding fine_tune_task_spec_deep_copy_into
fine_tune_task_spec_deep_copy x = copy_ref fine_tune_task_spec_deep_copy_into x

module _ {M L T : Type 0} (l : Library M L T) where
  unfoldable pub fine_tune_task_deep_copy_into : FineTuneTask M T → Alloc (FineTuneTask M T)
  unfolding fine_tune_task_spec_deep_copy_into task_status_deep_copy_into
  fine_tune_task_deep_copy_into x = do
    meta ← l.object_meta.copy x.meta
    spec ← fine_tune_task_spec_deep_copy_into x.spec
    status ← task_status_deep_copy_into l x.status
    pure (record x { meta = meta; spec = spec; status = status })

  unfoldable pub fine_tune_task_deep_copy :
      Option (Ref (FineTuneTask M T)) → Alloc (Option (Ref (FineTuneTask M T)))
  unfolding fine_tune_task_deep_copy_into
  fine_tune_task_deep_copy x = copy_ref fine_tune_task_deep_copy_into x

  unfoldable pub fine_tune_task_deep_copy_object :
      Option (Ref (FineTuneTask M T)) → Alloc (Option (Ref (FineTuneTask M T)))
  unfolding fine_tune_task_deep_copy
  fine_tune_task_deep_copy_object x = do
    c ← fine_tune_task_deep_copy x
    pure (elim c [ none ↦ none | some o ↦ some o ])

  unfoldable pub fine_tune_task_list_deep_copy_into :
      FineTuneTaskList M L T → Alloc (FineTuneTaskList M L T)
  unfolding fine_tune_task_deep_copy_into
  fine_tune_task_list_deep_copy_into x = do
    meta ← l.list_meta.copy x.meta
    items ← copy_ref (copy_each (fine_tune_task_deep_copy_into)) x.items
    pure (record x { meta = meta; items = items })

  unfoldable pub fine_tune_task_list_deep_copy :
      Option (Ref (FineTuneTaskList M L T)) → Alloc (Option (Ref (FineTuneTaskList M L T)))
  unfolding fine_tune_task_list_deep_copy_into
  fine_tune_task_list_deep_copy x = copy_ref fine_tune_task_list_deep_copy_into x

  unfoldable pub fine_tune_task_list_deep_copy_object :
      Option (Ref (FineTuneTaskList M L T)) → Alloc (Option (Ref (FineTuneTaskList M L T)))
  unfolding fine_tune_task_list_deep_copy
  fine_tune_task_list_deep_copy_object x = do
    c ← fine_tune_task_list_deep_copy x
    pure (elim c [ none ↦ none | some o ↦ some o ])
