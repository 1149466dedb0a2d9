-- ===== src/Memory/Train.antt =====
-- The TrainTask types of api/v1alpha1/traintask_types.go in memory, and their deep copies
-- (api/v1alpha1/zz_generated.deepcopy.go).
pub mod Deep
use kai_operator.Base.{String, Bool, Option, none, some, List}
use kai_operator.Base.Labels.{Labels}
use kai_operator.Base.Text.{ℤ}
use kai_operator.Api.Task.{
  TaskPhase, EnvVar, VolumeMount, ResourceSpec, VolumeSpec, DataSourceSpec, HealthCheckSpec,
  AutoScalingSpec, Condition,
}
use kai_operator.Api.EvalTask.{ModelEvalConfig}
use kai_operator.Memory.{Ref, Alloc, pure, ◌>>=◌, copy_ref, copy_or_nil, copy_each, Library}
use kai_operator.Memory.Shared.{
  BaseToolSpec, base_tool_spec_deep_copy_into, TaskStatus, task_status_deep_copy_into,
}

pub record PyTorchSpec : Type 0 where
  pub tool : BaseToolSpec
  pub script_path : String
  pub hyperparameters : Option (Ref Labels)
  pub checkpoint_dir : String
  pub output_dir : String
  pub max_epochs : ℤ
  pub batch_size : ℤ
  pub learning_rate : String
  pub gradient_accum_step : ℤ
  pub warmup_steps : ℤ
  pub save_interval : ℤ
  pub eval_interval : ℤ
  pub world_size : ℤ
  pub nproc_per_node : ℤ
  pub distributed_backend : String

pub record TensorFlowSpec : Type 0 where
  pub tool : BaseToolSpec
  pub script_path : String
  pub hyperparameters : Option (Ref Labels)
  pub checkpoint_dir : String
  pub output_dir : String
  pub max_steps : ℤ
  pub batch_size : ℤ
  pub learning_rate : String
  pub save_interval : ℤ
  pub eval_interval : ℤ
  pub distribution_strategy : String

pub record TrainTaskSpec : Type 0 where
  pub resources : Option (Ref ResourceSpec)
  pub volumes : Option (Ref (List VolumeSpec))
  pub data_sources : Option (Ref (List DataSourceSpec))
  pub run_after : Option (Ref (List String))
  pub ttl_seconds : Option (Ref ℤ)
  pub py_torch : Option (Ref PyTorchSpec)
  pub tensor_flow : Option (Ref TensorFlowSpec)

pub record TrainTask (M T : Type 0) : Type 0 where
  pub meta : M
  pub spec : TrainTaskSpec
  pub status : TaskStatus T

pub record TrainTaskList (M L T : Type 0) : Type 0 where
  pub meta : L
  pub items : Option (Ref (List (TrainTask M T)))

unfoldable pub py_torch_spec_deep_copy_into : PyTorchSpec → Alloc PyTorchSpec
unfolding base_tool_spec_deep_copy_into
py_torch_spec_deep_copy_into x = do
  tool ← base_tool_spec_deep_copy_into x.tool
  hyperparameters ← copy_ref pure x.hyperparameters
  pure (record x { tool = tool; hyperparameters = hyperparameters })

unfoldable pub py_torch_spec_deep_copy : Option (Ref PyTorchSpec) → Alloc (Option (Ref PyTorchSpec))
unfolding py_torch_spec_deep_copy_into
py_torch_spec_deep_copy x = copy_ref py_torch_spec_deep_copy_into x

unfoldable pub tensor_flow_spec_deep_copy_into : TensorFlowSpec → Alloc TensorFlowSpec
unfolding base_tool_spec_deep_copy_into
tensor_flow_spec_deep_copy_into x = do
  tool ← base_tool_spec_deep_copy_into x.tool
  hyperparameters ← copy_ref pure x.hyperparameters
  pure (record x { tool = tool; hyperparameters = hyperparameters })

unfoldable pub tensor_flow_spec_deep_copy :
    Option (Ref TensorFlowSpec) → Alloc (Option (Ref TensorFlowSpec))
unfolding tensor_flow_spec_deep_copy_into
tensor_flow_spec_deep_copy x = copy_ref tensor_flow_spec_deep_copy_into x

unfoldable pub train_task_spec_deep_copy_into : TrainTaskSpec → Alloc TrainTaskSpec
unfolding py_torch_spec_deep_copy_into tensor_flow_spec_deep_copy_into
train_task_spec_deep_copy_into x = do
  resources ← copy_ref pure x.resources
  volumes ← copy_ref pure x.volumes
  data_sources ← copy_ref pure x.data_sources
  run_after ← copy_ref pure x.run_after
  ttl_seconds ← copy_ref pure x.ttl_seconds
  py_torch ← copy_ref py_torch_spec_deep_copy_into x.py_torch
  tensor_flow ← copy_ref tensor_flow_spec_deep_copy_into x.tensor_flow
  pure (record x {
    resources = resources;
    volumes = volumes;
    data_sources = data_sources;
    run_after = run_after;
    ttl_seconds = ttl_seconds;
    py_torch = py_torch;
    tensor_flow = tensor_flow;
  })

unfoldable pub train_task_spec_deep_copy :
    Option (Ref TrainTaskSpec) → Alloc (Option (Ref TrainTaskSpec))
unfolding train_task_spec_deep_copy_into
train_task_spec_deep_copy x = copy_ref train_task_spec_deep_copy_into x

module _ {M L T : Type 0} (l : Library M L T) where
  unfoldable pub train_task_deep_copy_into : TrainTask M T → Alloc (TrainTask M T)
  unfolding train_task_spec_deep_copy_into task_status_deep_copy_into
  train_task_deep_copy_into x = do
    meta ← l.object_meta.copy x.meta
    spec ← train_task_spec_deep_copy_into x.spec
    status ← task_status_deep_copy_into l x.status
    pure (record x { meta = meta; spec = spec; status = status })

  unfoldable pub train_task_deep_copy :
      Option (Ref (TrainTask M T)) → Alloc (Option (Ref (TrainTask M T)))
  unfolding train_task_deep_copy_into
  train_task_deep_copy x = copy_ref train_task_deep_copy_into x

  unfoldable pub train_task_deep_copy_object :
      Option (Ref (TrainTask M T)) → Alloc (Option (Ref (TrainTask M T)))
  unfolding train_task_deep_copy
  train_task_deep_copy_object x = do
    c ← train_task_deep_copy x
    pure (elim c [ none ↦ none | some o ↦ some o ])

  unfoldable pub train_task_list_deep_copy_into : TrainTaskList M L T → Alloc (TrainTaskList M L T)
  unfolding train_task_deep_copy_into
  train_task_list_deep_copy_into x = do
    meta ← l.list_meta.copy x.meta
    items ← copy_ref (copy_each (train_task_deep_copy_into)) x.items
    pure (record x { meta = meta; items = items })

  unfoldable pub train_task_list_deep_copy :
      Option (Ref (TrainTaskList M L T)) → Alloc (Option (Ref (TrainTaskList M L T)))
  unfolding train_task_list_deep_copy_into
  train_task_list_deep_copy x = copy_ref train_task_list_deep_copy_into x

  unfoldable pub train_task_list_deep_copy_object :
      Option (Ref (TrainTaskList M L T)) → Alloc (Option (Ref (TrainTaskList M L T)))
  unfolding train_task_list_deep_copy
  train_task_list_deep_copy_object x = do
    c ← train_task_list_deep_copy x
    pure (elim c [ none ↦ none | some o ↦ some o ])
