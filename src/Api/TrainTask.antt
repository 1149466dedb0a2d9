-- ===== src/Api/TrainTask.antt =====
-- The TrainTask kind and its method (api/v1alpha1/traintask_types.go).
use kai_operator.Base.{String, Option, none, some, List}
use kai_operator.Base.Labels.{Labels}
use kai_operator.Base.Text.{ℤ}
use kai_operator.Api.Meta.{ObjectMeta}
use kai_operator.Api.Task.{ResourceSpec, VolumeSpec, DataSourceSpec, BaseToolSpec, TaskStatus}

pub record PyTorchSpec : Type 0 where
  pub tool : BaseToolSpec
  pub script_path : String
  pub hyperparameters : Labels
  pub checkpoint_dir : String
  pub output_dir : String
  pub max_epochs : ℤ
  pub batch_size : ℤ
  pub learning_rate : String
  pub gradient_accum_step : ℤ
  pub warmup_steps : ℤ
  pub save_interval : ℤ
  pub eval_interval : ℤ
  pub world_size : ℤ
  pub nproc_per_node : ℤ
  pub distributed_backend : String

pub record TensorFlowSpec : Type 0 where
  pub tool : BaseToolSpec
  pub script_path : String
  pub hyperparameters : Labels
  pub checkpoint_dir : String
  pub output_dir : String
  pub max_steps : ℤ
  pub batch_size : ℤ
  pub learning_rate : String
  pub save_interval : ℤ
  pub eval_interval : ℤ
  pub distribution_strategy : String

pub record TrainTaskSpec : Type 0 where
  pub resources : Option ResourceSpec
  pub volumes : List VolumeSpec
  pub data_sources : List DataSourceSpec
  pub run_after : List String
  pub ttl_seconds : Option ℤ
  pub py_torch : Option PyTorchSpec
  pub tensor_flow : Option TensorFlowSpec

pub record TrainTask : Type 0 where
  pub meta : ObjectMeta
  pub spec : TrainTaskSpec
  pub status : TaskStatus

abbrev framework_of : Option PyTorchSpec → Option TensorFlowSpec → String
framework_of (some _) _ = "pytorch"
framework_of none (some _) = "tensorflow"
framework_of none none = ""

-- `(*TrainTask).GetFramework`.
unfoldable pub get_framework : TrainTask → String
get_framework t = framework_of t.spec.py_torch t.spec.tensor_flow
