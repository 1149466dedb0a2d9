-- ===== src/Api/EvalTask.antt =====
-- The EvalTask kind and its method (api/v1alpha1/evaltask_types.go).
use kai_operator.Base.{String, Bool, false, Option, none, some, List}
use kai_operator.Base.Text.{ℤ}
use kai_operator.Api.Meta.{ObjectMeta}
use kai_operator.Api.Task.{
  ResourceSpec, VolumeSpec, DataSourceSpec, BaseToolSpec, no_tool, TaskStatus,
}

pub record ModelEvalConfig : Type 0 where
  pub model : String
  pub model_path : String
  pub template : String
  pub batch_size : ℤ
  pub max_seq_len : ℤ

pub record OpenCompassSpec : Type 0 where
  pub tool : BaseToolSpec
  pub models : List ModelEvalConfig
  pub datasets : List String
  pub work_dir : String
  pub output_dir : String
  pub debug : Bool

-- `OpenCompassSpec{}`.
abbrev pub no_open_compass : OpenCompassSpec
no_open_compass = record {
  tool = no_tool;
  models = List.[];
  datasets = List.[];
  work_dir = "";
  output_dir = "";
  debug = false;
}

pub record LmEvalSpec : Type 0 where
  pub tool : BaseToolSpec
  pub model_path : String
  pub tasks : List String
  pub batch_size : ℤ
  pub num_few_shot : ℤ
  pub output_path : String

pub record EvalTaskSpec : Type 0 where
  pub resources : Option ResourceSpec
  pub volumes : List VolumeSpec
  pub data_sources : List DataSourceSpec
  pub run_after : List String
  pub ttl_seconds : Option ℤ
  pub open_compass : Option OpenCompassSpec
  pub lm_eval : Option LmEvalSpec

pub record EvalTask : Type 0 where
  pub meta : ObjectMeta
  pub spec : EvalTaskSpec
  pub status : TaskStatus

abbrev framework_of : Option OpenCompassSpec → Option LmEvalSpec → String
framework_of (some _) _ = "opencompass"
framework_of none (some _) = "lm-eval"
framework_of none none = ""

-- `(*EvalTask).GetFramework`.
unfoldable pub get_framework : EvalTask → String
get_framework t = framework_of t.spec.open_compass t.spec.lm_eval
