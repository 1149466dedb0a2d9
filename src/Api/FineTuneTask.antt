-- ===== src/Api/FineTuneTask.antt =====
-- The FineTuneTask kind and its method (api/v1alpha1/finetunetask_types.go).
use kai_operator.Base.{String, Option, none, some, List}
use kai_operator.Base.Text.{ℤ, pos}
use kai_operator.Api.Meta.{ObjectMeta}
use kai_operator.Api.Task.{
  ResourceSpec, VolumeSpec, DataSourceSpec, BaseToolSpec, no_tool, TaskStatus,
}

pub record LoraSpec : Type 0 where
  pub tool : BaseToolSpec
  pub model_path : String
  pub train_data : String
  pub valid_data : String
  pub output_dir : String
  pub lora_rank : ℤ
  pub lora_alpha : ℤ
  pub lora_dropout : String
  pub target_modules : List String
  pub batch_size : ℤ
  pub learning_rate : String
  pub epochs : ℤ
  pub cutoff_len : ℤ
  pub warmup_steps : ℤ
  pub save_steps : ℤ
  pub eval_steps : ℤ

pub record LlamaFactorySpec : Type 0 where
  pub tool : BaseToolSpec
  pub model_path : String
  pub stage : String
  pub train_data : String
  pub valid_data : String
  pub output_dir : String
  pub finetuning_type : String
  pub lora_rank : ℤ
  pub lora_alpha : ℤ
  pub lora_dropout : String
  pub target_modules : List String
  pub batch_size : ℤ
  pub learning_rate : String
  pub num_epochs : ℤ
  pub max_grad_norm : String
  pub warmup_ratio : String
  pub save_steps : ℤ
  pub eval_steps : ℤ

-- `LlamaFactorySpec{}`.
abbrev pub no_llama_factory : LlamaFactorySpec
no_llama_factory = record {
  tool = no_tool;
  model_path = "";
  stage = "";
  train_data = "";
  valid_data = "";
  output_dir = "";
  finetuning_type = "";
  lora_rank = pos 0;
  lora_alpha = pos 0;
  lora_dropout = "";
  target_modules = List.[];
  batch_size = pos 0;
  learning_rate = "";
  num_epochs = pos 0;
  max_grad_norm = "";
  warmup_ratio = "";
  save_steps = pos 0;
  eval_steps = pos 0;
}

pub record FineTuneTaskSpec : Type 0 where
  pub resources : Option ResourceSpec
  pub volumes : List VolumeSpec
  pub data_sources : List DataSourceSpec
  pub run_after : List String
  pub ttl_seconds : Option ℤ
  pub lora : Option LoraSpec
  pub llama_factory : Option LlamaFactorySpec

pub record FineTuneTask : Type 0 where
  pub meta : ObjectMeta
  pub spec : FineTuneTaskSpec
  pub status : TaskStatus

abbrev framework_of : Option LoraSpec → Option LlamaFactorySpec → String
framework_of (some _) _ = "lora"
framework_of none (some _) = "llamafactory"
framework_of none none = ""

-- `(*FineTuneTask).GetFramework`.
unfoldable pub get_framework : FineTuneTask → String
get_framework t = framework_of t.spec.lora t.spec.llama_factory
