-- ===== src/Sdk/Build/FineTune.antt =====
-- The builder of a FineTuneTask (sdk/finetunetask_builder.go).
use kai_operator.Base.{String, none, some, List, [], ◌∷◌, ◌++◌}
use kai_operator.Base.Labels.{Labels}
use kai_operator.Base.Text.{ℤ, pos}
use kai_operator.Api.Meta.{new_meta}
use kai_operator.Api.Task.{no_status}
use kai_operator.Api.FineTuneTask.{LoraSpec, LlamaFactorySpec, no_llama_factory, FineTuneTask}
use kai_operator.Sdk.Build.{apply, if_set, tool_with, resources_of, volume_of, add_labels}

unfoldable pub new_fine_tune_task : String → String → FineTuneTask
new_fine_tune_task name namespace = record {
  meta = new_meta name namespace [];
  spec = record {
    resources = none;
    volumes = [];
    data_sources = [];
    run_after = [];
    ttl_seconds = none;
    lora = none;
    llama_factory = none;
  };
  status = no_status;
}

unfoldable pub with_lora : String → List (LoraSpec → LoraSpec) → FineTuneTask → FineTuneTask
with_lora model_path opts t =
    let spec : LoraSpec = record {
      tool = tool_with "ghcr.io/huggingface/peft:latest" (pos 0);
      model_path = model_path;
      train_data = "";
      valid_data = "";
      output_dir = "";
      lora_rank = pos 8;
      lora_alpha = pos 0;
      lora_dropout = "";
      target_modules = [];
      batch_size = pos 0;
      learning_rate = "";
      epochs = pos 0;
      cutoff_len = pos 0;
      warmup_steps = pos 0;
      save_steps = pos 0;
      eval_steps = pos 0;
    } in
    record t { spec = record t.spec { lora = some (apply opts spec) } }

unfoldable pub with_llama_factory :
    String → List (LlamaFactorySpec → LlamaFactorySpec) → FineTuneTask → FineTuneTask
with_llama_factory model_path opts t =
    let spec : LlamaFactorySpec = record no_llama_factory {
      tool = tool_with "hiyouga/llamafactory:latest" (pos 0);
      model_path = model_path;
      finetuning_type = "lora";
    } in
    record t { spec = record t.spec { llama_factory = some (apply opts spec) } }

unfoldable pub with_resources : String → String → String → FineTuneTask → FineTuneTask
with_resources cpu memory gpu t = record t {
  spec = record t.spec { resources = some (resources_of cpu memory gpu) };
}

unfoldable pub with_volume : String → String → String → FineTuneTask → FineTuneTask
unfolding volume_of
with_volume name capacity mount_path t = record t {
  spec = record t.spec { volumes = t.spec.volumes ++ (volume_of name capacity mount_path ∷ []) };
}

-- A change of the two sections, of those that are set.
abbrev on_sections :
    (LoraSpec → LoraSpec) → (LlamaFactorySpec → LlamaFactorySpec) → FineTuneTask → FineTuneTask
on_sections f g t = record t {
  spec = record t.spec {
    lora = if_set f t.spec.lora;
    llama_factory = if_set g t.spec.llama_factory;
  };
}

unfoldable pub with_train_data : String → FineTuneTask → FineTuneTask
with_train_data text =
    on_sections (λ s. record s { train_data = text }) (λ s. record s { train_data = text })

unfoldable pub with_valid_data : String → FineTuneTask → FineTuneTask
with_valid_data text =
    on_sections (λ s. record s { valid_data = text }) (λ s. record s { valid_data = text })

unfoldable pub with_output_dir : String → FineTuneTask → FineTuneTask
with_output_dir dir =
    on_sections (λ s. record s { output_dir = dir }) (λ s. record s { output_dir = dir })

unfoldable pub with_epochs : ℤ → FineTuneTask → FineTuneTask
with_epochs n = on_sections (λ s. record s { epochs = n }) (λ s. record s { num_epochs = n })

unfoldable pub with_batch_size : ℤ → FineTuneTask → FineTuneTask
with_batch_size n =
    on_sections (λ s. record s { batch_size = n }) (λ s. record s { batch_size = n })

unfoldable pub with_learning_rate : String → FineTuneTask → FineTuneTask
with_learning_rate rate =
    on_sections (λ s. record s { learning_rate = rate }) (λ s. record s { learning_rate = rate })

unfoldable pub with_labels : Labels → FineTuneTask → FineTuneTask
unfolding add_labels
with_labels labels t = record t { meta = add_labels labels t.meta }

unfoldable pub with_ttl : ℤ → FineTuneTask → FineTuneTask
with_ttl seconds t = record t { spec = record t.spec { ttl_seconds = some seconds } }
