-- ===== src/Memory/FineTune/Deep.antt =====
-- The copies of the FineTuneTask types are deep
-- (api/v1alpha1/zz_generated.deepcopy.go).
use kai_operator.Api.Task as ValueTask
use kai_operator.Api.FineTuneTask as ValueFineTuneTask
use kai_operator.Base.{refl, String, Option, List}
use kai_operator.Base.Text.{ℤ}
use kai_operator.Api.Meta.{ObjectMeta}
use kai_operator.Api.Task.{
  TaskPhase, EnvVar, VolumeMount, ResourceSpec, VolumeSpec, DataSourceSpec, HealthCheckSpec,
  AutoScalingSpec, Condition,
}
use kai_operator.Memory.{Ref, Copier, pointer, slice, each, flat, both, Layout, struct, Library}
use kai_operator.Memory.Rules.{
  IsDeep, LibraryIsDeep, struct-IsDeep, flat-IsDeep, pointer-IsDeep, both-IsDeep, each-IsDeep,
  slice-IsDeep,
}
use kai_operator.Memory.FineTune.{
  LoraSpec, lora_spec_deep_copy_into, LlamaFactorySpec, llama_factory_spec_deep_copy_into,
  FineTuneTaskSpec, fine_tune_task_spec_deep_copy_into, FineTuneTask, fine_tune_task_deep_copy_into,
  FineTuneTaskList, fine_tune_task_list_deep_copy_into,
}
use kai_operator.Memory.Shared.{BaseToolSpec, TaskStatus}
use kai_operator.Memory.Shared.Deep.{
  base_tool_spec, base_tool_spec-IsDeep, task_status, task_status-IsDeep,
}

abbrev lora_spec_layout :
    Layout LoraSpec
      (BaseToolSpec × Option (Ref (List String)))
      ValueFineTuneTask.LoraSpec
      (ValueTask.BaseToolSpec × List String)
lora_spec_layout = record {
  parts = both base_tool_spec (slice flat);
  fields = λ x. (x.tool, x.target_modules);
  put = λ x f. record x { tool = f.0; target_modules = f.1 };
  build = λ x v. record {
    tool = v.0;
    model_path = x.model_path;
    train_data = x.train_data;
    valid_data = x.valid_data;
    output_dir = x.output_dir;
    lora_rank = x.lora_rank;
    lora_alpha = x.lora_alpha;
    lora_dropout = x.lora_dropout;
    target_modules = v.1;
    batch_size = x.batch_size;
    learning_rate = x.learning_rate;
    epochs = x.epochs;
    cutoff_len = x.cutoff_len;
    warmup_steps = x.warmup_steps;
    save_steps = x.save_steps;
    eval_steps = x.eval_steps;
  };
}

abbrev pub lora_spec : Copier LoraSpec ValueFineTuneTask.LoraSpec
lora_spec = record (struct lora_spec_layout) { copy = lora_spec_deep_copy_into }

pub lora_spec-IsDeep : IsDeep lora_spec
unfolding lora_spec_deep_copy_into
lora_spec-IsDeep =
    struct-IsDeep lora_spec_layout (λ a t. refl) (λ a t x. refl)
      (both-IsDeep base_tool_spec-IsDeep (slice-IsDeep flat-IsDeep))

abbrev llama_factory_spec_layout :
    Layout LlamaFactorySpec
      (BaseToolSpec × Option (Ref (List String)))
      ValueFineTuneTask.LlamaFactorySpec
      (ValueTask.BaseToolSpec × List String)
llama_factory_spec_layout = record {
  parts = both base_tool_spec (slice flat);
  fields = λ x. (x.tool, x.target_modules);
  put = λ x f. record x { tool = f.0; target_modules = f.1 };
  build = λ x v. record {
    tool = v.0;
    model_path = x.model_path;
    stage = x.stage;
    train_data = x.train_data;
    valid_data = x.valid_data;
    output_dir = x.output_dir;
    finetuning_type = x.finetuning_type;
    lora_rank = x.lora_rank;
    lora_alpha = x.lora_alpha;
    lora_dropout = x.lora_dropout;
    target_modules = v.1;
    batch_size = x.batch_size;
    learning_rate = x.learning_rate;
    num_epochs = x.num_epochs;
    max_grad_norm = x.max_grad_norm;
    warmup_ratio = x.warmup_ratio;
    save_steps = x.save_steps;
    eval_steps = x.eval_steps;
  };
}

abbrev pub llama_factory_spec : Copier LlamaFactorySpec ValueFineTuneTask.LlamaFactorySpec
llama_factory_spec = record (struct llama_factory_spec_layout) {
  copy = llama_factory_spec_deep_copy_into;
}

pub llama_factory_spec-IsDeep : IsDeep llama_factory_spec
unfolding llama_factory_spec_deep_copy_into
llama_factory_spec-IsDeep =
    struct-IsDeep llama_factory_spec_layout (λ a t. refl) (λ a t x. refl)
      (both-IsDeep base_tool_spec-IsDeep (slice-IsDeep flat-IsDeep))

abbrev fine_tune_task_spec_layout :
    Layout FineTuneTaskSpec
      (Option (Ref ResourceSpec)
        × (Option (Ref (List VolumeSpec))
            × (Option (Ref (List DataSourceSpec))
                × (Option (Ref (List String))
                    × (Option (Ref ℤ) × (Option (Ref LoraSpec) × Option (Ref LlamaFactorySpec)))))))
      ValueFineTuneTask.FineTuneTaskSpec
      (Option ResourceSpec
        × (List VolumeSpec
            × (List DataSourceSpec
                × (List String
                    × (Option ℤ
                        × (Option ValueFineTuneTask.LoraSpec
                            × Option ValueFineTuneTask.LlamaFactorySpec))))))
fine_tune_task_spec_layout = record {
  parts = both (pointer flat) (
      both (slice flat) (
        both (slice flat) (
          both (slice flat)
            (both (pointer flat) (both (pointer lora_spec) (pointer llama_factory_spec))))));
  fields = λ x. (
    x.resources,
    (x.volumes, (x.data_sources, (x.run_after, (x.ttl_seconds, (x.lora, x.llama_factory))))),
  );
  put = λ x f. record x {
    resources = f.0;
    volumes = f.1.0;
    data_sources = f.1.1.0;
    run_after = f.1.1.1.0;
    ttl_seconds = f.1.1.1.1.0;
    lora = f.1.1.1.1.1.0;
    llama_factory = f.1.1.1.1.1.1;
  };
  build = λ x v. record {
    resources = v.0;
    volumes = v.1.0;
    data_sources = v.1.1.0;
    run_after = v.1.1.1.0;
    ttl_seconds = v.1.1.1.1.0;
    lora = v.1.1.1.1.1.0;
    llama_factory = v.1.1.1.1.1.1;
  };
}

abbrev pub fine_tune_task_spec : Copier FineTuneTaskSpec ValueFineTuneTask.FineTuneTaskSpec
fine_tune_task_spec = record (struct fine_tune_task_spec_layout) {
  copy = fine_tune_task_spec_deep_copy_into;
}

pub fine_tune_task_spec-IsDeep : IsDeep fine_tune_task_spec
unfolding fine_tune_task_spec_deep_copy_into
fine_tune_task_spec-IsDeep =
    struct-IsDeep fine_tune_task_spec_layout (λ a t. refl) (λ a t x. refl)
      (both-IsDeep (pointer-IsDeep flat-IsDeep) (
        both-IsDeep (slice-IsDeep flat-IsDeep) (
          both-IsDeep (slice-IsDeep flat-IsDeep) (
            both-IsDeep (slice-IsDeep flat-IsDeep) (
              both-IsDeep (pointer-IsDeep flat-IsDeep) (
                both-IsDeep (pointer-IsDeep lora_spec-IsDeep)
                  (pointer-IsDeep llama_factory_spec-IsDeep)))))))

module _ {M L T : Type 0} (l : Library M L T) where
  abbrev fine_tune_task_layout :
      Layout
        (FineTuneTask M T)
        (M × (FineTuneTaskSpec × TaskStatus T))
        ValueFineTuneTask.FineTuneTask
        (ObjectMeta × (ValueFineTuneTask.FineTuneTaskSpec × ValueTask.TaskStatus))
  fine_tune_task_layout = record {
    parts = both l.object_meta (both fine_tune_task_spec (task_status l));
    fields = λ x. (x.meta, (x.spec, x.status));
    put = λ x f. record x { meta = f.0; spec = f.1.0; status = f.1.1 };
    build = λ x v. record { meta = v.0; spec = v.1.0; status = v.1.1 };
  }

  abbrev pub fine_tune_task : Copier (FineTuneTask M T) ValueFineTuneTask.FineTuneTask
  fine_tune_task = record (struct fine_tune_task_layout) { copy = fine_tune_task_deep_copy_into l }

  pub fine_tune_task-IsDeep : (h : LibraryIsDeep l) → IsDeep fine_tune_task
  unfolding fine_tune_task_deep_copy_into
  fine_tune_task-IsDeep h =
      struct-IsDeep fine_tune_task_layout (λ a t. refl) (λ a t x. refl)
        (both-IsDeep h.object_meta
          (both-IsDeep fine_tune_task_spec-IsDeep (task_status-IsDeep l h)))

  abbrev fine_tune_task_list_layout :
      Layout
        (FineTuneTaskList M L T)
        (L × Option (Ref (List (FineTuneTask M T))))
        (List ValueFineTuneTask.FineTuneTask)
        (Unit {0} × List ValueFineTuneTask.FineTuneTask)
  fine_tune_task_list_layout = record {
    parts = both l.list_meta (slice (each (fine_tune_task)));
    fields = λ x. (x.meta, x.items);
    put = λ x f. record x { meta = f.0; items = f.1 };
    build = λ x v. v.1;
  }

  abbrev pub fine_tune_task_list :
      Copier (FineTuneTaskList M L T) (List ValueFineTuneTask.FineTuneTask)
  fine_tune_task_list = record (struct fine_tune_task_list_layout) {
    copy = fine_tune_task_list_deep_copy_into l;
  }

  pub fine_tune_task_list-IsDeep : (h : LibraryIsDeep l) → IsDeep fine_tune_task_list
  unfolding fine_tune_task_list_deep_copy_into
  fine_tune_task_list-IsDeep h =
      struct-IsDeep fine_tune_task_list_layout (λ a t. refl) (λ a t x. refl)
        (both-IsDeep h.list_meta (slice-IsDeep (each-IsDeep (fine_tune_task-IsDeep h))))
