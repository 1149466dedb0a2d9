-- ===== src/Memory/Train/Deep.antt =====
-- The copies of the TrainTask types are deep
-- (api/v1alpha1/zz_generated.deepcopy.go).
use kai_operator.Api.Task as ValueTask
use kai_operator.Api.TrainTask as ValueTrainTask
use kai_operator.Base.{refl, String, Option, List}
use kai_operator.Base.Labels.{Labels}
use kai_operator.Base.Text.{ℤ}
use kai_operator.Api.Meta.{ObjectMeta}
use kai_operator.Api.Task.{
  TaskPhase, EnvVar, VolumeMount, ResourceSpec, VolumeSpec, DataSourceSpec, HealthCheckSpec,
  AutoScalingSpec, Condition,
}
use kai_operator.Memory.{Ref, Copier, pointer, slice, each, flat, both, Layout, struct, Library}
use kai_operator.Memory.Rules.{
  IsDeep, LibraryIsDeep, struct-IsDeep, flat-IsDeep, pointer-IsDeep, both-IsDeep, each-IsDeep,
  slice-IsDeep,
}
use kai_operator.Memory.Train.{
  PyTorchSpec, py_torch_spec_deep_copy_into, TensorFlowSpec, tensor_flow_spec_deep_copy_into,
  TrainTaskSpec, train_task_spec_deep_copy_into, TrainTask, train_task_deep_copy_into,
  TrainTaskList, train_task_list_deep_copy_into,
}
use kai_operator.Memory.Shared.{BaseToolSpec, TaskStatus}
use kai_operator.Memory.Shared.Deep.{
  base_tool_spec, base_tool_spec-IsDeep, task_status, task_status-IsDeep,
}

abbrev py_torch_spec_layout :
    Layout PyTorchSpec
      (BaseToolSpec × Option (Ref Labels))
      ValueTrainTask.PyTorchSpec
      (ValueTask.BaseToolSpec × Labels)
py_torch_spec_layout = record {
  parts = both base_tool_spec (slice flat);
  fields = λ x. (x.tool, x.hyperparameters);
  put = λ x f. record x { tool = f.0; hyperparameters = f.1 };
  build = λ x v. record {
    tool = v.0;
    script_path = x.script_path;
    hyperparameters = v.1;
    checkpoint_dir = x.checkpoint_dir;
    output_dir = x.output_dir;
    max_epochs = x.max_epochs;
    batch_size = x.batch_size;
    learning_rate = x.learning_rate;
    gradient_accum_step = x.gradient_accum_step;
    warmup_steps = x.warmup_steps;
    save_interval = x.save_interval;
    eval_interval = x.eval_interval;
    world_size = x.world_size;
    nproc_per_node = x.nproc_per_node;
    distributed_backend = x.distributed_backend;
  };
}

abbrev pub py_torch_spec : Copier PyTorchSpec ValueTrainTask.PyTorchSpec
py_torch_spec = record (struct py_torch_spec_layout) { copy = py_torch_spec_deep_copy_into }

pub py_torch_spec-IsDeep : IsDeep py_torch_spec
unfolding py_torch_spec_deep_copy_into
py_torch_spec-IsDeep =
    struct-IsDeep py_torch_spec_layout (λ a t. refl) (λ a t x. refl)
      (both-IsDeep base_tool_spec-IsDeep (slice-IsDeep flat-IsDeep))

abbrev tensor_flow_spec_layout :
    Layout TensorFlowSpec
      (BaseToolSpec × Option (Ref Labels))
      ValueTrainTask.TensorFlowSpec
      (ValueTask.BaseToolSpec × Labels)
tensor_flow_spec_layout = record {
  parts = both base_tool_spec (slice flat);
  fields = λ x. (x.tool, x.hyperparameters);
  put = λ x f. record x { tool = f.0; hyperparameters = f.1 };
  build = λ x v. record {
    tool = v.0;
    script_path = x.script_path;
    hyperparameters = v.1;
    checkpoint_dir = x.checkpoint_dir;
    output_dir = x.output_dir;
    max_steps = x.max_steps;
    batch_size = x.batch_size;
    learning_rate = x.learning_rate;
    save_interval = x.save_interval;
    eval_interval = x.eval_interval;
    distribution_strategy = x.distribution_strategy;
  };
}

abbrev pub tensor_flow_spec : Copier TensorFlowSpec ValueTrainTask.TensorFlowSpec
tensor_flow_spec = record (struct tensor_flow_spec_layout) {
  copy = tensor_flow_spec_deep_copy_into;
}

pub tensor_flow_spec-IsDeep : IsDeep tensor_flow_spec
unfolding tensor_flow_spec_deep_copy_into
tensor_flow_spec-IsDeep =
    struct-IsDeep tensor_flow_spec_layout (λ a t. refl) (λ a t x. refl)
      (both-IsDeep base_tool_spec-IsDeep (slice-IsDeep flat-IsDeep))

abbrev train_task_spec_layout :
    Layout TrainTaskSpec
      (Option (Ref ResourceSpec)
        × (Option (Ref (List VolumeSpec))
            × (Option (Ref (List DataSourceSpec))
                × (Option (Ref (List String))
                    × (Option (Ref ℤ)
                        × (Option (Ref PyTorchSpec) × Option (Ref TensorFlowSpec)))))))
      ValueTrainTask.TrainTaskSpec
      (Option ResourceSpec
        × (List VolumeSpec
            × (List DataSourceSpec
                × (List String
                    × (Option ℤ
                        × (Option ValueTrainTask.PyTorchSpec
                            × Option ValueTrainTask.TensorFlowSpec))))))
train_task_spec_layout = record {
  parts = both (pointer flat) (
      both (slice flat) (
        both (slice flat) (
          both (slice flat)
            (both (pointer flat) (both (pointer py_torch_spec) (pointer tensor_flow_spec))))));
  fields = λ x. (
    x.resources,
    (x.volumes, (x.data_sources, (x.run_after, (x.ttl_seconds, (x.py_torch, x.tensor_flow))))),
  );
  put = λ x f. record x {
    resources = f.0;
    volumes = f.1.0;
    data_sources = f.1.1.0;
    run_after = f.1.1.1.0;
    ttl_seconds = f.1.1.1.1.0;
    py_torch = f.1.1.1.1.1.0;
    tensor_flow = f.1.1.1.1.1.1;
  };
  build = λ x v. record {
    resources = v.0;
    volumes = v.1.0;
    data_sources = v.1.1.0;
    run_after = v.1.1.1.0;
    ttl_seconds = v.1.1.1.1.0;
    py_torch = v.1.1.1.1.1.0;
    tensor_flow = v.1.1.1.1.1.1;
  };
}

abbrev pub train_task_spec : Copier TrainTaskSpec ValueTrainTask.TrainTaskSpec
train_task_spec = record (struct train_task_spec_layout) { copy = train_task_spec_deep_copy_into }

pub train_task_spec-IsDeep : IsDeep train_task_spec
unfolding train_task_spec_deep_copy_into
train_task_spec-IsDeep =
    struct-IsDeep train_task_spec_layout (λ a t. refl) (λ a t x. refl)
      (both-IsDeep (pointer-IsDeep flat-IsDeep) (
        both-IsDeep (slice-IsDeep flat-IsDeep) (
          both-IsDeep (slice-IsDeep flat-IsDeep) (
            both-IsDeep (slice-IsDeep flat-IsDeep) (
              both-IsDeep (pointer-IsDeep flat-IsDeep) (
                both-IsDeep (pointer-IsDeep py_torch_spec-IsDeep)
                  (pointer-IsDeep tensor_flow_spec-IsDeep)))))))

module _ {M L T : Type 0} (l : Library M L T) where
  abbrev train_task_layout :
      Layout
        (TrainTask M T)
        (M × (TrainTaskSpec × TaskStatus T))
        ValueTrainTask.TrainTask
        (ObjectMeta × (ValueTrainTask.TrainTaskSpec × ValueTask.TaskStatus))
  train_task_layout = record {
    parts = both l.object_meta (both train_task_spec (task_status l));
    fields = λ x. (x.meta, (x.spec, x.status));
    put = λ x f. record x { meta = f.0; spec = f.1.0; status = f.1.1 };
    build = λ x v. record { meta = v.0; spec = v.1.0; status = v.1.1 };
  }

  abbrev pub train_task : Copier (TrainTask M T) ValueTrainTask.TrainTask
  train_task = record (struct train_task_layout) { copy = train_task_deep_copy_into l }

  pub train_task-IsDeep : (h : LibraryIsDeep l) → IsDeep train_task
  unfolding train_task_deep_copy_into
  train_task-IsDeep h =
      struct-IsDeep train_task_layout (λ a t. refl) (λ a t x. refl)
        (both-IsDeep h.object_meta (both-IsDeep train_task_spec-IsDeep (task_status-IsDeep l h)))

  abbrev train_task_list_layout :
      Layout
        (TrainTaskList M L T)
        (L × Option (Ref (List (TrainTask M T))))
        (List ValueTrainTask.TrainTask)
        (Unit {0} × List ValueTrainTask.TrainTask)
  train_task_list_layout = record {
    parts = both l.list_meta (slice (each (train_task)));
    fields = λ x. (x.meta, x.items);
    put = λ x f. record x { meta = f.0; items = f.1 };
    build = λ x v. v.1;
  }

  abbrev pub train_task_list : Copier (TrainTaskList M L T) (List ValueTrainTask.TrainTask)
  train_task_list = record (struct train_task_list_layout) {
    copy = train_task_list_deep_copy_into l;
  }

  pub train_task_list-IsDeep : (h : LibraryIsDeep l) → IsDeep train_task_list
  unfolding train_task_list_deep_copy_into
  train_task_list-IsDeep h =
      struct-IsDeep train_task_list_layout (λ a t. refl) (λ a t x. refl)
        (both-IsDeep h.list_meta (slice-IsDeep (each-IsDeep (train_task-IsDeep h))))
