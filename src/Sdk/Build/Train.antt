-- ===== src/Sdk/Build/Train.antt =====
-- The builder of a TrainTask (sdk/traintask_builder.go).
use kai_operator.Base.{String, none, some, List, [], ◌∷◌, ◌++◌}
use kai_operator.Base.Labels.{Labels}
use kai_operator.Base.Text.{ℤ, pos}
use kai_operator.Api.Meta.{new_meta}
use kai_operator.Api.Task.{no_status}
use kai_operator.Api.TrainTask.{PyTorchSpec, TensorFlowSpec, TrainTask}
use kai_operator.Sdk.Build.{apply, if_set, tool_with, resources_of, volume_of, add_env, add_labels}

unfoldable pub new_train_task : String → String → TrainTask
new_train_task name namespace = record {
  meta = new_meta name namespace [];
  spec = record {
    resources = none;
    volumes = [];
    data_sources = [];
    run_after = [];
    ttl_seconds = none;
    py_torch = none;
    tensor_flow = none;
  };
  status = no_status;
}

unfoldable pub with_py_torch : String → List (PyTorchSpec → PyTorchSpec) → TrainTask → TrainTask
with_py_torch script opts t =
    let spec : PyTorchSpec = record {
      tool = tool_with "pytorch/pytorch:latest" (pos 0);
      script_path = script;
      hyperparameters = [];
      checkpoint_dir = "";
      output_dir = "";
      max_epochs = pos 0;
      batch_size = pos 0;
      learning_rate = "";
      gradient_accum_step = pos 0;
      warmup_steps = pos 0;
      save_interval = pos 0;
      eval_interval = pos 0;
      world_size = pos 0;
      nproc_per_node = pos 0;
      distributed_backend = "";
    } in
    record t { spec = record t.spec { py_torch = some (apply opts spec) } }

unfoldable pub with_tensor_flow :
    String → List (TensorFlowSpec → TensorFlowSpec) → TrainTask → TrainTask
with_tensor_flow script opts t =
    let spec : TensorFlowSpec = record {
      tool = tool_with "tensorflow/tensorflow:latest" (pos 0);
      script_path = script;
      hyperparameters = [];
      checkpoint_dir = "";
      output_dir = "";
      max_steps = pos 0;
      batch_size = pos 0;
      learning_rate = "";
      save_interval = pos 0;
      eval_interval = pos 0;
      distribution_strategy = "";
    } in
    record t { spec = record t.spec { tensor_flow = some (apply opts spec) } }

unfoldable pub with_resources : String → String → String → TrainTask → TrainTask
with_resources cpu memory gpu t = record t {
  spec = record t.spec { resources = some (resources_of cpu memory gpu) };
}

unfoldable pub with_volume : String → String → String → TrainTask → TrainTask
unfolding volume_of
with_volume name capacity mount_path t = record t {
  spec = record t.spec { volumes = t.spec.volumes ++ (volume_of name capacity mount_path ∷ []) };
}

-- A change of the two sections, of those that are set.
abbrev on_sections :
    (PyTorchSpec → PyTorchSpec) → (TensorFlowSpec → TensorFlowSpec) → TrainTask → TrainTask
on_sections f g t = record t {
  spec = record t.spec {
    py_torch = if_set f t.spec.py_torch;
    tensor_flow = if_set g t.spec.tensor_flow;
  };
}

unfoldable pub with_env : String → String → TrainTask → TrainTask
with_env name value =
    on_sections (λ s. record s { tool = add_env name value s.tool })
      (λ s. record s { tool = add_env name value s.tool })

unfoldable pub with_labels : Labels → TrainTask → TrainTask
unfolding add_labels
with_labels labels t = record t { meta = add_labels labels t.meta }

unfoldable pub with_ttl : ℤ → TrainTask → TrainTask
with_ttl seconds t = record t { spec = record t.spec { ttl_seconds = some seconds } }

unfoldable pub with_hyperparameters : Labels → TrainTask → TrainTask
with_hyperparameters params =
    on_sections (λ s. record s { hyperparameters = params })
      (λ s. record s { hyperparameters = params })

unfoldable pub with_batch_size : ℤ → TrainTask → TrainTask
with_batch_size n =
    on_sections (λ s. record s { batch_size = n }) (λ s. record s { batch_size = n })

unfoldable pub with_learning_rate : String → TrainTask → TrainTask
with_learning_rate rate =
    on_sections (λ s. record s { learning_rate = rate }) (λ s. record s { learning_rate = rate })

unfoldable pub with_max_epochs : ℤ → TrainTask → TrainTask
with_max_epochs n = on_sections (λ s. record s { max_epochs = n }) (λ s. s)

unfoldable pub with_max_steps : ℤ → TrainTask → TrainTask
with_max_steps n = on_sections (λ s. s) (λ s. record s { max_steps = n })

unfoldable pub with_world_size : ℤ → TrainTask → TrainTask
with_world_size n = on_sections (λ s. record s { world_size = n; nproc_per_node = n }) (λ s. s)
