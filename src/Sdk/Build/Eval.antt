-- ===== src/Sdk/Build/Eval.antt =====
-- The builder of an EvalTask (sdk/evaltask_builder.go).
use kai_operator.Base.{String, none, some, List, [], ◌∷◌, ◌++◌}
use kai_operator.Base.Labels.{Labels}
use kai_operator.Base.Text.{ℤ, pos}
use kai_operator.Api.Meta.{new_meta}
use kai_operator.Api.Task.{no_status}
use kai_operator.Api.EvalTask.{
  ModelEvalConfig, OpenCompassSpec, no_open_compass, LmEvalSpec, EvalTask,
}
use kai_operator.Sdk.Build.{apply, if_set, tool_with, resources_of, volume_of, add_labels}

unfoldable pub new_eval_task : String → String → EvalTask
new_eval_task name namespace = record {
  meta = new_meta name namespace [];
  spec = record {
    resources = none;
    volumes = [];
    data_sources = [];
    run_after = [];
    ttl_seconds = none;
    open_compass = none;
    lm_eval = none;
  };
  status = no_status;
}

unfoldable pub with_open_compass : List (OpenCompassSpec → OpenCompassSpec) → EvalTask → EvalTask
with_open_compass opts t =
    let spec : OpenCompassSpec = record no_open_compass {
      tool = tool_with "opencompass/opencompass:latest" (pos 0);
    } in
    record t { spec = record t.spec { open_compass = some (apply opts spec) } }

unfoldable pub with_lm_eval : List (LmEvalSpec → LmEvalSpec) → EvalTask → EvalTask
with_lm_eval opts t =
    let spec : LmEvalSpec = record {
      tool = tool_with "ghcr.io/EleutherAI/lm-evaluation-harness:latest" (pos 0);
      model_path = "";
      tasks = [];
      batch_size = pos 0;
      num_few_shot = pos 0;
      output_path = "";
    } in
    record t { spec = record t.spec { lm_eval = some (apply opts spec) } }

abbrev model_of : String → String → ModelEvalConfig
model_of model path = record {
  model = model;
  model_path = path;
  template = "";
  batch_size = pos 0;
  max_seq_len = pos 0;
}

unfoldable pub with_model : String → String → EvalTask → EvalTask
with_model model path t = record t {
  spec = record t.spec {
    open_compass =
        if_set
          (λ (s : OpenCompassSpec). record s { models = s.models ++ (model_of model path ∷ []) })
          t.spec.open_compass;
    lm_eval = if_set (λ (s : LmEvalSpec). record s { model_path = path }) t.spec.lm_eval;
  };
}

unfoldable pub with_datasets : List String → EvalTask → EvalTask
with_datasets datasets t = record t {
  spec = record t.spec {
    open_compass =
        if_set (λ (s : OpenCompassSpec). record s { datasets = datasets }) t.spec.open_compass;
    lm_eval = if_set (λ (s : LmEvalSpec). record s { tasks = datasets }) t.spec.lm_eval;
  };
}

unfoldable pub with_resources : String → String → String → EvalTask → EvalTask
with_resources cpu memory gpu t = record t {
  spec = record t.spec { resources = some (resources_of cpu memory gpu) };
}

unfoldable pub with_volume : String → String → String → EvalTask → EvalTask
unfolding volume_of
with_volume name capacity mount_path t = record t {
  spec = record t.spec { volumes = t.spec.volumes ++ (volume_of name capacity mount_path ∷ []) };
}

unfoldable pub with_labels : Labels → EvalTask → EvalTask
unfolding add_labels
with_labels labels t = record t { meta = add_labels labels t.meta }

unfoldable pub with_ttl : ℤ → EvalTask → EvalTask
with_ttl seconds t = record t { spec = record t.spec { ttl_seconds = some seconds } }
