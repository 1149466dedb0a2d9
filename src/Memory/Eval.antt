-- ===== src/Memory/Eval.antt =====
-- The EvalTask types of api/v1alpha1/evaltask_types.go in memory, and their deep copies
-- (api/v1alpha1/zz_generated.deepcopy.go).
pub mod Deep
use kai_operator.Base.{String, Bool, Option, none, some, List}
use kai_operator.Base.Labels.{Labels}
use kai_operator.Base.Text.{ℤ}
use kai_operator.Api.Task.{
  TaskPhase, EnvVar, VolumeMount, ResourceSpec, VolumeSpec, DataSourceSpec, HealthCheckSpec,
  AutoScalingSpec, Condition,
}
use kai_operator.Api.EvalTask.{ModelEvalConfig}
use kai_operator.Memory.{Ref, Alloc, pure, ◌>>=◌, copy_ref, copy_or_nil, copy_each, Library}
use kai_operator.Memory.Shared.{
  BaseToolSpec, base_tool_spec_deep_copy_into, TaskStatus, task_status_deep_copy_into,
}

pub record OpenCompassSpec : Type 0 where
  pub tool : BaseToolSpec
  pub models : Option (Ref (List ModelEvalConfig))
  pub datasets : Option (Ref (List String))
  pub work_dir : String
  pub output_dir : String
  pub debug : Bool

pub record LmEvalSpec : Type 0 where
  pub tool : BaseToolSpec
  pub model_path : String
  pub tasks : Option (Ref (List String))
  pub batch_size : ℤ
  pub num_few_shot : ℤ
  pub output_path : String

pub record EvalTaskSpec : Type 0 where
  pub resources : Option (Ref ResourceSpec)
  pub volumes : Option (Ref (List VolumeSpec))
  pub data_sources : Option (Ref (List DataSourceSpec))
  pub run_after : Option (Ref (List String))
  pub ttl_seconds : Option (Ref ℤ)
  pub open_compass : Option (Ref OpenCompassSpec)
  pub lm_eval : Option (Ref LmEvalSpec)

pub record EvalTask (M T : Type 0) : Type 0 where
  pub meta : M
  pub spec : EvalTaskSpec
  pub status : TaskStatus T

pub record EvalTaskList (M L T : Type 0) : Type 0 where
  pub meta : L
  pub items : Option (Ref (List (EvalTask M T)))

unfoldable pub open_compass_spec_deep_copy_into : OpenCompassSpec → Alloc OpenCompassSpec
unfolding base_tool_spec_deep_copy_into
open_compass_spec_deep_copy_into x = do
  tool ← base_tool_spec_deep_copy_into x.tool
  models ← copy_ref pure x.models
  datasets ← copy_ref pure x.datasets
  pure (record x { tool = tool; models = models; datasets = datasets })

unfoldable pub open_compass_spec_deep_copy :
    Option (Ref OpenCompassSpec) → Alloc (Option (Ref OpenCompassSpec))
unfolding open_compass_spec_deep_copy_into
open_compass_spec_deep_copy x = copy_ref open_compass_spec_deep_copy_into x

unfoldable pub lm_eval_spec_deep_copy_into : LmEvalSpec → Alloc LmEvalSpec
unfolding base_tool_spec_deep_copy_into
lm_eval_spec_deep_copy_into x = do
  tool ← base_tool_spec_deep_copy_into x.tool
  tasks ← copy_ref pure x.tasks
  pure (record x { tool = tool; tasks = tasks })

unfoldable pub lm_eval_spec_deep_copy : Option (Ref LmEvalSpec) → Alloc (Option (Ref LmEvalSpec))
unfolding lm_eval_spec_deep_copy_into
lm_eval_spec_deep_copy x = copy_ref lm_eval_spec_deep_copy_into x

unfoldable pub eval_task_spec_deep_copy_into : EvalTaskSpec → Alloc EvalTaskSpec
unfolding open_compass_spec_deep_copy_into lm_eval_spec_deep_copy_into
eval_task_spec_deep_copy_into x = do
  resources ← copy_ref pure x.resources
  volumes ← copy_ref pure x.volumes
  data_sources ← copy_ref pure x.data_sources
  run_after ← copy_ref pure x.run_after
  ttl_seconds ← copy_ref pure x.ttl_seconds
  open_compass ← copy_ref open_compass_spec_deep_copy_into x.open_compass
  lm_eval ← copy_ref lm_eval_spec_deep_copy_into x.lm_eval
  pure (record x {
    resources = resources;
    volumes = volumes;
    data_sources = data_sources;
    run_after = run_after;
    ttl_seconds = ttl_seconds;
    open_compass = open_compass;
    lm_eval = lm_eval;
  })

unfoldable pub eval_task_spec_deep_copy :
    Option (Ref EvalTaskSpec) → Alloc (Option (Ref EvalTaskSpec))
unfolding eval_task_spec_deep_copy_into
eval_task_spec_deep_copy x = copy_ref eval_task_spec_deep_copy_into x

module _ {M L T : Type 0} (l : Library M L T) where
  unfoldable pub eval_task_deep_copy_into : EvalTask M T → Alloc (EvalTask M T)
  unfolding eval_task_spec_deep_copy_into task_status_deep_copy_into
  eval_task_deep_copy_into x = do
    meta ← l.object_meta.copy x.meta
    spec ← eval_task_spec_deep_copy_into x.spec
    status ← task_status_deep_copy_into l x.status
    pure (record x { meta = meta; spec = spec; status = status })

  unfoldable pub eval_task_deep_copy :
      Option (Ref (EvalTask M T)) → Alloc (Option (Ref (EvalTask M T)))
  unfolding eval_task_deep_copy_into
  eval_task_deep_copy x = copy_ref eval_task_deep_copy_into x

  unfoldable pub eval_task_deep_copy_object :
      Option (Ref (EvalTask M T)) → Alloc (Option (Ref (EvalTask M T)))
  unfolding eval_task_deep_copy
  eval_task_deep_copy_object x = do
    c ← eval_task_deep_copy x
    pure (elim c [ none ↦ none | some o ↦ some o ])

  unfoldable pub eval_task_list_deep_copy_into : EvalTaskList M L T → Alloc (EvalTaskList M L T)
  unfolding eval_task_deep_copy_into
  eval_task_list_deep_copy_into x = do
    meta ← l.list_meta.copy x.meta
    items ← copy_ref (copy_each (eval_task_deep_copy_into)) x.items
    pure (record x { meta = meta; items = items })

  unfoldable pub eval_task_list_deep_copy :
      Option (Ref (EvalTaskList M L T)) → Alloc (Option (Ref (EvalTaskList M L T)))
  unfolding eval_task_list_deep_copy_into
  eval_task_list_deep_copy x = copy_ref eval_task_list_deep_copy_into x

  unfoldable pub eval_task_list_deep_copy_object :
      Option (Ref (EvalTaskList M L T)) → Alloc (Option (Ref (EvalTaskList M L T)))
  unfolding eval_task_list_deep_copy
  eval_task_list_deep_copy_object x = do
    c ← eval_task_list_deep_copy x
    pure (elim c [ none ↦ none | some o ↦ some o ])
