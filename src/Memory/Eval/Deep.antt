-- ===== src/Memory/Eval/Deep.antt =====
-- The copies of the EvalTask types are deep
-- (api/v1alpha1/zz_generated.deepcopy.go).
use kai_operator.Api.Task as ValueTask
use kai_operator.Api.EvalTask as ValueEvalTask
use kai_operator.Base.{refl, String, Option, List}
use kai_operator.Base.Text.{ℤ}
use kai_operator.Api.Meta.{ObjectMeta}
use kai_operator.Api.EvalTask.{ModelEvalConfig}
use kai_operator.Api.Task.{
  TaskPhase, EnvVar, VolumeMount, ResourceSpec, VolumeSpec, DataSourceSpec, HealthCheckSpec,
  AutoScalingSpec, Condition,
}
use kai_operator.Memory.{Ref, Copier, pointer, slice, each, flat, both, Layout, struct, Library}
use kai_operator.Memory.Rules.{
  IsDeep, LibraryIsDeep, struct-IsDeep, flat-IsDeep, pointer-IsDeep, both-IsDeep, each-IsDeep,
  slice-IsDeep,
}
use kai_operator.Memory.Eval.{
  OpenCompassSpec, open_compass_spec_deep_copy_into, LmEvalSpec, lm_eval_spec_deep_copy_into,
  EvalTaskSpec, eval_task_spec_deep_copy_into, EvalTask, eval_task_deep_copy_into, EvalTaskList,
  eval_task_list_deep_copy_into,
}
use kai_operator.Memory.Shared.{BaseToolSpec, TaskStatus}
use kai_operator.Memory.Shared.Deep.{
  base_tool_spec, base_tool_spec-IsDeep, task_status, task_status-IsDeep,
}

abbrev open_compass_spec_layout :
    Layout OpenCompassSpec
      (BaseToolSpec × (Option (Ref (List ModelEvalConfig)) × Option (Ref (List String))))
      ValueEvalTask.OpenCompassSpec
      (ValueTask.BaseToolSpec × (List ModelEvalConfig × List String))
open_compass_spec_layout = record {
  parts = both base_tool_spec (both (slice flat) (slice flat));
  fields = λ x. (x.tool, (x.models, x.datasets));
  put = λ x f. record x { tool = f.0; models = f.1.0; datasets = f.1.1 };
  build = λ x v. record {
    tool = v.0;
    models = v.1.0;
    datasets = v.1.1;
    work_dir = x.work_dir;
    output_dir = x.output_dir;
    debug = x.debug;
  };
}

abbrev pub open_compass_spec : Copier OpenCompassSpec ValueEvalTask.OpenCompassSpec
open_compass_spec = record (struct open_compass_spec_layout) {
  copy = open_compass_spec_deep_copy_into;
}

pub open_compass_spec-IsDeep : IsDeep open_compass_spec
unfolding open_compass_spec_deep_copy_into
open_compass_spec-IsDeep =
    struct-IsDeep open_compass_spec_layout (λ a t. refl) (λ a t x. refl)
      (both-IsDeep base_tool_spec-IsDeep
        (both-IsDeep (slice-IsDeep flat-IsDeep) (slice-IsDeep flat-IsDeep)))

abbrev lm_eval_spec_layout :
    Layout LmEvalSpec
      (BaseToolSpec × Option (Ref (List String)))
      ValueEvalTask.LmEvalSpec
      (ValueTask.BaseToolSpec × List String)
lm_eval_spec_layout = record {
  parts = both base_tool_spec (slice flat);
  fields = λ x. (x.tool, x.tasks);
  put = λ x f. record x { tool = f.0; tasks = f.1 };
  build = λ x v. record {
    tool = v.0;
    model_path = x.model_path;
    tasks = v.1;
    batch_size = x.batch_size;
    num_few_shot = x.num_few_shot;
    output_path = x.output_path;
  };
}

abbrev pub lm_eval_spec : Copier LmEvalSpec ValueEvalTask.LmEvalSpec
lm_eval_spec = record (struct lm_eval_spec_layout) { copy = lm_eval_spec_deep_copy_into }

pub lm_eval_spec-IsDeep : IsDeep lm_eval_spec
unfolding lm_eval_spec_deep_copy_into
lm_eval_spec-IsDeep =
    struct-IsDeep lm_eval_spec_layout (λ a t. refl) (λ a t x. refl)
      (both-IsDeep base_tool_spec-IsDeep (slice-IsDeep flat-IsDeep))

abbrev eval_task_spec_layout :
    Layout EvalTaskSpec
      (Option (Ref ResourceSpec)
        × (Option (Ref (List VolumeSpec))
            × (Option (Ref (List DataSourceSpec))
                × (Option (Ref (List String))
                    × (Option (Ref ℤ)
                        × (Option (Ref OpenCompassSpec) × Option (Ref LmEvalSpec)))))))
      ValueEvalTask.EvalTaskSpec
      (Option ResourceSpec
        × (List VolumeSpec
            × (List DataSourceSpec
                × (List String
                    × (Option ℤ
                        × (Option ValueEvalTask.OpenCompassSpec
                            × Option ValueEvalTask.LmEvalSpec))))))
eval_task_spec_layout = record {
  parts = both (pointer flat) (
      both (slice flat) (
        both (slice flat) (
          both (slice flat)
            (both (pointer flat) (both (pointer open_compass_spec) (pointer lm_eval_spec))))));
  fields = λ x. (
    x.resources,
    (x.volumes, (x.data_sources, (x.run_after, (x.ttl_seconds, (x.open_compass, x.lm_eval))))),
  );
  put = λ x f. record x {
    resources = f.0;
    volumes = f.1.0;
    data_sources = f.1.1.0;
    run_after = f.1.1.1.0;
    ttl_seconds = f.1.1.1.1.0;
    open_compass = f.1.1.1.1.1.0;
    lm_eval = f.1.1.1.1.1.1;
  };
  build = λ x v. record {
    resources = v.0;
    volumes = v.1.0;
    data_sources = v.1.1.0;
    run_after = v.1.1.1.0;
    ttl_seconds = v.1.1.1.1.0;
    open_compass = v.1.1.1.1.1.0;
    lm_eval = v.1.1.1.1.1.1;
  };
}

abbrev pub eval_task_spec : Copier EvalTaskSpec ValueEvalTask.EvalTaskSpec
eval_task_spec = record (struct eval_task_spec_layout) { copy = eval_task_spec_deep_copy_into }

pub eval_task_spec-IsDeep : IsDeep eval_task_spec
unfolding eval_task_spec_deep_copy_into
eval_task_spec-IsDeep =
    struct-IsDeep eval_task_spec_layout (λ a t. refl) (λ a t x. refl)
      (both-IsDeep (pointer-IsDeep flat-IsDeep) (
        both-IsDeep (slice-IsDeep flat-IsDeep) (
          both-IsDeep (slice-IsDeep flat-IsDeep) (
            both-IsDeep (slice-IsDeep flat-IsDeep) (
              both-IsDeep (pointer-IsDeep flat-IsDeep) (
                both-IsDeep (pointer-IsDeep open_compass_spec-IsDeep)
                  (pointer-IsDeep lm_eval_spec-IsDeep)))))))

module _ {M L T : Type 0} (l : Library M L T) where
  abbrev eval_task_layout :
      Layout
        (EvalTask M T)
        (M × (EvalTaskSpec × TaskStatus T))
        ValueEvalTask.EvalTask
        (ObjectMeta × (ValueEvalTask.EvalTaskSpec × ValueTask.TaskStatus))
  eval_task_layout = record {
    parts = both l.object_meta (both eval_task_spec (task_status l));
    fields = λ x. (x.meta, (x.spec, x.status));
    put = λ x f. record x { meta = f.0; spec = f.1.0; status = f.1.1 };
    build = λ x v. record { meta = v.0; spec = v.1.0; status = v.1.1 };
  }

  abbrev pub eval_task : Copier (EvalTask M T) ValueEvalTask.EvalTask
  eval_task = record (struct eval_task_layout) { copy = eval_task_deep_copy_into l }

  pub eval_task-IsDeep : (h : LibraryIsDeep l) → IsDeep eval_task
  unfolding eval_task_deep_copy_into
  eval_task-IsDeep h =
      struct-IsDeep eval_task_layout (λ a t. refl) (λ a t x. refl)
        (both-IsDeep h.object_meta (both-IsDeep eval_task_spec-IsDeep (task_status-IsDeep l h)))

  abbrev eval_task_list_layout :
      Layout
        (EvalTaskList M L T)
        (L × Option (Ref (List (EvalTask M T))))
        (List ValueEvalTask.EvalTask)
        (Unit {0} × List ValueEvalTask.EvalTask)
  eval_task_list_layout = record {
    parts = both l.list_meta (slice (each (eval_task)));
    fields = λ x. (x.meta, x.items);
    put = λ x f. record x { meta = f.0; items = f.1 };
    build = λ x v. v.1;
  }

  abbrev pub eval_task_list : Copier (EvalTaskList M L T) (List ValueEvalTask.EvalTask)
  eval_task_list = record (struct eval_task_list_layout) { copy = eval_task_list_deep_copy_into l }

  pub eval_task_list-IsDeep : (h : LibraryIsDeep l) → IsDeep eval_task_list
  unfolding eval_task_list_deep_copy_into
  eval_task_list-IsDeep h =
      struct-IsDeep eval_task_list_layout (λ a t. refl) (λ a t x. refl)
        (both-IsDeep h.list_meta (slice-IsDeep (each-IsDeep (eval_task-IsDeep h))))
