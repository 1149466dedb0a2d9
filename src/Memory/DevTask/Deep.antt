-- ===== src/Memory/DevTask/Deep.antt =====
-- The copies of the DevTask types are deep
-- (api/v1alpha1/zz_generated.deepcopy.go).
use kai_operator.Api.Task as ValueTask
use kai_operator.Api.InferenceTask as ValueInferenceTask
use kai_operator.Api.DevTask as ValueDevTask
use kai_operator.Base.{refl, String, Option, List}
use kai_operator.Base.Text.{ℤ}
use kai_operator.Api.Meta.{ObjectMeta}
use kai_operator.Api.Task.{
  TaskPhase, EnvVar, VolumeMount, ResourceSpec, VolumeSpec, DataSourceSpec, HealthCheckSpec,
  AutoScalingSpec, Condition,
}
use kai_operator.Memory.{Ref, Copier, pointer, slice, each, flat, both, Layout, struct, Library}
use kai_operator.Memory.Rules.{
  IsDeep, LibraryIsDeep, struct-IsDeep, flat-IsDeep, pointer-IsDeep, both-IsDeep, each-IsDeep,
  slice-IsDeep,
}
use kai_operator.Memory.DevTask.{
  CodeServerSpec, code_server_spec_deep_copy_into, JupyterSpec, jupyter_spec_deep_copy_into,
  NoVncSpec, no_vnc_spec_deep_copy_into, DevTaskSpec, dev_task_spec_deep_copy_into, DevTask,
  dev_task_deep_copy_into, DevTaskList, dev_task_list_deep_copy_into,
}
use kai_operator.Memory.Shared.{BaseToolSpec, TaskStatus}
use kai_operator.Memory.Inference.{VllmSpec}
use kai_operator.Memory.Shared.Deep.{
  base_tool_spec, base_tool_spec-IsDeep, task_status, task_status-IsDeep,
}
use kai_operator.Memory.Inference.Deep.{vllm_spec, vllm_spec-IsDeep}

abbrev code_server_spec_layout :
    Layout CodeServerSpec
      (BaseToolSpec × Option (Ref String))
      ValueDevTask.CodeServerSpec
      (ValueTask.BaseToolSpec × Option String)
code_server_spec_layout = record {
  parts = both base_tool_spec (pointer flat);
  fields = λ x. (x.tool, x.password);
  put = λ x f. record x { tool = f.0; password = f.1 };
  build = λ x v. record { tool = v.0; password = v.1; workspace = x.workspace };
}

abbrev pub code_server_spec : Copier CodeServerSpec ValueDevTask.CodeServerSpec
code_server_spec = record (struct code_server_spec_layout) {
  copy = code_server_spec_deep_copy_into;
}

pub code_server_spec-IsDeep : IsDeep code_server_spec
unfolding code_server_spec_deep_copy_into
code_server_spec-IsDeep =
    struct-IsDeep code_server_spec_layout (λ a t. refl) (λ a t x. refl)
      (both-IsDeep base_tool_spec-IsDeep (pointer-IsDeep flat-IsDeep))

abbrev jupyter_spec_layout :
    Layout JupyterSpec BaseToolSpec ValueDevTask.JupyterSpec ValueTask.BaseToolSpec
jupyter_spec_layout = record {
  parts = base_tool_spec;
  fields = λ x. x.tool;
  put = λ x f. record x { tool = f };
  build = λ x v. record { tool = v; notebook_dir = x.notebook_dir };
}

abbrev pub jupyter_spec : Copier JupyterSpec ValueDevTask.JupyterSpec
jupyter_spec = record (struct jupyter_spec_layout) { copy = jupyter_spec_deep_copy_into }

pub jupyter_spec-IsDeep : IsDeep jupyter_spec
unfolding jupyter_spec_deep_copy_into
jupyter_spec-IsDeep =
    struct-IsDeep jupyter_spec_layout (λ a t. refl) (λ a t x. refl) base_tool_spec-IsDeep

abbrev no_vnc_spec_layout :
    Layout NoVncSpec BaseToolSpec ValueDevTask.NoVncSpec ValueTask.BaseToolSpec
no_vnc_spec_layout = record {
  parts = base_tool_spec;
  fields = λ x. x.tool;
  put = λ x f. record x { tool = f };
  build = λ x v. record { tool = v; display = x.display; password = x.password };
}

abbrev pub no_vnc_spec : Copier NoVncSpec ValueDevTask.NoVncSpec
no_vnc_spec = record (struct no_vnc_spec_layout) { copy = no_vnc_spec_deep_copy_into }

pub no_vnc_spec-IsDeep : IsDeep no_vnc_spec
unfolding no_vnc_spec_deep_copy_into
no_vnc_spec-IsDeep =
    struct-IsDeep no_vnc_spec_layout (λ a t. refl) (λ a t x. refl) base_tool_spec-IsDeep

abbrev dev_task_spec_layout :
    Layout DevTaskSpec
      (Option (Ref ResourceSpec)
        × (Option (Ref (List VolumeSpec))
            × (Option (Ref (List DataSourceSpec))
                × (Option (Ref (List String))
                    × (Option (Ref ℤ)
                        × (Option (Ref CodeServerSpec)
                            × (Option (Ref JupyterSpec)
                                × (Option (Ref NoVncSpec) × Option (Ref VllmSpec)))))))))
      ValueDevTask.DevTaskSpec
      (Option ResourceSpec
        × (List VolumeSpec
            × (List DataSourceSpec
                × (List String
                    × (Option ℤ
                        × (Option ValueDevTask.CodeServerSpec
                            × (Option ValueDevTask.JupyterSpec
                                × (Option ValueDevTask.NoVncSpec
                                    × Option ValueInferenceTask.VllmSpec))))))))
dev_task_spec_layout = record {
  parts = both (pointer flat) (
      both (slice flat) (
        both (slice flat) (
          both (slice flat) (
            both (pointer flat) (
              both (pointer code_server_spec)
                (both (pointer jupyter_spec) (both (pointer no_vnc_spec) (pointer vllm_spec))))))));
  fields = λ x. (
    x.resources,
    (
      x.volumes,
      (
        x.data_sources,
        (x.run_after, (x.ttl_seconds, (x.code_server, (x.jupyter, (x.no_vnc, x.vllm))))),
      ),
    ),
  );
  put = λ x f. record x {
    resources = f.0;
    volumes = f.1.0;
    data_sources = f.1.1.0;
    run_after = f.1.1.1.0;
    ttl_seconds = f.1.1.1.1.0;
    code_server = f.1.1.1.1.1.0;
    jupyter = f.1.1.1.1.1.1.0;
    no_vnc = f.1.1.1.1.1.1.1.0;
    vllm = f.1.1.1.1.1.1.1.1;
  };
  build = λ x v. record {
    resources = v.0;
    volumes = v.1.0;
    data_sources = v.1.1.0;
    run_after = v.1.1.1.0;
    ttl_seconds = v.1.1.1.1.0;
    code_server = v.1.1.1.1.1.0;
    jupyter = v.1.1.1.1.1.1.0;
    no_vnc = v.1.1.1.1.1.1.1.0;
    vllm = v.1.1.1.1.1.1.1.1;
  };
}

abbrev pub dev_task_spec : Copier DevTaskSpec ValueDevTask.DevTaskSpec
dev_task_spec = record (struct dev_task_spec_layout) { copy = dev_task_spec_deep_copy_into }

pub dev_task_spec-IsDeep : IsDeep dev_task_spec
unfolding dev_task_spec_deep_copy_into
dev_task_spec-IsDeep =
    struct-IsDeep dev_task_spec_layout (λ a t. refl) (λ a t x. refl)
      (both-IsDeep (pointer-IsDeep flat-IsDeep) (
        both-IsDeep (slice-IsDeep flat-IsDeep) (
          both-IsDeep (slice-IsDeep flat-IsDeep) (
            both-IsDeep (slice-IsDeep flat-IsDeep) (
              both-IsDeep (pointer-IsDeep flat-IsDeep) (
                both-IsDeep (pointer-IsDeep code_server_spec-IsDeep) (
                  both-IsDeep (pointer-IsDeep jupyter_spec-IsDeep) (
                    both-IsDeep (pointer-IsDeep no_vnc_spec-IsDeep)
                      (pointer-IsDeep vllm_spec-IsDeep)))))))))

module _ {M L T : Type 0} (l : Library M L T) where
  abbrev dev_task_layout :
      Layout
        (DevTask M T)
        (M × (DevTaskSpec × TaskStatus T))
        ValueDevTask.DevTask
        (ObjectMeta × (ValueDevTask.DevTaskSpec × ValueTask.TaskStatus))
  dev_task_layout = record {
    parts = both l.object_meta (both dev_task_spec (task_status l));
    fields = λ x. (x.meta, (x.spec, x.status));
    put = λ x f. record x { meta = f.0; spec = f.1.0; status = f.1.1 };
    build = λ x v. record { meta = v.0; spec = v.1.0; status = v.1.1 };
  }

  abbrev pub dev_task : Copier (DevTask M T) ValueDevTask.DevTask
  dev_task = record (struct dev_task_layout) { copy = dev_task_deep_copy_into l }

  pub dev_task-IsDeep : (h : LibraryIsDeep l) → IsDeep dev_task
  unfolding dev_task_deep_copy_into
  dev_task-IsDeep h =
      struct-IsDeep dev_task_layout (λ a t. refl) (λ a t x. refl)
        (both-IsDeep h.object_meta (both-IsDeep dev_task_spec-IsDeep (task_status-IsDeep l h)))

  abbrev dev_task_list_layout :
      Layout
        (DevTaskList M L T)
        (L × Option (Ref (List (DevTask M T))))
        (List ValueDevTask.DevTask)
        (Unit {0} × List ValueDevTask.DevTask)
  dev_task_list_layout = record {
    parts = both l.list_meta (slice (each (dev_task)));
    fields = λ x. (x.meta, x.items);
    put = λ x f. record x { meta = f.0; items = f.1 };
    build = λ x v. v.1;
  }

  abbrev pub dev_task_list : Copier (DevTaskList M L T) (List ValueDevTask.DevTask)
  dev_task_list = record (struct dev_task_list_layout) { copy = dev_task_list_deep_copy_into l }

  pub dev_task_list-IsDeep : (h : LibraryIsDeep l) → IsDeep dev_task_list
  unfolding dev_task_list_deep_copy_into
  dev_task_list-IsDeep h =
      struct-IsDeep dev_task_list_layout (λ a t. refl) (λ a t x. refl)
        (both-IsDeep h.list_meta (slice-IsDeep (each-IsDeep (dev_task-IsDeep h))))
