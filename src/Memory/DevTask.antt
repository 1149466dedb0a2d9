-- ===== src/Memory/DevTask.antt =====
-- The DevTask types of api/v1alpha1/devtask_types.go in memory, and their deep copies
-- (api/v1alpha1/zz_generated.deepcopy.go).
pub mod Deep
use kai_operator.Base.{String, Bool, Option, none, some, List}
use kai_operator.Base.Labels.{Labels}
use kai_operator.Base.Text.{ℤ}
use kai_operator.Api.Task.{
  TaskPhase, EnvVar, VolumeMount, ResourceSpec, VolumeSpec, DataSourceSpec, HealthCheckSpec,
  AutoScalingSpec, Condition,
}
use kai_operator.Api.EvalTask.{ModelEvalConfig}
use kai_operator.Memory.{Ref, Alloc, pure, ◌>>=◌, copy_ref, copy_or_nil, copy_each, Library}
use kai_operator.Memory.Shared.{
  BaseToolSpec, base_tool_spec_deep_copy_into, TaskStatus, task_status_deep_copy_into,
}
use kai_operator.Memory.Inference.{VllmSpec, vllm_spec_deep_copy_into}

pub record CodeServerSpec : Type 0 where
  pub tool : BaseToolSpec
  pub password : Option (Ref String)
  pub workspace : String

pub record JupyterSpec : Type 0 where
  pub tool : BaseToolSpec
  pub notebook_dir : String

pub record NoVncSpec : Type 0 where
  pub tool : BaseToolSpec
  pub display : String
  pub password : String

pub record DevTaskSpec : Type 0 where
  pub resources : Option (Ref ResourceSpec)
  pub volumes : Option (Ref (List VolumeSpec))
  pub data_sources : Option (Ref (List DataSourceSpec))
  pub run_after : Option (Ref (List String))
  pub ttl_seconds : Option (Ref ℤ)
  pub code_server : Option (Ref CodeServerSpec)
  pub jupyter : Option (Ref JupyterSpec)
  pub no_vnc : Option (Ref NoVncSpec)
  pub vllm : Option (Ref VllmSpec)

pub record DevTask (M T : Type 0) : Type 0 where
  pub meta : M
  pub spec : DevTaskSpec
  pub status : TaskStatus T

pub record DevTaskList (M L T : Type 0) : Type 0 where
  pub meta : L
  pub items : Option (Ref (List (DevTask M T)))

unfoldable pub code_server_spec_deep_copy_into : CodeServerSpec → Alloc CodeServerSpec
unfolding base_tool_spec_deep_copy_into
code_server_spec_deep_copy_into x = do
  tool ← base_tool_spec_deep_copy_into x.tool
  password ← copy_ref pure x.password
  pure (record x { tool = tool; password = password })

unfoldable pub code_server_spec_deep_copy :
    Option (Ref CodeServerSpec) → Alloc (Option (Ref CodeServerSpec))
unfolding code_server_spec_deep_copy_into
code_server_spec_deep_copy x = copy_ref code_server_spec_deep_copy_into x

unfoldable pub jupyter_spec_deep_copy_into : JupyterSpec → Alloc JupyterSpec
unfolding base_tool_spec_deep_copy_into
jupyter_spec_deep_copy_into x = do
  tool ← base_tool_spec_deep_copy_into x.tool
  pure (record x { tool = tool })

unfoldable pub jupyter_spec_deep_copy : Option (Ref JupyterSpec) → Alloc (Option (Ref JupyterSpec))
unfolding jupyter_spec_deep_copy_into
jupyter_spec_deep_copy x = copy_ref jupyter_spec_deep_copy_into x

unfoldable pub no_vnc_spec_deep_copy_into : NoVncSpec → Alloc NoVncSpec
unfolding base_tool_spec_deep_copy_into
no_vnc_spec_deep_copy_into x = do
  tool ← base_tool_spec_deep_copy_into x.tool
  pure (record x { tool = tool })

unfoldable pub no_vnc_spec_deep_copy : Option (Ref NoVncSpec) → Alloc (Option (Ref NoVncSpec))
unfolding no_vnc_spec_deep_copy_into
no_vnc_spec_deep_copy x = copy_ref no_vnc_spec_deep_copy_into x

unfoldable pub dev_task_spec_deep_copy_into : DevTaskSpec → Alloc DevTaskSpec
unfolding code_server_spec_deep_copy_into jupyter_spec_deep_copy_into no_vnc_spec_deep_copy_into
    vllm_spec_deep_copy_into
dev_task_spec_deep_copy_into x = do
  resources ← copy_ref pure x.resources
  volumes ← copy_ref pure x.volumes
  data_sources ← copy_ref pure x.data_sources
  run_after ← copy_ref pure x.run_after
  ttl_seconds ← copy_ref pure x.ttl_seconds
  code_server ← copy_ref code_server_spec_deep_copy_into x.code_server
  jupyter ← copy_ref jupyter_spec_deep_copy_into x.jupyter
  no_vnc ← copy_ref no_vnc_spec_deep_copy_into x.no_vnc
  vllm ← copy_ref vllm_spec_deep_copy_into x.vllm
  pure (record x {
    resources = resources;
    volumes = volumes;
    data_sources = data_sources;
    run_after = run_after;
    ttl_seconds = ttl_seconds;
    code_server = code_server;
    jupyter = jupyter;
    no_vnc = no_vnc;
    vllm = vllm;
  })

unfoldable pub dev_task_spec_deep_copy : Option (Ref DevTaskSpec) → Alloc (Option (Ref DevTaskSpec))
unfolding dev_task_spec_deep_copy_into
dev_task_spec_deep_copy x = copy_ref dev_task_spec_deep_copy_into x

module _ {M L T : Type 0} (l : Library M L T) where
  unfoldable pub dev_task_deep_copy_into : DevTask M T → Alloc (DevTask M T)
  unfolding dev_task_spec_deep_copy_into task_status_deep_copy_into
  dev_task_deep_copy_into x = do
    meta ← l.object_meta.copy x.meta
    spec ← dev_task_spec_deep_copy_into x.spec
    status ← task_status_deep_copy_into l x.status
    pure (record x { meta = meta; spec = spec; status = status })

  unfoldable pub dev_task_deep_copy :
      Option (Ref (DevTask M T)) → Alloc (Option (Ref (DevTask M T)))
  unfolding dev_task_deep_copy_into
  dev_task_deep_copy x = copy_ref dev_task_deep_copy_into x

  unfoldable pub dev_task_deep_copy_object :
      Option (Ref (DevTask M T)) → Alloc (Option (Ref (DevTask M T)))
  unfolding dev_task_deep_copy
  dev_task_deep_copy_object x = do
    c ← dev_task_deep_copy x
    pure (elim c [ none ↦ none | some o ↦ some o ])

  unfoldable pub dev_task_list_deep_copy_into : DevTaskList M L T → Alloc (DevTaskList M L T)
  unfolding dev_task_deep_copy_into
  dev_task_list_deep_copy_into x = do
    meta ← l.list_meta.copy x.meta
    items ← copy_ref (copy_each (dev_task_deep_copy_into)) x.items
    pure (record x { meta = meta; items = items })

  unfoldable pub dev_task_list_deep_copy :
      Option (Ref (DevTaskList M L T)) → Alloc (Option (Ref (DevTaskList M L T)))
  unfolding dev_task_list_deep_copy_into
  dev_task_list_deep_copy x = copy_ref dev_task_list_deep_copy_into x

  unfoldable pub dev_task_list_deep_copy_object :
      Option (Ref (DevTaskList M L T)) → Alloc (Option (Ref (DevTaskList M L T)))
  unfolding dev_task_list_deep_copy
  dev_task_list_deep_copy_object x = do
    c ← dev_task_list_deep_copy x
    pure (elim c [ none ↦ none | some o ↦ some o ])
