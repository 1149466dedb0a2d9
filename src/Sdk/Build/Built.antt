-- ===== src/Sdk/Build/Built.antt =====
-- What the controllers make of the tasks that the builders of the client library give
-- (sdk/devtask_builder.go, inferencetask_builder.go and evaltask_builder.go, with builder.go,
-- framework_utils.go, utils.go and evaltask_controller.go of the controllers).
use kai_operator.Base.{
  ℕ, String, ◌≡◌, refl, ap, if◌then◌else◌, Option, none, some, Bool, List, [], ◌∷◌, ◌++◌,
}
use kai_operator.Base.Text.{ℤ, pos, is_pos}
use kai_operator.Api.Kube.{Volume, unset}
use kai_operator.Api.Task.{VolumeSpec, RoutingSpec}
use kai_operator.Api.DevTask.{DevTask, JupyterSpec}
use kai_operator.Api.InferenceTask.{InferenceTask}
use kai_operator.Api.EvalTask.{EvalTask}
use kai_operator.Client.{Client}
use kai_operator.Builder
use kai_operator.DevTask.Framework
use kai_operator.EvalTask.Job.{build_job}
use kai_operator.InferenceTask.Deployment
use kai_operator.Sdk.Build.{volume_of}
use kai_operator.Sdk.Build.Dev
use kai_operator.Sdk.Build.Inference
use kai_operator.Sdk.Build.Eval

-- A volume without a source.
abbrev pub bare : String → Volume
bare name = record { name = name; source = unset }

module _ {W : Type 0} (c : Client W) where
  dev_volumes-snoc :
      (vs : List VolumeSpec) (v : VolumeSpec)
      → (Builder.spec_volumes c (vs ++ (v ∷ []))).0
        ≡ (Builder.spec_volumes c vs).0 ++ (Builder.spec_volumes c (v ∷ [])).0
  unfolding Builder.spec_volumes
  dev_volumes-snoc [] v = refl
  dev_volumes-snoc (x ∷ vs) v =
      ap (λ l. List.◌∷◌ (record { name = x.name; source = Builder.volume_source c x }) l)
        (dev_volumes-snoc vs v)

  inference_volumes-snoc :
      (vs : List VolumeSpec) (v : VolumeSpec)
      → Deployment.spec_volumes (vs ++ (v ∷ []))
        ≡ Deployment.spec_volumes vs ++ Deployment.spec_volumes (v ∷ [])
  unfolding Deployment.spec_volumes
  inference_volumes-snoc [] v = refl
  inference_volumes-snoc (x ∷ vs) v =
      ap (λ l. List.◌∷◌ (record { name = x.name; source = Deployment.volume_source x }) l)
        (inference_volumes-snoc vs v)

  -- A volume that a builder adds to a task has no source in the pods: neither controller knows the
  -- type that the builder gives it.
  pub built_volume_bare :
      (t : DevTask) (u : InferenceTask) (name capacity path : String)
      → ((Builder.spec_volumes c (Dev.with_volume name capacity path t).spec.volumes).0
          ≡ (Builder.spec_volumes c t.spec.volumes).0 ++ (bare name ∷ []))
        × (Deployment.spec_volumes (Inference.with_volume name capacity path u).spec.volumes
            ≡ Deployment.spec_volumes u.spec.volumes ++ (bare name ∷ []))
  unfolding Dev.with_volume Inference.with_volume Builder.spec_volumes Deployment.spec_volumes
  built_volume_bare t u name capacity path = (
    dev_volumes-snoc t.spec.volumes (volume_of name capacity path),
    inference_volumes-snoc u.spec.volumes (volume_of name capacity path),
  )

  -- The resources that a builder gives an evaluation have no effect on its job.
  pub eval_resources_ignored :
      (framework cpu memory gpu : String) (t : EvalTask)
      → build_job c framework (Eval.with_resources cpu memory gpu t) ≡ build_job c framework t
  unfolding build_job Eval.with_resources
  eval_resources_ignored framework cpu memory gpu t = refl

-- A variable or a routing that is given to a new task before its tool is lost: the task is the one
-- that the tool alone gives.
pub settings_before_tool_lost :
    (name namespace image key value : String) (enabled : Bool)
    (opts : List (JupyterSpec → JupyterSpec)) (routing : List (RoutingSpec → RoutingSpec))
    → let new = Dev.new_dev_task name namespace in
      (Dev.with_jupyter image opts (Dev.with_env key value new) ≡ Dev.with_jupyter image opts new)
      × (Dev.with_jupyter image opts (Dev.with_routing enabled routing new)
          ≡ Dev.with_jupyter image opts new)
unfolding Dev.with_jupyter Dev.with_env Dev.with_routing Dev.new_dev_task
settings_before_tool_lost name namespace image key value enabled opts routing = (refl, refl)

-- The port of a development task with one tool of the builder is the port that the builder names,
-- whatever the environment sets for the framework.
pub built_ports :
    (getenv : List ℕ → String) (name namespace image : String)
    → let new = Dev.new_dev_task name namespace in
      (Framework.get_service_port_for_task getenv (Dev.with_code_server image [] new) ≡ pos 8080)
      × (Framework.get_service_port_for_task getenv (Dev.with_jupyter image [] new) ≡ pos 8888)
      × (Framework.get_service_port_for_task getenv (Dev.with_no_vnc image [] new) ≡ pos 6080)
unfolding Framework.get_service_port_for_task Dev.with_code_server Dev.with_jupyter Dev.with_no_vnc
    Dev.new_dev_task
built_ports getenv name namespace image = (refl, refl, refl)

-- The port that a section gives if it is above 0, and otherwise `default`.
abbrev pub section_port : {S : Type 0} → Option S → (S → ℤ) → ℤ → ℤ
section_port none port default = default
section_port (some s) port default = if is_pos (port s) then port s else default
