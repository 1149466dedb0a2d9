-- ===== src/DevTask/State.antt =====
-- What the handlers of the DevTask controller read off a task, a pod or a deployment, and the changes
-- that they make to a task in memory (devtask_phases.go under internal/controller/devtask).
use kai_operator.Base.{
  String, Bool, true, false, Option, none, some, List, [], ◌∷◌, ◌==◌, ◌||◌, if◌then◌else◌,
}
use kai_operator.Base.Labels.{Labels}
use kai_operator.Base.Text.{ℤ, is_int}
use kai_operator.Api.Meta.{Key}
use kai_operator.Api.Task.{TaskPhase, unset, pending}
use kai_operator.Api.DevTask.{DevTask}
use kai_operator.Client.Calls.{deployment_object, dev_task_object, dev_task_task}
use kai_operator.DevTask.Framework.{get_framework, get_deployment_name}

-- The task with another status phase, message, external URL or pod name.
abbrev pub with_phase : TaskPhase → DevTask → DevTask
with_phase p t = record t { status = record t.status { phase = p } }

abbrev pub with_message : String → DevTask → DevTask
with_message m t = record t { status = record t.status { message = m } }

abbrev pub with_url : String → DevTask → DevTask
with_url url t = record t { status = record t.status { external_url = url } }

abbrev pub with_pod_name : String → DevTask → DevTask
with_pod_name n t = record t { status = record t.status { pod_name = n } }

abbrev pub deployment_key : DevTask → Key
deployment_key t = record { name = get_deployment_name t; namespace = t.meta.namespace }

-- The waiting reasons that fail a task.
abbrev pub is_fatal : String → Bool
is_fatal r =
    r == "ImagePullBackOff" || r == "ErrImagePull" || r == "CrashLoopBackOff" || r == "Unknown"

-- The first fatal reason of a pod's containers.
unfoldable pub fatal_reason : List (Option String) → Option String
fatal_reason [] = none
fatal_reason (none ∷ rest) = fatal_reason rest
fatal_reason (some r ∷ rest) = if is_fatal r then some r else fatal_reason rest

-- `deploy.Spec.Replicas != nil && *deploy.Spec.Replicas == 0`.
abbrev pub is_scaled_down : Option ℤ → Bool
is_scaled_down none = false
is_scaled_down (some n) = is_int 0 n

-- `phase == "" || phase == TaskPhasePending`.
abbrev pub is_new : TaskPhase → Bool
is_new unset = true
is_new pending = true
is_new _ = false

-- The labels by which the pods of a task are listed.
abbrev pub pod_labels : DevTask → Labels
pod_labels t = ("framework", get_framework t) ∷ ("kai.io/task-type", "development") ∷ []
