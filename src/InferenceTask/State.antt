-- ===== src/InferenceTask/State.antt =====
-- What the handlers of the InferenceTask controller read off a task, and the changes that they make to
-- it in memory (inference_phases.go under internal/controller/inference).
use kai_operator.Base.{String, [], ◌∷◌}
use kai_operator.Base.Labels.{Labels}
use kai_operator.Api.Meta.{Key}
use kai_operator.Api.Task.{TaskPhase}
use kai_operator.Api.InferenceTask.{InferenceTask}
use kai_operator.Client.Calls.{inference_task_object, inference_task_task}
use kai_operator.InferenceTask.Model.{object_name}

abbrev pub finalizer_name : String
finalizer_name = "inference.kai.io/finalizer"

-- The task with another status phase, message, external URL or pod name.
abbrev pub with_phase : TaskPhase → InferenceTask → InferenceTask
with_phase p t = record t { status = record t.status { phase = p } }

abbrev pub with_message : String → InferenceTask → InferenceTask
with_message m t = record t { status = record t.status { message = m } }

abbrev pub with_url : String → InferenceTask → InferenceTask
with_url url t = record t { status = record t.status { external_url = url } }

abbrev pub with_pod_name : String → InferenceTask → InferenceTask
with_pod_name n t = record t { status = record t.status { pod_name = n } }

abbrev pub deployment_key : InferenceTask → Key
deployment_key t = record { name = object_name t; namespace = t.meta.namespace }

-- The labels by which the pods of a task are listed.
abbrev pub pod_labels : InferenceTask → Labels
pod_labels t = ("kai.io/inference", t.meta.name) ∷ ("kai.io/task-type", "inference") ∷ []
