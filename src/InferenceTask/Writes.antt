-- ===== src/InferenceTask/Writes.antt =====
-- The calls that the InferenceTask controller may make.
use kai_operator.Api.Task.{TaskPhase}
use kai_operator.Client.{Event}
use kai_operator.Client.Writes.{WritesOf}
use kai_operator.Manager.{inference_task_setup}

-- It creates and deletes objects of the kinds that it is set up to own, and writes phases with the
-- property `Q`.
abbrev pub Writes : (TaskPhase → Type 0) → Event → Type 0
Writes = WritesOf inference_task_setup.owns
