-- ===== src/Utilities/Shared.antt =====
-- The controllers' own copies of the shared deletion (handleDeletion of the four controllers under
-- internal/controller, next to HandleDeletion of internal/controller/utils.go).
use kai_operator.Base.{◌≡◌, refl, Bool-cases, inl, inr}
use kai_operator.Api.DevTask.{DevTask}
use kai_operator.Api.InferenceTask.{InferenceTask}
use kai_operator.Api.FineTuneTask.{FineTuneTask}
use kai_operator.Api.EvalTask.{EvalTask}
use kai_operator.Client.{Run}
use kai_operator.Client.Calls.{
  dev_task_task, inference_task_task, fine_tune_task_task, eval_task_task,
}
use kai_operator.Host.{System}
use kai_operator.Utilities
use kai_operator.Utilities.{
  dev_task_settable, inference_task_settable, fine_tune_task_settable, eval_task_settable,
}
use kai_operator.DevTask.Framework
use kai_operator.DevTask.Controller as Dev
use kai_operator.InferenceTask.State
use kai_operator.InferenceTask.Controller as Inference
use kai_operator.FineTuneTask.Controller as FineTune
use kai_operator.EvalTask.Controller as Eval

module _ {W : Type 0} (o : System W) where
  -- Each of the four controllers deletes a task as the shared helper does with the finalizer and the
  -- cleanup of the kind.
  pub deletion_shared :
      (d : DevTask) (i : InferenceTask) (f : FineTuneTask) (e : EvalTask) (s : Run W)
      → let c = o.client in
        (Dev.handle_deletion o d s
          ≡ Utilities.handle_deletion c c.dev_tasks d Framework.finalizer_name
              (Dev.cleanup_resources o d)
              s)
        × (Inference.handle_deletion o i s
            ≡ Utilities.handle_deletion c c.inference_tasks i State.finalizer_name
                (Inference.cleanup_resources o i)
                s)
        × (FineTune.handle_deletion c f s
            ≡ Utilities.handle_deletion c c.fine_tune_tasks f FineTune.finalizer_name
                (FineTune.cleanup_resources c f)
                s)
        × (Eval.handle_deletion c e s
            ≡ Utilities.handle_deletion c c.eval_tasks e Eval.finalizer_name
                (Eval.cleanup_resources c e)
                s)
  unfolding Dev.handle_deletion Inference.handle_deletion FineTune.handle_deletion
      Eval.handle_deletion FineTune.drop_finalizer Eval.drop_finalizer Utilities.handle_deletion
      Utilities.remove_finalizer
  deletion_shared d i f e s = (
    refl,
    refl,
    elim (Bool-cases (o.client.contains_finalizer f.meta FineTune.finalizer_name)) [
      | inl h ↦ rw h refl
      | inr h ↦ rw h refl
    ],
    elim (Bool-cases (o.client.contains_finalizer e.meta Eval.finalizer_name)) [
      | inl h ↦ rw h refl
      | inr h ↦ rw h refl
    ],
  )
