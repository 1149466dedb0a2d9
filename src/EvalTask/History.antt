-- ===== src/EvalTask/History.antt =====
-- The phases of an EvalTask over any number of reconciliations
-- (internal/controller/evaltask/evaltask_controller.go).
use kai_operator.Base.{◌≡◌, ◌⊎◌, refl, arith}
use kai_operator.Api.Task.{TaskPhase, completed, failed}
use kai_operator.Client.{Client, run_at}
use kai_operator.Client.Rounds
use kai_operator.Client.Rounds.{Rounds, Rounds-keep, Round-follows}
use kai_operator.Manager.{eval_task_setup}
use kai_operator.EvalTask.Controller.{reconcile}
use kai_operator.EvalTask.Phases.{Edge, stay, reconcile-Follows}

-- A reconciliation that reads a task with the phase `q` and writes the phase `r`.
abbrev pub Round : {W : Type 0} → Client W → TaskPhase → TaskPhase → Type 0
Round c =
    Rounds.Round c.eval_tasks (λ t. t.status.phase) (λ _. Unit)
      (λ key w. (reconcile c key (run_at w)).1.log)

edge_ended : (p r : TaskPhase) → (p ≡ completed) ⊎ (p ≡ failed) → Edge p r → r ≡ p
edge_ended p r h stay = refl
edge_ended p r h _ = ground arith

-- However many reconciliations follow, an evaluation that completed or failed keeps its phase.
pub eval_ended_for_good :
    {W : Type 0} (c : Client W) (p r : TaskPhase)
    → (p ≡ completed) ⊎ (p ≡ failed)
    → Rounds (Round c) p r
    → r ≡ p
eval_ended_for_good c p r h past =
    Rounds-keep (Round c) p r
      (λ x s. edge_ended p x h (
        Round-follows c.eval_tasks (λ t. t.status.phase) (λ _. Unit) _ eval_task_setup.owns Edge p x
          (λ key w t e k. reconcile-Follows c key w t e) s))
      past
