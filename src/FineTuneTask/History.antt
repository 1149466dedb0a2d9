-- ===== src/FineTuneTask/History.antt =====
-- The phases of a FineTuneTask over any number of reconciliations
-- (internal/controller/finetunetask/finetunetask_controller.go).
use kai_operator.Base.{◌≡◌, ◌≢◌, ◌⊎◌, refl, arith}
use kai_operator.Api.Task.{TaskPhase, completed, failed}
use kai_operator.Client.{Client, run_at}
use kai_operator.Client.Rounds
use kai_operator.Client.Rounds.{Rounds, Rounds-avoid, Round-follows}
use kai_operator.Manager.{fine_tune_task_setup}
use kai_operator.FineTuneTask.Controller.{reconcile}
use kai_operator.FineTuneTask.Phases.{Edge, stay, tuning_reconcile-Follows}

-- A reconciliation that reads a task with the phase `q` and writes the phase `r`.
abbrev pub Round : {W : Type 0} → Client W → TaskPhase → TaskPhase → Type 0
Round c =
    Rounds.Round c.fine_tune_tasks (λ t. t.status.phase) (λ _. Unit)
      (λ key w. (reconcile c key (run_at w)).1.log)

edge_end : (p b : TaskPhase) → (b ≡ completed) ⊎ (b ≡ failed) → Edge p b → p ≡ b
edge_end p b h stay = refl
edge_end p b h _ = ground arith

-- However many reconciliations follow, and whatever becomes of its job, a task that is not yet
-- completed never gets the phase completed, and one that has not failed never the phase failed.
pub tuning_never_ends :
    {W : Type 0} (c : Client W) (b p r : TaskPhase)
    → (b ≡ completed) ⊎ (b ≡ failed)
    → p ≢ b
    → Rounds (Round c) p r
    → r ≢ b
tuning_never_ends c b p r h other past =
    Rounds-avoid (Round c) b p r
      (λ x s. edge_end x b h (
        Round-follows c.fine_tune_tasks (λ t. t.status.phase) (λ _. Unit) _
          fine_tune_task_setup.owns Edge x b (λ key w t e k. tuning_reconcile-Follows c key w t e)
          s))
      other past
