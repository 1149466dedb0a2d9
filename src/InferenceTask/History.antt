-- ===== src/InferenceTask/History.antt =====
-- The phases of an InferenceTask over any number of reconciliations (inferencetask_controller.go and
-- inference_phases.go under internal/controller/inference).
use kai_operator.Base.{◌≡◌, ◌≢◌, ◌⊎◌, refl}
use kai_operator.Api.Task.{TaskPhase, creating, running, completed, failed}
use kai_operator.Client.{run_at}
use kai_operator.Client.Rounds
use kai_operator.Client.Rounds.{Rounds, Rounds-keep, Rounds-through, Round-follows}
use kai_operator.Host.{System}
use kai_operator.Manager.{inference_task_setup}
use kai_operator.DevTask.Steps.{Edge, edge_ended, edge_running}
use kai_operator.InferenceTask.Controller.{reconcile}
use kai_operator.InferenceTask.Phases.{StoresPhase, inference_reconcile-Follows}

-- A reconciliation that reads a task with the phase `q` and writes the phase `r`.
abbrev pub Round : {W : Type 0} → System W → TaskPhase → TaskPhase → Type 0
Round o =
    Rounds.Round o.client.inference_tasks (λ t. t.status.phase) (λ _. Unit)
      (λ key w. (reconcile o key (run_at w)).1.log)

module _ {W : Type 0} (o : System W) (stores : StoresPhase o.client.inference_tasks) where
  round-Edge : (q r : TaskPhase) → Round o q r → Edge q r
  round-Edge q r s =
      Round-follows o.client.inference_tasks (λ t. t.status.phase) (λ _. Unit) _
        inference_task_setup.owns Edge q r
        (λ key w t e h. inference_reconcile-Follows o stores key w t e) s

  -- For a server that stores the phase of a status it accepts: however many reconciliations follow, a
  -- task that completed or failed keeps its phase.
  pub inference_ended_for_good :
      (p r : TaskPhase) → (p ≡ completed) ⊎ (p ≡ failed) → Rounds (Round o) p r → r ≡ p
  inference_ended_for_good p r h past =
      Rounds-keep (Round o) p r (λ x s. edge_ended p x h (round-Edge p x s)) past

  -- For a server that stores the phase of a status it accepts: where reconciliations lead a task from
  -- another phase to the phase running, some led it to the phase creating and the rest from there.
  pub inference_ran_after_creating :
      (p : TaskPhase)
      → p ≢ running
      → Rounds (Round o) p running
      → Rounds (Round o) p creating × Rounds (Round o) creating running
  inference_ran_after_creating p h past =
      Rounds-through (Round o) creating running p running
        (λ x s. edge_running x (round-Edge x running s)) h refl past
