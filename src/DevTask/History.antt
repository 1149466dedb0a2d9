-- ===== src/DevTask/History.antt =====
-- The phases of a DevTask over any number of reconciliations (devtask_controller.go and
-- devtask_phases.go under internal/controller/devtask).
use kai_operator.Base.{◌≡◌, ◌≢◌, ◌⊎◌, true, refl}
use kai_operator.Api.Task.{TaskPhase, creating, running, completed, failed}
use kai_operator.Client.{run_at}
use kai_operator.Client.Rounds
use kai_operator.Client.Rounds.{Rounds, Rounds-keep, Rounds-through, Round-follows}
use kai_operator.Host.{System}
use kai_operator.Manager.{dev_task_setup}
use kai_operator.DevTask.Framework.{finalizer_name}
use kai_operator.DevTask.Steps.{Edge, edge_ended, edge_running, StoresPhase}
use kai_operator.DevTask.Controller.{reconcile}
use kai_operator.DevTask.Phases.{dev_reconcile-Follows}

-- A reconciliation that reads a task with its finalizer and the phase `q`, and writes the phase `r`.
abbrev pub Round : {W : Type 0} → System W → TaskPhase → TaskPhase → Type 0
Round o =
    Rounds.Round o.client.dev_tasks (λ t. t.status.phase)
      (λ t. o.client.contains_finalizer t.meta finalizer_name ≡ true)
      (λ key w. (reconcile o key (run_at w)).1.log)

module _ {W : Type 0} (o : System W) (stores : StoresPhase o.client.dev_tasks) where
  round-Edge : (q r : TaskPhase) → Round o q r → Edge q r
  round-Edge q r s =
      Round-follows o.client.dev_tasks (λ t. t.status.phase) _ _ dev_task_setup.owns Edge q r
        (λ key w t e h. dev_reconcile-Follows o stores key w t e h) s

  -- For a server that stores the phase of a status it accepts: however many reconciliations follow, a
  -- task with its finalizer that completed or failed keeps its phase.
  pub dev_ended_for_good :
      (p r : TaskPhase) → (p ≡ completed) ⊎ (p ≡ failed) → Rounds (Round o) p r → r ≡ p
  dev_ended_for_good p r h past =
      Rounds-keep (Round o) p r (λ x s. edge_ended p x h (round-Edge p x s)) past

  -- For a server that stores the phase of a status it accepts: where reconciliations lead a task with
  -- its finalizer from another phase to the phase running, some led it to the phase creating and the
  -- rest from there.
  pub dev_ran_after_creating :
      (p : TaskPhase)
      → p ≢ running
      → Rounds (Round o) p running
      → Rounds (Round o) p creating × Rounds (Round o) creating running
  dev_ran_after_creating p h past =
      Rounds-through (Round o) creating running p running
        (λ x s. edge_running x (round-Edge x running s)) h refl past
