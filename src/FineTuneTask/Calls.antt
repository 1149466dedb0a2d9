-- ===== src/FineTuneTask/Calls.antt =====
-- The kinds of objects that the FineTuneTask controller creates, changes and deletes
-- (internal/controller/finetunetask/finetunetask_controller.go). The server may answer anything.
use kai_operator.Base.Lists.{All}
use kai_operator.Api.Meta.{Key}
use kai_operator.Api.Task.{
  TaskPhase, unset, pending, creating, running, completed, failed, terminating, other,
}
use kai_operator.Api.FineTuneTask.{FineTuneTask}
use kai_operator.Client.{run_at, Client, Action}
use kai_operator.Client.Writes.{AnyPhase}
use kai_operator.Client.Keeps.{Emits, emits_rules, emits_calls}
use kai_operator.FineTuneTask.Writes.{Writes}
use kai_operator.FineTuneTask.Phases.{
  cleanup-Writes, finalizer-Writes, deletion-Writes, pending-Writes, running-Writes,
}
use kai_operator.FineTuneTask.Controller.{
  set_end_time, handle_finished_phase, handle_phase, reconcile_task, reconcile,
}

module _ {W : Type 0} (c : Client W) where
  -- Its calls keep to the kinds that it owns.
  abbrev Owned : {A : Type 0} → Action W A → Type 0
  Owned m = Emits (Writes AnyPhase) m

  finished-Owned : (t : FineTuneTask) → Owned (handle_finished_phase c t)
  unfolding handle_finished_phase set_end_time
  finished-Owned t =
      search (emits_rules, emits_calls, cleanup-Writes, finalizer-Writes, tt) depth 12

  handle-Owned : (p : TaskPhase) (t : FineTuneTask) → Owned (handle_phase c p t)
  unfolding handle_phase
  handle-Owned unset t = pending-Writes c AnyPhase t tt
  handle-Owned pending t = pending-Writes c AnyPhase t tt
  handle-Owned running t = running-Writes c AnyPhase t
  handle-Owned completed t = finished-Owned t
  handle-Owned failed t = finished-Owned t
  handle-Owned creating t = search emits_rules
  handle-Owned terminating t = search emits_rules
  handle-Owned (other _) t = search emits_rules

  task-Owned : (t : FineTuneTask) → Owned (reconcile_task c t)
  unfolding reconcile_task
  task-Owned t = search (emits_rules, emits_calls, deletion-Writes, handle-Owned, tt) depth 9

  reconcile-Owned : (key : Key) → Owned (reconcile c key)
  unfolding reconcile
  reconcile-Owned key = search (emits_rules, emits_calls, task-Owned, tt) depth 9

  pub tuning_reconcile-Writes :
      (key : Key) (w : W) → All (Writes AnyPhase) (reconcile c key (run_at w)).1.log
  tuning_reconcile-Writes key w = (reconcile-Owned key).at (run_at w) tt
