-- ===== src/EvalTask/Calls.antt =====
-- The kinds of objects that the EvalTask controller creates, changes and deletes
-- (internal/controller/evaltask/evaltask_controller.go). The server may answer anything.
use kai_operator.Base.Lists.{All}
use kai_operator.Api.Meta.{Key}
use kai_operator.Api.Kube.{Job}
use kai_operator.Api.Task.{
  TaskPhase, unset, pending, creating, running, completed, failed, terminating, other,
}
use kai_operator.Api.EvalTask.{EvalTask}
use kai_operator.Client.{run_at, Client, Action}
use kai_operator.Client.Writes.{AnyPhase}
use kai_operator.Client.Keeps.{Emits, emits_rules, emits_calls}
use kai_operator.EvalTask.Writes.{Writes}
use kai_operator.EvalTask.Phases.{
  ensure_job-Writes, cleanup_resources-Writes, drop_finalizer-Writes, handle_deletion-Writes,
  handle_pending_phase-Writes,
}
use kai_operator.EvalTask.Controller.{
  record_job, handle_running_phase, set_end_time, handle_finished_phase, handle_phase,
  reconcile_task, reconcile,
}

module _ {W : Type 0} (c : Client W) where
  -- Its calls keep to the kinds that it owns.
  abbrev Owned : {A : Type 0} → Action W A → Type 0
  Owned m = Emits (Writes AnyPhase) m

  record-Owned : (job : Job) (t : EvalTask) → Owned (record_job c job t)
  unfolding record_job
  record-Owned job t = search (emits_rules, emits_calls, tt) depth 9

  running-Owned : (t : EvalTask) → Owned (handle_running_phase c t)
  unfolding handle_running_phase
  running-Owned t = search (emits_rules, emits_calls, ensure_job-Writes, record-Owned) depth 9

  finished-Owned : (t : EvalTask) → Owned (handle_finished_phase c t)
  unfolding handle_finished_phase set_end_time
  finished-Owned t =
      search (emits_rules, emits_calls, cleanup_resources-Writes, drop_finalizer-Writes, tt) depth
        12

  handle-Owned : (p : TaskPhase) (t : EvalTask) → Owned (handle_phase c p t)
  unfolding handle_phase
  handle-Owned unset t = handle_pending_phase-Writes c AnyPhase t tt
  handle-Owned pending t = handle_pending_phase-Writes c AnyPhase t tt
  handle-Owned running t = running-Owned t
  handle-Owned completed t = finished-Owned t
  handle-Owned failed t = finished-Owned t
  handle-Owned creating t = search emits_rules
  handle-Owned terminating t = search emits_rules
  handle-Owned (other _) t = search emits_rules

  task-Owned : (t : EvalTask) → Owned (reconcile_task c t)
  unfolding reconcile_task
  task-Owned t = search (emits_rules, emits_calls, handle_deletion-Writes, handle-Owned, tt) depth 9

  reconcile-Owned : (key : Key) → Owned (reconcile c key)
  unfolding reconcile
  reconcile-Owned key = search (emits_rules, emits_calls, task-Owned, tt) depth 9

  pub eval_reconcile-Writes :
      (key : Key) (w : W) → All (Writes AnyPhase) (reconcile c key (run_at w)).1.log
  eval_reconcile-Writes key w = (reconcile-Owned key).at (run_at w) tt
