-- ===== src/EvalTask/Phases.antt =====
-- The phases that the EvalTask controller writes
-- (internal/controller/evaltask/evaltask_controller.go).
use kai_operator.Base.{none, String, ◌≡◌, sym, subst}
use kai_operator.Base.Lists.{All}
use kai_operator.Api.Meta.{Key}
use kai_operator.Api.Kube.{Job}
use kai_operator.Api.Task.{
  TaskPhase, unset, pending, creating, terminating, other, running, completed, failed,
}
use kai_operator.Api.EvalTask.{EvalTask}
use kai_operator.Client.{run_at, on-eq-ok, ok, Client, Event}
use kai_operator.Client.Calls.{get, eval_task_object}
use kai_operator.EvalTask.Writes.{Writes}
use kai_operator.Client.Keeps.{Emits-pure, Emits, emits_rules, emits_calls}
use kai_operator.Reconcile.{unless_not_found}
use kai_operator.EvalTask.Controller.{
  ensure_job, record_job, cleanup_resources, drop_finalizer, handle_deletion, handle_pending_phase,
  handle_running_phase, set_end_time, handle_finished_phase, handle_phase, reconcile_task,
  reconcile,
}

-- The changes of phase: to running from a new task, to an end from running, and none.
pub data Edge : TaskPhase → TaskPhase → Type 0 where
  begin : Edge unset running
  start : Edge pending running
  complete : Edge running completed
  give_up : Edge running failed
  stay : {p : TaskPhase} → Edge p p

-- A status that is written follows an edge from the phase `p`.
abbrev pub Follows : TaskPhase → Event → Type 0
Follows p = Writes (Edge p)

module _ {W : Type 0} (c : Client W) where
  module _ (Q : TaskPhase → Type 0) where
    pub ensure_job-Writes : (f : String) (t : EvalTask) → Emits (Writes Q) (ensure_job c f t)
    unfolding ensure_job
    ensure_job-Writes f t = search (emits_rules, emits_calls, tt) depth 9

    pub cleanup_resources-Writes : (t : EvalTask) → Emits (Writes Q) (cleanup_resources c t)
    unfolding cleanup_resources
    cleanup_resources-Writes t = search (emits_rules, emits_calls, tt) depth 9

    pub drop_finalizer-Writes : (t : EvalTask) → Emits (Writes Q) (drop_finalizer c t)
    unfolding drop_finalizer
    drop_finalizer-Writes t = search (emits_rules, emits_calls, tt) depth 9

    pub handle_deletion-Writes : (t : EvalTask) → Emits (Writes Q) (handle_deletion c t)
    unfolding handle_deletion
    handle_deletion-Writes t =
        search (emits_rules, cleanup_resources-Writes, drop_finalizer-Writes) depth 9

    pub handle_pending_phase-Writes :
        (t : EvalTask) → Q running → Emits (Writes Q) (handle_pending_phase c t)
    unfolding handle_pending_phase
    handle_pending_phase-Writes t e = search (emits_rules, emits_calls, tt, e) depth 9

  record_job-Follows : (job : Job) (t : EvalTask) → Emits (Follows running) (record_job c job t)
  unfolding record_job
  record_job-Follows job t = search (emits_rules, emits_calls, stay, complete, give_up) depth 9

  handle_running_phase-Follows : (t : EvalTask) → Emits (Follows running) (handle_running_phase c t)
  unfolding handle_running_phase
  handle_running_phase-Follows t =
      search (emits_rules, emits_calls, ensure_job-Writes, record_job-Follows) depth 9

  set_end_time-Follows : (t : EvalTask) → Emits (Follows t.status.phase) (set_end_time c t)
  unfolding set_end_time
  set_end_time-Follows t = search (emits_rules, emits_calls, stay) depth 9

  handle_finished_phase-Follows :
      (t : EvalTask) → Emits (Follows t.status.phase) (handle_finished_phase c t)
  unfolding handle_finished_phase
  handle_finished_phase-Follows t =
      search (emits_rules, set_end_time-Follows, cleanup_resources-Writes, drop_finalizer-Writes)
        depth 9

  handle_phase-Follows :
      (p : TaskPhase) (t : EvalTask) → t.status.phase ≡ p → Emits (Follows p) (handle_phase c p t)
  unfolding handle_phase
  handle_phase-Follows unset t e = handle_pending_phase-Writes (Edge unset) t begin
  handle_phase-Follows pending t e = handle_pending_phase-Writes (Edge pending) t start
  handle_phase-Follows running t e = handle_running_phase-Follows t
  handle_phase-Follows completed t e =
      subst (λ q. Emits (Follows q) (handle_finished_phase c t)) e (handle_finished_phase-Follows t)
  handle_phase-Follows failed t e =
      subst (λ q. Emits (Follows q) (handle_finished_phase c t)) e (handle_finished_phase-Follows t)
  handle_phase-Follows creating t e = Emits-pure _
  handle_phase-Follows terminating t e = Emits-pure _
  handle_phase-Follows (other x) t e = Emits-pure _

  reconcile_task-Follows : (t : EvalTask) → Emits (Follows t.status.phase) (reconcile_task c t)
  unfolding reconcile_task
  reconcile_task-Follows t =
      search (emits_rules, emits_calls, handle_deletion-Writes, handle_phase-Follows, tt) depth 9

  -- Every status that a reconciliation writes has a phase that follows, by an edge, the phase of the
  -- task that it read: only a new task begins to run, and only a running one ends.
  pub reconcile-Follows :
      (key : Key) (w : W) (t : EvalTask)
      → (c.eval_tasks.get key w).0 ≡ ok t
      → All (Follows t.status.phase) (reconcile c key (run_at w)).1.log
  unfolding reconcile
  reconcile-Follows key w t e =
      subst (λ r. All (Follows t.status.phase) r.1.log)
        (sym (
          on-eq-ok (get c.eval_tasks key) (reconcile_task c) (unless_not_found none) (run_at w) t
            (unfold get in e)))
        ((reconcile_task-Follows t).at (get c.eval_tasks key (run_at w)).1 (unfold get in (tt, tt)))
