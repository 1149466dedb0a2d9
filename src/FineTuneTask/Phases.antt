-- ===== src/FineTuneTask/Phases.antt =====
-- The phases that the FineTuneTask controller writes
-- (internal/controller/finetunetask/finetunetask_controller.go).
use kai_operator.Base.{none, String, ◌≡◌, sym, subst, [], ◌∷◌, some, arith}
use kai_operator.Base.Lists.{All}
use kai_operator.Api.Meta.{Key}
use kai_operator.Api.Task.{
  TaskPhase, unset, pending, creating, terminating, other, running, completed, failed,
}
use kai_operator.Api.FineTuneTask.{FineTuneTask}
use kai_operator.Client.{run_at, on-eq-ok, ok, Client, Resource, got, success, Kind}
use kai_operator.Client.Calls.{Object, get, fine_tune_task_object, calls}
use kai_operator.Client.Writes.{IsOneOf}
use kai_operator.Manager.{fine_tune_task_setup}
use kai_operator.Api.Kube.{Job, Service}
use kai_operator.Reconcile.{requeue_delay, unless_not_found}
use kai_operator.FineTuneTask.Job.{framework_or_default}
use kai_operator.FineTuneTask.Controller.{
  object_key, ensure_job, ensure_ui_deployment, ensure_web_ui, delete_if_there, cleanup_resources,
  drop_finalizer, handle_deletion, handle_pending_phase, handle_running_phase, set_end_time,
  handle_finished_phase, handle_phase, reconcile_task, reconcile,
}
use kai_operator.FineTuneTask.Writes.{Writes}
use kai_operator.Client.Keeps.{Emits-pure, Emits, emits_rules, emits_calls}

-- The changes of phase: a new task begins to run.
pub data Edge : TaskPhase → TaskPhase → Type 0 where
  begin : Edge unset running
  start : Edge pending running
  stay : {p : TaskPhase} → Edge p p

module _ {W : Type 0} (c : Client W) where
  module _ (Q : TaskPhase → Type 0) where
    job-Writes : (f : String) (t : FineTuneTask) → Emits (Writes Q) (ensure_job c f t)
    unfolding ensure_job
    job-Writes f t = search (emits_rules, emits_calls, tt) depth 9

    ui_deployment-Writes :
        (f : String) (t : FineTuneTask) → Emits (Writes Q) (ensure_ui_deployment c f t)
    unfolding ensure_ui_deployment
    ui_deployment-Writes f t = search (emits_rules, emits_calls, tt) depth 9

    web_ui-Writes : (f : String) (t : FineTuneTask) → Emits (Writes Q) (ensure_web_ui c f t)
    unfolding ensure_web_ui
    web_ui-Writes f t = search (emits_rules, emits_calls, ui_deployment-Writes, tt) depth 9

    delete-Writes :
        {A : Type 0} ⦃o : Object A⦄ (r : Resource W A) (k : Key)
        → IsOneOf fine_tune_task_setup.owns o.kind
        → Emits (Writes Q) (delete_if_there c r k)
    unfolding delete_if_there
    delete-Writes r k h = search (emits_rules, emits_calls, h, tt) depth 9

    pub cleanup-Writes : (t : FineTuneTask) → Emits (Writes Q) (cleanup_resources c t)
    unfolding cleanup_resources
    cleanup-Writes t = search (emits_rules, delete-Writes, tt) depth 9

    pub finalizer-Writes : (t : FineTuneTask) → Emits (Writes Q) (drop_finalizer c t)
    unfolding drop_finalizer
    finalizer-Writes t = search (emits_rules, emits_calls, tt) depth 9

    pub deletion-Writes : (t : FineTuneTask) → Emits (Writes Q) (handle_deletion c t)
    unfolding handle_deletion
    deletion-Writes t = search (emits_rules, cleanup-Writes, finalizer-Writes) depth 9

    pub pending-Writes :
        (t : FineTuneTask) → Q running → Emits (Writes Q) (handle_pending_phase c t)
    unfolding handle_pending_phase
    pending-Writes t e = search (emits_rules, emits_calls, tt, e) depth 9

    pub running-Writes : (t : FineTuneTask) → Emits (Writes Q) (handle_running_phase c t)
    unfolding handle_running_phase
    running-Writes t = search (emits_rules, job-Writes, web_ui-Writes) depth 9

  end_time-Writes : (t : FineTuneTask) → Emits (Writes (Edge t.status.phase)) (set_end_time c t)
  unfolding set_end_time
  end_time-Writes t = search (emits_rules, emits_calls, stay) depth 9

  finished-Writes :
      (t : FineTuneTask) → Emits (Writes (Edge t.status.phase)) (handle_finished_phase c t)
  unfolding handle_finished_phase
  finished-Writes t =
      search (emits_rules, end_time-Writes, cleanup-Writes, finalizer-Writes) depth 9

  handle_phase-Writes :
      (p : TaskPhase) (t : FineTuneTask)
      → t.status.phase ≡ p
      → Emits (Writes (Edge p)) (handle_phase c p t)
  unfolding handle_phase
  handle_phase-Writes unset t e = pending-Writes (Edge unset) t begin
  handle_phase-Writes pending t e = pending-Writes (Edge pending) t start
  handle_phase-Writes running t e = running-Writes (Edge running) t
  handle_phase-Writes completed t e =
      subst (λ q. Emits (Writes (Edge q)) (handle_finished_phase c t)) e (finished-Writes t)
  handle_phase-Writes failed t e =
      subst (λ q. Emits (Writes (Edge q)) (handle_finished_phase c t)) e (finished-Writes t)
  handle_phase-Writes creating t e = Emits-pure _
  handle_phase-Writes terminating t e = Emits-pure _
  handle_phase-Writes (other x) t e = Emits-pure _

  reconcile_task-Writes :
      (t : FineTuneTask) → Emits (Writes (Edge t.status.phase)) (reconcile_task c t)
  unfolding reconcile_task
  reconcile_task-Writes t =
      search (emits_rules, emits_calls, deletion-Writes, handle_phase-Writes, tt) depth 9

  -- Every status that a reconciliation writes has the phase of the task that it read, or the phase
  -- running if that task is new: a running task neither completes nor fails.
  pub tuning_reconcile-Follows :
      (key : Key) (w : W) (t : FineTuneTask)
      → (c.fine_tune_tasks.get key w).0 ≡ ok t
      → All (Writes (Edge t.status.phase)) (reconcile c key (run_at w)).1.log
  unfolding reconcile
  tuning_reconcile-Follows key w t e =
      subst (λ r. All (Writes (Edge t.status.phase)) r.1.log)
        (sym (
          on-eq-ok (get c.fine_tune_tasks key) (reconcile_task c) (unless_not_found none) (run_at w)
            t (unfold get in e)))
        ((reconcile_task-Writes t).at (get c.fine_tune_tasks key (run_at w)).1
          (unfold get in (tt, tt)))

  -- A running task whose job and service can be read is at rest: the handler makes the two reads and
  -- asks for another round, whatever the status of the job and whether or not the web UI has its
  -- deployment.
  pub running_at_rest :
      (w : W) (t : FineTuneTask) (job : Job) (svc : Service)
      → let k = object_key (framework_or_default t) t in
        let w1 = (c.jobs.get k w).1 in
        (c.jobs.get k w).0 ≡ ok job
        → (c.services.get k w1).0 ≡ ok svc
        → handle_running_phase c t (run_at w) ≡ (
          ok (some requeue_delay),
          record {
            world = (c.services.get k w1).1;
            log = got Kind.service k success ∷ got Kind.job k success ∷ [];
          },
        )
  unfolding handle_running_phase calls
  running_at_rest w t job svc h k = ground arith
