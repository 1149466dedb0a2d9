-- ===== src/DevTask/Phases.antt =====
-- The phases that the DevTask controller writes (devtask_controller.go and devtask_phases.go under
-- internal/controller/devtask).
use kai_operator.Base.{◌≡◌, refl, sym, subst, ◌∙◌, true, none, some, Option, String, List, [], ◌∷◌}
use kai_operator.Base.Lists.{All}
use kai_operator.Base.Text.{ℤ}
use kai_operator.Api.Meta.{Key}
use kai_operator.Api.Kube.{Pod, PodPhase, Deployment}
use kai_operator.Api.Task.{
  TaskPhase, unset, pending, creating, running, completed, failed, terminating, other,
}
use kai_operator.Api.DevTask.{DevTask}
use kai_operator.Client.{ok, run_at, on-eq-ok, Action, ◌>>=◌}
use kai_operator.Client.Calls.{get, update_status, dev_task_object, dev_task_task}
use kai_operator.DevTask.Writes.{Writes}
use kai_operator.Client.Keeps.{
  Emits, Emits-pure, Emits-bind, Emits-if, Emits-bind_ok, Emits-choose, Emits-update_status,
  emits_rules, emits_calls, Emits-spawn,
}
use kai_operator.Host.{System}
use kai_operator.Reconcile.{Requeue, unless_not_found}
use kai_operator.DevTask.Framework.{finalizer_name}
use kai_operator.DevTask.Quiet.{service-Writes, ensure_route-Writes}
use kai_operator.DevTask.Controller.{
  schedule_deletion, check_phase, check_pods, keep_running, handle_running_phase,
  handle_finished_phase, handle_phase, add_finalizer, reconcile_task, reconcile,
}
use kai_operator.DevTask.State.{with_message, fatal_reason}
use kai_operator.DevTask.Steps.{
  Edge, begin, start, complete, crash, stay, StoresPhase, status-Writes, fallback-Writes,
  pending-Writes, creating-Writes, recreate-Writes, end_time-Writes, deletion-Writes,
}

module _ {W : Type 0} (o : System W) where
  pub schedule-Writes :
      (Q : TaskPhase → Type 0) (t : DevTask) (ttl : Option ℤ) (p : TaskPhase)
      → Emits (Writes Q) (schedule_deletion o t ttl p)
  schedule-Writes Q t none p = Emits-pure _
  schedule-Writes Q t (some ttl) completed =
      Emits-bind _ _ (Emits-spawn t ttl tt) (λ _. Emits-pure _)
  schedule-Writes Q t (some ttl) _ = Emits-pure _

  pub finished-Writes :
      (t : DevTask) → Emits (Writes (Edge t.status.phase)) (handle_finished_phase o t)
  unfolding handle_finished_phase
  finished-Writes t =
      search (emits_rules, end_time-Writes, service-Writes, ensure_route-Writes, schedule-Writes)
        depth 20

  module _ (stores : StoresPhase o.client.dev_tasks) where
    abbrev IsRunning : DevTask → Type 0
    IsRunning t = t.status.phase ≡ running

    keep-Writes :
        (d : Deployment) (t : DevTask)
        → IsRunning t
        → Emits (Writes (Edge running)) (keep_running o d t)
    unfolding keep_running
    keep-Writes d t h =
        let same : Edge running t.status.phase = subst (Edge running) (sym h) stay in
        search
          (
            emits_rules, emits_calls, status-Writes, service-Writes, ensure_route-Writes,
            fallback-Writes, complete, same,
          )
          depth 20

    write-Writes :
        (m : String) (t : DevTask) (next : DevTask → Action W Requeue)
        → IsRunning t
        → ((t' : DevTask) → IsRunning t' → Emits (Writes (Edge running)) (next t'))
        → Emits
            (Writes (Edge running))
            (update_status o.client.dev_tasks (with_message m t) >>= next)
    write-Writes m t next h k =
        Emits-bind_ok (update_status o.client.dev_tasks (with_message m t)) next
          (Emits-update_status _ _ (λ _. subst (Edge running) (sym h) stay))
          (λ s t' e. k t' (stores (with_message m t) t' s.world (unfold update_status in e) ∙ h))

    phase-Writes :
        (p : PodPhase) (reason : String) (t : DevTask) (next : DevTask → Action W Requeue)
        → IsRunning t
        → ((t' : DevTask) → IsRunning t' → Emits (Writes (Edge running)) (next t'))
        → Emits (Writes (Edge running)) (check_phase o p reason t next)
    unfolding check_phase
    phase-Writes PodPhase.pending reason t next h k = write-Writes "Pod pending" t next h k
    phase-Writes PodPhase.running reason t next h k = write-Writes "Pod running" t next h k
    phase-Writes PodPhase.succeeded reason t next h k = status-Writes o _ t _ _ complete
    phase-Writes PodPhase.failed reason t next h k = status-Writes o _ t _ _ crash
    phase-Writes PodPhase.unknown reason t next h k = status-Writes o _ t _ _ crash
    phase-Writes (PodPhase.other x) reason t next h k = k t h

    pods-Writes :
        (ps : List Pod) (t : DevTask) (rest : DevTask → Action W Requeue)
        → IsRunning t
        → ((t' : DevTask) → IsRunning t' → Emits (Writes (Edge running)) (rest t'))
        → Emits (Writes (Edge running)) (check_pods o ps t rest)
    unfolding check_pods
    pods-Writes [] t rest h k = k t h
    pods-Writes (p ∷ ps) t rest h k =
        Emits-choose (fatal_reason p.waiting) _ _ (λ r. status-Writes o _ t _ _ crash)
          (phase-Writes p.phase p.reason t _ h (λ t' h'. pods-Writes ps t' rest h' k))

    running-Writes :
        (t : DevTask) → IsRunning t → Emits (Writes (Edge running)) (handle_running_phase o t)
    unfolding handle_running_phase
    running-Writes t h =
        search (emits_rules, emits_calls, pods-Writes, keep-Writes, recreate-Writes, h, tt) depth 20

    handle_phase-Writes :
        (p : TaskPhase) (t : DevTask)
        → t.status.phase ≡ p
        → Emits (Writes (Edge p)) (handle_phase o p t)
    unfolding handle_phase
    handle_phase-Writes unset t e = pending-Writes o unset t begin
    handle_phase-Writes pending t e = pending-Writes o pending t start
    handle_phase-Writes creating t e = creating-Writes o t
    handle_phase-Writes running t e = running-Writes t e
    handle_phase-Writes completed t e =
        subst (λ q. Emits (Writes (Edge q)) (handle_finished_phase o t)) e (finished-Writes t)
    handle_phase-Writes failed t e =
        subst (λ q. Emits (Writes (Edge q)) (handle_finished_phase o t)) e (finished-Writes t)
    handle_phase-Writes terminating t e = Emits-pure _
    handle_phase-Writes (other x) t e = Emits-pure _

    held-Writes :
        (t : DevTask)
        → o.client.contains_finalizer t.meta finalizer_name ≡ true
        → Emits
            (Writes (Edge t.status.phase))
            (add_finalizer o t >>= λ held. handle_phase o held.status.phase held)
    unfolding add_finalizer
    held-Writes t h =
        rw h (record { at = λ s k. (handle_phase-Writes t.status.phase t refl).at s k })

    reconcile_task-Writes :
        (t : DevTask)
        → o.client.contains_finalizer t.meta finalizer_name ≡ true
        → Emits (Writes (Edge t.status.phase)) (reconcile_task o t)
    unfolding reconcile_task
    reconcile_task-Writes t h = Emits-if _ _ _ (deletion-Writes o _ t) (held-Writes t h)

    -- For a server that stores the phase of a status it accepts: every status that a reconciliation of
    -- a task with its finalizer writes has a phase that follows, by an edge, the phase of the task that
    -- it read.
    pub dev_reconcile-Follows :
        (key : Key) (w : W) (t : DevTask)
        → (o.client.dev_tasks.get key w).0 ≡ ok t
        → o.client.contains_finalizer t.meta finalizer_name ≡ true
        → All (Writes (Edge t.status.phase)) (reconcile o key (run_at w)).1.log
    unfolding reconcile
    dev_reconcile-Follows key w t e h =
        subst (λ r. All (Writes (Edge t.status.phase)) r.1.log)
          (sym (
            on-eq-ok (get o.client.dev_tasks key) (reconcile_task o) (unless_not_found none)
              (run_at w) t (unfold get in e)))
          ((reconcile_task-Writes t h).at (get o.client.dev_tasks key (run_at w)).1
            (unfold get in (tt, tt)))
