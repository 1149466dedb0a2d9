-- ===== src/InferenceTask/Phases.antt =====
-- The phases that the InferenceTask controller writes (inferencetask_controller.go and
-- inference_phases.go under internal/controller/inference). The changes of phase are those of a
-- DevTask.
use kai_operator.Base.{◌≡◌, refl, sym, subst, ◌∙◌, none, some, Option, String, List, [], ◌∷◌}
use kai_operator.Base.Lists.{All}
use kai_operator.Base.Text.{ℤ}
use kai_operator.Api.Meta.{Key}
use kai_operator.Api.Kube.{Pod, PodPhase, Deployment}
use kai_operator.Api.Task.{
  TaskPhase, unset, pending, creating, running, completed, failed, terminating, other,
}
use kai_operator.Api.InferenceTask.{InferenceTask}
use kai_operator.Client.{Resource, ok, run_at, on-eq-ok, Action, ◌>>=◌}
use kai_operator.Client.Calls.{get, update_status, inference_task_object, inference_task_task}
use kai_operator.InferenceTask.Writes.{Writes}
use kai_operator.Client.Keeps.{
  Emits, Emits-pure, Emits-bind, Emits-if, Emits-bind_ok, Emits-choose, Emits-update_status,
  emits_rules, emits_calls, Emits-spawn,
}
use kai_operator.Host.{System}
use kai_operator.Reconcile.{Requeue, unless_not_found}
use kai_operator.DevTask.State.{fatal_reason}
use kai_operator.DevTask.Steps.{Edge, begin, start, deploy, abort, recreate, complete, crash, stay}
use kai_operator.InferenceTask.Quiet.{url-Writes, service-Writes, route-Writes, cleanup-Writes}
use kai_operator.InferenceTask.State.{with_message}
use kai_operator.InferenceTask.Controller.{
  update_status_and_return, handle_pending_phase, create_routing, finish_creating,
  handle_creating_phase, recreate_deployment, check_phase, check_pods, keep_running,
  handle_running_phase, set_end_time, schedule_deletion, handle_finished_phase, handle_deletion,
  handle_phase, label_framework, add_finalizer, reconcile_labelled, reconcile_task, reconcile,
}

-- The server stores the phase of a status that it accepts, as the status subresource does.
abbrev pub StoresPhase : {W : Type 0} → Resource W InferenceTask → Type 0
StoresPhase {W} r =
    (t t' : InferenceTask) (w : W)
    → (r.update_status t w).0 ≡ ok t'
    → t'.status.phase ≡ t.status.phase

module _ {W : Type 0} (o : System W) where
  pub status-Writes :
      (Q : TaskPhase → Type 0) (t : InferenceTask) (p : TaskPhase) (m : String)
      → Q p
      → Emits (Writes Q) (update_status_and_return o t p m)
  unfolding update_status_and_return
  status-Writes Q t p m h = search (emits_rules, emits_calls, h) depth 9

  pub pending-Writes :
      (p : TaskPhase) (t : InferenceTask)
      → Edge p creating
      → Emits (Writes (Edge p)) (handle_pending_phase o t)
  unfolding handle_pending_phase
  pending-Writes p t h = search (emits_rules, emits_calls, h, tt) depth 20

  pub routing-Writes :
      (Q : TaskPhase → Type 0) (t : InferenceTask) → Emits (Writes Q) (create_routing o t)
  unfolding create_routing
  routing-Writes Q t = search (emits_rules, route-Writes, url-Writes) depth 12

  finish-Writes : (t : InferenceTask) → Emits (Writes (Edge creating)) (finish_creating o t)
  unfolding finish_creating
  finish-Writes t =
      search (emits_rules, emits_calls, service-Writes, routing-Writes, deploy) depth 12

  creating-Writes : (t : InferenceTask) → Emits (Writes (Edge creating)) (handle_creating_phase o t)
  unfolding handle_creating_phase
  creating-Writes t =
      search (emits_rules, emits_calls, finish-Writes, status-Writes, abort, tt) depth 20

  recreate-Writes : (t : InferenceTask) → Emits (Writes (Edge running)) (recreate_deployment o t)
  unfolding recreate_deployment
  recreate-Writes t = search (emits_rules, emits_calls, recreate, tt) depth 20

  keep-Writes :
      (d : Deployment) (t : InferenceTask) → Emits (Writes (Edge running)) (keep_running o d t)
  unfolding keep_running
  keep-Writes d t =
      search (emits_rules, status-Writes, service-Writes, route-Writes, url-Writes, complete) depth
        20

  end_time-Writes : (t : InferenceTask) → Emits (Writes (Edge t.status.phase)) (set_end_time o t)
  unfolding set_end_time
  end_time-Writes t = search (emits_rules, emits_calls, stay) depth 9

  pub deletion-Writes :
      (Q : TaskPhase → Type 0) (t : InferenceTask) → Emits (Writes Q) (handle_deletion o t)
  unfolding handle_deletion
  deletion-Writes Q t = search (emits_rules, emits_calls, cleanup-Writes) depth 12

  pub schedule-Writes :
      (Q : TaskPhase → Type 0) (t : InferenceTask) (ttl : Option ℤ) (p : TaskPhase)
      → Emits (Writes Q) (schedule_deletion o t ttl p)
  schedule-Writes Q t none p = Emits-pure _
  schedule-Writes Q t (some ttl) completed =
      Emits-bind _ _ (Emits-spawn t ttl tt) (λ _. Emits-pure _)
  schedule-Writes Q t (some ttl) _ = Emits-pure _

  pub finished-Writes :
      (t : InferenceTask) → Emits (Writes (Edge t.status.phase)) (handle_finished_phase o t)
  unfolding handle_finished_phase
  finished-Writes t = search (emits_rules, end_time-Writes, schedule-Writes) depth 20

  pub label-Writes :
      (Q : TaskPhase → Type 0) (t : InferenceTask) → Emits (Writes Q) (label_framework o t)
  unfolding label_framework
  label-Writes Q t = search (emits_rules, emits_calls, tt) depth 9

  pub finalizer-Writes :
      (Q : TaskPhase → Type 0) (t : InferenceTask) → Emits (Writes Q) (add_finalizer o t)
  unfolding add_finalizer
  finalizer-Writes Q t = search (emits_rules, emits_calls, tt) depth 9

  module _ (stores : StoresPhase o.client.inference_tasks) where
    abbrev IsRunning : InferenceTask → Type 0
    IsRunning t = t.status.phase ≡ running

    write-Writes :
        (m : String) (t : InferenceTask) (next : InferenceTask → Action W Requeue)
        → IsRunning t
        → ((t' : InferenceTask) → IsRunning t' → Emits (Writes (Edge running)) (next t'))
        → Emits
            (Writes (Edge running))
            (update_status o.client.inference_tasks (with_message m t) >>= next)
    write-Writes m t next h k =
        Emits-bind_ok (update_status o.client.inference_tasks (with_message m t)) next
          (Emits-update_status _ _ (λ _. subst (Edge running) (sym h) stay))
          (λ s t' e. k t' (stores (with_message m t) t' s.world (unfold update_status in e) ∙ h))

    phase-Writes :
        (p : PodPhase) (reason : String) (t : InferenceTask)
        (next : InferenceTask → Action W Requeue)
        → IsRunning t
        → ((t' : InferenceTask) → IsRunning t' → Emits (Writes (Edge running)) (next t'))
        → Emits (Writes (Edge running)) (check_phase o p reason t next)
    unfolding check_phase
    phase-Writes PodPhase.pending reason t next h k = write-Writes "Pod pending" t next h k
    phase-Writes PodPhase.running reason t next h k = write-Writes "Pod running" t next h k
    phase-Writes PodPhase.succeeded reason t next h k = status-Writes _ t _ _ complete
    phase-Writes PodPhase.failed reason t next h k = status-Writes _ t _ _ crash
    phase-Writes PodPhase.unknown reason t next h k = status-Writes _ t _ _ crash
    phase-Writes (PodPhase.other x) reason t next h k = k t h

    pods-Writes :
        (ps : List Pod) (t : InferenceTask) (rest : InferenceTask → Action W Requeue)
        → IsRunning t
        → ((t' : InferenceTask) → IsRunning t' → Emits (Writes (Edge running)) (rest t'))
        → Emits (Writes (Edge running)) (check_pods o ps t rest)
    unfolding check_pods
    pods-Writes [] t rest h k = k t h
    pods-Writes (p ∷ ps) t rest h k =
        Emits-choose (fatal_reason p.waiting) _ _ (λ r. status-Writes _ t _ _ crash)
          (phase-Writes p.phase p.reason t _ h (λ t' h'. pods-Writes ps t' rest h' k))

    running-Writes :
        (t : InferenceTask) → IsRunning t → Emits (Writes (Edge running)) (handle_running_phase o t)
    unfolding handle_running_phase
    running-Writes t h =
        search (emits_rules, emits_calls, pods-Writes, keep-Writes, recreate-Writes, h, tt) depth 20

    handle_phase-Writes :
        (p : TaskPhase) (t : InferenceTask)
        → t.status.phase ≡ p
        → Emits (Writes (Edge p)) (handle_phase o p t)
    unfolding handle_phase
    handle_phase-Writes unset t e = pending-Writes unset t begin
    handle_phase-Writes pending t e = pending-Writes pending t start
    handle_phase-Writes creating t e = creating-Writes t
    handle_phase-Writes running t e = running-Writes t e
    handle_phase-Writes completed t e =
        subst (λ q. Emits (Writes (Edge q)) (handle_finished_phase o t)) e (finished-Writes t)
    handle_phase-Writes failed t e =
        subst (λ q. Emits (Writes (Edge q)) (handle_finished_phase o t)) e (finished-Writes t)
    handle_phase-Writes terminating t e = Emits-pure _
    handle_phase-Writes (other x) t e = Emits-pure _

    labelled-Writes :
        (t : InferenceTask) → Emits (Writes (Edge t.status.phase)) (reconcile_labelled o t)
    unfolding reconcile_labelled
    labelled-Writes t =
        Emits-if _ _ _ (deletion-Writes _ t)
          (Emits-if _ _ _ (finalizer-Writes _ t) (handle_phase-Writes t.status.phase t refl))

    task-Writes : (t : InferenceTask) → Emits (Writes (Edge t.status.phase)) (reconcile_task o t)
    unfolding reconcile_task
    task-Writes t = Emits-if _ _ _ (label-Writes _ t) (labelled-Writes t)

    -- For a server that stores the phase of a status it accepts: every status that a reconciliation
    -- writes has a phase that follows, by an edge, the phase of the task that it read.
    pub inference_reconcile-Follows :
        (key : Key) (w : W) (t : InferenceTask)
        → (o.client.inference_tasks.get key w).0 ≡ ok t
        → All (Writes (Edge t.status.phase)) (reconcile o key (run_at w)).1.log
    unfolding reconcile
    inference_reconcile-Follows key w t e =
        subst (λ r. All (Writes (Edge t.status.phase)) r.1.log)
          (sym (
            on-eq-ok (get o.client.inference_tasks key) (reconcile_task o) (unless_not_found none)
              (run_at w) t (unfold get in e)))
          ((task-Writes t).at (get o.client.inference_tasks key (run_at w)).1
            (unfold get in (tt, tt)))
