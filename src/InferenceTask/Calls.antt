-- ===== src/InferenceTask/Calls.antt =====
-- The kinds of objects that the InferenceTask controller creates, changes and deletes
-- (inferencetask_controller.go and inference_phases.go under internal/controller/inference). The
-- server may answer anything.
use kai_operator.Base.{String, List, [], ◌∷◌}
use kai_operator.Base.Lists.{All}
use kai_operator.Api.Meta.{Key}
use kai_operator.Api.Kube.{Pod, PodPhase, Deployment}
use kai_operator.Api.Task.{
  TaskPhase, unset, pending, creating, running, completed, failed, terminating, other,
}
use kai_operator.Api.InferenceTask.{InferenceTask}
use kai_operator.Client.{run_at, Action}
use kai_operator.Client.Writes.{AnyPhase}
use kai_operator.Client.Keeps.{Emits, Emits-choose, emits_rules, emits_calls}
use kai_operator.Host.{System}
use kai_operator.Reconcile.{Requeue}
use kai_operator.DevTask.State.{fatal_reason}
use kai_operator.InferenceTask.Writes.{Writes}
use kai_operator.InferenceTask.Quiet.{url-Writes, service-Writes, route-Writes}
use kai_operator.InferenceTask.Phases.{
  status-Writes, routing-Writes, deletion-Writes, schedule-Writes, label-Writes, finalizer-Writes,
}
use kai_operator.InferenceTask.Controller.{
  handle_pending_phase, finish_creating, handle_creating_phase, recreate_deployment, check_phase,
  check_pods, keep_running, handle_running_phase, set_end_time, handle_finished_phase, handle_phase,
  reconcile_labelled, reconcile_task, reconcile,
}

module _ {W : Type 0} (o : System W) where
  -- Its calls keep to the kinds that it owns.
  abbrev Owned : {A : Type 0} → Action W A → Type 0
  Owned m = Emits (Writes AnyPhase) m

  pending-Owned : (t : InferenceTask) → Owned (handle_pending_phase o t)
  unfolding handle_pending_phase
  pending-Owned t = search (emits_rules, emits_calls, tt) depth 20

  finish-Owned : (t : InferenceTask) → Owned (finish_creating o t)
  unfolding finish_creating
  finish-Owned t = search (emits_rules, emits_calls, service-Writes, routing-Writes) depth 12

  creating-Owned : (t : InferenceTask) → Owned (handle_creating_phase o t)
  unfolding handle_creating_phase
  creating-Owned t = search (emits_rules, emits_calls, finish-Owned, status-Writes, tt) depth 20

  recreate-Owned : (t : InferenceTask) → Owned (recreate_deployment o t)
  unfolding recreate_deployment
  recreate-Owned t = search (emits_rules, emits_calls, tt) depth 20

  keep-Owned : (d : Deployment) (t : InferenceTask) → Owned (keep_running o d t)
  unfolding keep_running
  keep-Owned d t =
      search (emits_rules, status-Writes, service-Writes, route-Writes, url-Writes, tt) depth 20

  phase-Owned :
      (p : PodPhase) (reason : String) (t : InferenceTask) (next : InferenceTask → Action W Requeue)
      → ((t' : InferenceTask) → Owned (next t'))
      → Owned (check_phase o p reason t next)
  unfolding check_phase
  phase-Owned PodPhase.pending reason t next h = search (emits_rules, emits_calls, h, tt)
  phase-Owned PodPhase.running reason t next h = search (emits_rules, emits_calls, h, tt)
  phase-Owned PodPhase.succeeded reason t next h = status-Writes o _ t _ _ tt
  phase-Owned PodPhase.failed reason t next h = status-Writes o _ t _ _ tt
  phase-Owned PodPhase.unknown reason t next h = status-Writes o _ t _ _ tt
  phase-Owned (PodPhase.other _) reason t next h = h t

  pods-Owned :
      (ps : List Pod) (t : InferenceTask) (rest : InferenceTask → Action W Requeue)
      → ((t' : InferenceTask) → Owned (rest t'))
      → Owned (check_pods o ps t rest)
  unfolding check_pods
  pods-Owned [] t rest h = h t
  pods-Owned (p ∷ ps) t rest h =
      Emits-choose (fatal_reason p.waiting) _ _ (λ r. status-Writes o _ t _ _ tt)
        (phase-Owned p.phase p.reason t _ (λ t'. pods-Owned ps t' rest h))

  running-Owned : (t : InferenceTask) → Owned (handle_running_phase o t)
  unfolding handle_running_phase
  running-Owned t =
      search (emits_rules, emits_calls, pods-Owned, keep-Owned, recreate-Owned, tt) depth 20

  finished-Owned : (t : InferenceTask) → Owned (handle_finished_phase o t)
  unfolding handle_finished_phase set_end_time
  finished-Owned t = search (emits_rules, emits_calls, schedule-Writes, tt) depth 20

  handle-Owned : (p : TaskPhase) (t : InferenceTask) → Owned (handle_phase o p t)
  unfolding handle_phase
  handle-Owned unset t = pending-Owned t
  handle-Owned pending t = pending-Owned t
  handle-Owned creating t = creating-Owned t
  handle-Owned running t = running-Owned t
  handle-Owned completed t = finished-Owned t
  handle-Owned failed t = finished-Owned t
  handle-Owned terminating t = search emits_rules
  handle-Owned (other _) t = search emits_rules

  task-Owned : (t : InferenceTask) → Owned (reconcile_task o t)
  unfolding reconcile_task reconcile_labelled
  task-Owned t =
      search (emits_rules, label-Writes, deletion-Writes, finalizer-Writes, handle-Owned) depth 12

  reconcile-Owned : (key : Key) → Owned (reconcile o key)
  unfolding reconcile
  reconcile-Owned key = search (emits_rules, emits_calls, task-Owned, tt) depth 9

  pub inference_reconcile-Writes :
      (key : Key) (w : W) → All (Writes AnyPhase) (reconcile o key (run_at w)).1.log
  inference_reconcile-Writes key w = (reconcile-Owned key).at (run_at w) tt
