-- ===== src/DevTask/Calls.antt =====
-- The kinds of objects that the DevTask controller creates, changes and deletes
-- (devtask_controller.go and devtask_phases.go under internal/controller/devtask). The server may
-- answer anything.
use kai_operator.Base.{String, List, [], ◌∷◌}
use kai_operator.Base.Lists.{All}
use kai_operator.Api.Meta.{Key}
use kai_operator.Api.Kube.{Pod, PodPhase, Deployment}
use kai_operator.Api.Task.{
  TaskPhase, unset, pending, creating, running, completed, failed, terminating, other,
}
use kai_operator.Api.DevTask.{DevTask}
use kai_operator.Client.{run_at, Action}
use kai_operator.Client.Writes.{AnyPhase}
use kai_operator.Client.Keeps.{Emits, Emits-choose, emits_rules, emits_calls}
use kai_operator.Host.{System}
use kai_operator.Reconcile.{Requeue}
use kai_operator.DevTask.Writes.{Writes}
use kai_operator.DevTask.Quiet.{service-Writes, ensure_route-Writes}
use kai_operator.DevTask.State.{fatal_reason}
use kai_operator.DevTask.Steps.{
  status-Writes, fallback-Writes, deployment_url-Writes, routing-Writes, deletion-Writes,
}
use kai_operator.DevTask.Phases.{schedule-Writes}
use kai_operator.DevTask.Controller.{
  handle_pending_phase, finish_creating, handle_creating_phase, recreate_deployment, check_phase,
  check_pods, keep_running, handle_running_phase, set_end_time, handle_finished_phase, handle_phase,
  add_finalizer, reconcile_task, reconcile,
}

module _ {W : Type 0} (o : System W) where
  -- Its calls keep to the kinds that it owns.
  abbrev Owned : {A : Type 0} → Action W A → Type 0
  Owned m = Emits (Writes AnyPhase) m

  pending-Owned : (t : DevTask) → Owned (handle_pending_phase o t)
  unfolding handle_pending_phase
  pending-Owned t = search (emits_rules, emits_calls, tt) depth 20

  finish-Owned : (t : DevTask) → Owned (finish_creating o t)
  unfolding finish_creating
  finish-Owned t = search (emits_rules, emits_calls, service-Writes, routing-Writes) depth 12

  creating-Owned : (t : DevTask) → Owned (handle_creating_phase o t)
  unfolding handle_creating_phase
  creating-Owned t =
      search (emits_rules, emits_calls, finish-Owned, deployment_url-Writes, status-Writes, tt)
        depth 20

  recreate-Owned : (t : DevTask) → Owned (recreate_deployment o t)
  unfolding recreate_deployment
  recreate-Owned t = search (emits_rules, emits_calls, deployment_url-Writes, tt) depth 20

  keep-Owned : (d : Deployment) (t : DevTask) → Owned (keep_running o d t)
  unfolding keep_running
  keep-Owned d t =
      search
        (
          emits_rules, emits_calls, status-Writes, service-Writes, ensure_route-Writes,
          fallback-Writes, tt,
        )
        depth 20

  phase-Owned :
      (p : PodPhase) (reason : String) (t : DevTask) (next : DevTask → Action W Requeue)
      → ((t' : DevTask) → Owned (next t'))
      → Owned (check_phase o p reason t next)
  unfolding check_phase
  phase-Owned PodPhase.pending reason t next h = search (emits_rules, emits_calls, h, tt)
  phase-Owned PodPhase.running reason t next h = search (emits_rules, emits_calls, h, tt)
  phase-Owned PodPhase.succeeded reason t next h = status-Writes o _ t _ _ tt
  phase-Owned PodPhase.failed reason t next h = status-Writes o _ t _ _ tt
  phase-Owned PodPhase.unknown reason t next h = status-Writes o _ t _ _ tt
  phase-Owned (PodPhase.other _) reason t next h = h t

  pods-Owned :
      (ps : List Pod) (t : DevTask) (rest : DevTask → Action W Requeue)
      → ((t' : DevTask) → Owned (rest t'))
      → Owned (check_pods o ps t rest)
  unfolding check_pods
  pods-Owned [] t rest h = h t
  pods-Owned (p ∷ ps) t rest h =
      Emits-choose (fatal_reason p.waiting) _ _ (λ r. status-Writes o _ t _ _ tt)
        (phase-Owned p.phase p.reason t _ (λ t'. pods-Owned ps t' rest h))

  running-Owned : (t : DevTask) → Owned (handle_running_phase o t)
  unfolding handle_running_phase
  running-Owned t =
      search (emits_rules, emits_calls, pods-Owned, keep-Owned, recreate-Owned, tt) depth 20

  end_time-Owned : (t : DevTask) → Owned (set_end_time o t)
  unfolding set_end_time
  end_time-Owned t = search (emits_rules, emits_calls, tt) depth 9

  finished-Owned : (t : DevTask) → Owned (handle_finished_phase o t)
  unfolding handle_finished_phase
  finished-Owned t =
      search (emits_rules, end_time-Owned, service-Writes, ensure_route-Writes, schedule-Writes)
        depth 20

  handle-Owned : (p : TaskPhase) (t : DevTask) → Owned (handle_phase o p t)
  unfolding handle_phase
  handle-Owned unset t = pending-Owned t
  handle-Owned pending t = pending-Owned t
  handle-Owned creating t = creating-Owned t
  handle-Owned running t = running-Owned t
  handle-Owned completed t = finished-Owned t
  handle-Owned failed t = finished-Owned t
  handle-Owned terminating t = search emits_rules
  handle-Owned (other _) t = search emits_rules

  task-Owned : (t : DevTask) → Owned (reconcile_task o t)
  unfolding reconcile_task add_finalizer
  task-Owned t = search (emits_rules, emits_calls, deletion-Writes, handle-Owned, tt) depth 12

  reconcile-Owned : (key : Key) → Owned (reconcile o key)
  unfolding reconcile
  reconcile-Owned key = search (emits_rules, emits_calls, task-Owned, tt) depth 9

  pub dev_reconcile-Writes :
      (key : Key) (w : W) → All (Writes AnyPhase) (reconcile o key (run_at w)).1.log
  dev_reconcile-Writes key w = (reconcile-Owned key).at (run_at w) tt
