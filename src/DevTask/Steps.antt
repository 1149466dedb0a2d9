-- ===== src/DevTask/Steps.antt =====
-- The changes of phase of a DevTask, and the parts of the handlers that keep to them before the pods
-- are looked at (devtask_phases.go under internal/controller/devtask).
use kai_operator.Base.{◌≡◌, ◌⊎◌, inl, inr, refl, arith, String}
use kai_operator.Api.Task.{TaskPhase, unset, pending, creating, running, completed, failed}
use kai_operator.Api.DevTask.{DevTask}
use kai_operator.Client.{ok, Resource}
use kai_operator.Client.Calls.{dev_task_object, dev_task_task}
use kai_operator.DevTask.Writes.{Writes}
use kai_operator.Client.Keeps.{Emits, emits_rules, emits_calls}
use kai_operator.Host.{System}
use kai_operator.DevTask.Quiet.{
  url-Writes, service-Writes, cleanup_service-Writes, create_route-Writes, cleanup_route-Writes,
}
use kai_operator.DevTask.Controller.{
  update_status_and_return, url_or_fallback, deployment_url, handle_pending_phase, create_routing,
  finish_creating, handle_creating_phase, recreate_deployment, set_end_time, cleanup_resources,
  handle_deletion,
}

-- The changes of phase: a new task is created, a created one runs or fails, a running one ends or is
-- created again.
pub data Edge : TaskPhase → TaskPhase → Type 0 where
  begin : Edge unset creating
  start : Edge pending creating
  deploy : Edge creating running
  abort : Edge creating failed
  recreate : Edge running creating
  complete : Edge running completed
  crash : Edge running failed
  stay : {p : TaskPhase} → Edge p p

pub edge_ended : (p r : TaskPhase) → (p ≡ completed) ⊎ (p ≡ failed) → Edge p r → r ≡ p
edge_ended p r h stay = refl
edge_ended p r h _ = ground arith

pub edge_running : (p : TaskPhase) → Edge p running → (p ≡ creating) ⊎ (p ≡ running)
edge_running p deploy = inl refl
edge_running p stay = inr refl

-- The server stores the phase of a status that it accepts, as the status subresource does.
abbrev pub StoresPhase : {W : Type 0} → Resource W DevTask → Type 0
StoresPhase {W} r =
    (t t' : DevTask) (w : W) → (r.update_status t w).0 ≡ ok t' → t'.status.phase ≡ t.status.phase

module _ {W : Type 0} (o : System W) where
  pub status-Writes :
      (Q : TaskPhase → Type 0) (t : DevTask) (p : TaskPhase) (m : String)
      → Q p
      → Emits (Writes Q) (update_status_and_return o t p m)
  unfolding update_status_and_return
  status-Writes Q t p m h = search (emits_rules, emits_calls, h) depth 9

  pub fallback-Writes :
      (Q : TaskPhase → Type 0) (t : DevTask) → Emits (Writes Q) (url_or_fallback o t)
  unfolding url_or_fallback
  fallback-Writes Q t = search (emits_rules, url-Writes) depth 9

  pub deployment_url-Writes :
      (Q : TaskPhase → Type 0) (t : DevTask) → Emits (Writes Q) (deployment_url o t)
  unfolding deployment_url
  deployment_url-Writes Q t = search (emits_rules, fallback-Writes) depth 9

  pub pending-Writes :
      (p : TaskPhase) (t : DevTask)
      → Edge p creating
      → Emits (Writes (Edge p)) (handle_pending_phase o t)
  unfolding handle_pending_phase
  pending-Writes p t h = search (emits_rules, emits_calls, h, tt) depth 20

  pub routing-Writes :
      (Q : TaskPhase → Type 0) (t : DevTask) → Emits (Writes Q) (create_routing o t)
  unfolding create_routing
  routing-Writes Q t = search (emits_rules, create_route-Writes, fallback-Writes) depth 12

  pub finish-Writes : (t : DevTask) → Emits (Writes (Edge creating)) (finish_creating o t)
  unfolding finish_creating
  finish-Writes t =
      search (emits_rules, emits_calls, service-Writes, routing-Writes, deploy) depth 12

  pub creating-Writes : (t : DevTask) → Emits (Writes (Edge creating)) (handle_creating_phase o t)
  unfolding handle_creating_phase
  creating-Writes t =
      search
        (emits_rules, emits_calls, deployment_url-Writes, finish-Writes, status-Writes, abort, tt)
        depth 20

  pub recreate-Writes : (t : DevTask) → Emits (Writes (Edge running)) (recreate_deployment o t)
  unfolding recreate_deployment
  recreate-Writes t =
      search (emits_rules, emits_calls, deployment_url-Writes, recreate, tt) depth 20

  pub end_time-Writes : (t : DevTask) → Emits (Writes (Edge t.status.phase)) (set_end_time o t)
  unfolding set_end_time
  end_time-Writes t = search (emits_rules, emits_calls, stay) depth 9

  pub cleanup-Writes :
      (Q : TaskPhase → Type 0) (t : DevTask) → Emits (Writes Q) (cleanup_resources o t)
  unfolding cleanup_resources
  cleanup-Writes Q t =
      search (emits_rules, emits_calls, cleanup_service-Writes, cleanup_route-Writes, tt) depth 12

  pub deletion-Writes :
      (Q : TaskPhase → Type 0) (t : DevTask) → Emits (Writes Q) (handle_deletion o t)
  unfolding handle_deletion
  deletion-Writes Q t = search (emits_rules, emits_calls, cleanup-Writes) depth 12
