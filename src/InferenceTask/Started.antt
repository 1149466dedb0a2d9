-- ===== src/InferenceTask/Started.antt =====
-- When the InferenceTask controller writes that a task runs (handleCreatingPhase of
-- internal/controller/inference/inference_phases.go).
use kai_operator.Manager.{inference_task_setup}
use kai_operator.Base.{◌≡◌, refl, Bool, String, List, [], ◌∷◌, if◌then◌else◌, sym, subst, ◌∙◌}
use kai_operator.Api.Kube.{Pod, PodPhase, Deployment}
use kai_operator.Api.Task.{
  TaskPhase, unset, pending, creating, running, completed, failed, terminating, other,
}
use kai_operator.Api.InferenceTask.{InferenceTask}
use kai_operator.Client.{Event, run_at, Action, fail, on, is_not_found}
use kai_operator.Client.Calls.{get, create, deployment_object, inference_task_task}
use kai_operator.Client.Kept.{
  kept_rules, Kept, Kept-pure, Kept-fail, Kept-if, Kept-lift_on, Kept-lift_bind,
}
use kai_operator.Client.Order.{After}
use kai_operator.Client.Settles.{
  Settles, Settles-bind, Settles-choose, Settles-list_pods, settles_rules,
}
use kai_operator.Client.Ensured.{
  KeepsKey, is_running_write, has_deployment, found-Kept, ensured-Kept, Starts, Starts-if,
  Starts-Kept, Starts-quiet,
}
use kai_operator.Host.{System}
use kai_operator.Reconcile.{Requeue}
use kai_operator.DevTask.State.{fatal_reason}
use kai_operator.DevTask.Steps.{Edge, begin, start}
use kai_operator.InferenceTask.Phases.{
  pending-Writes, finished-Writes, deletion-Writes, finalizer-Writes, label-Writes,
}
use kai_operator.InferenceTask.State.{deployment_key}
use kai_operator.InferenceTask.Deployment.{build_inference_deployment}
use kai_operator.InferenceTask.Objects.{built_key}
use kai_operator.InferenceTask.Service.{ensure_service, ensure_task_service}
use kai_operator.InferenceTask.Gateway.{
  get_traefik_node_port_inference, get_gateway_host_ip_inference, get_host_ip, get_service_port,
  get_listener_port, get_gateway_address_and_port, get_external_url,
}
use kai_operator.InferenceTask.Route.{ensure_http_route}
use kai_operator.InferenceTask.Controller.{
  update_status_and_return, ensure_route, create_routing, finish_creating, handle_creating_phase,
  recreate_deployment, check_phase, check_pods, keep_running, handle_running_phase, handle_phase,
  reconcile_labelled, reconcile_task,
}

module _ {W : Type 0} (o : System W) {p q : Event → Bool} where
  host_ip-Settles : (name ns : String) → Settles p q (get_host_ip o name ns)
  unfolding get_host_ip get_gateway_host_ip_inference
  host_ip-Settles name ns = search settles_rules depth 12

  node_port-Settles : (ns : String) → Settles p q (get_traefik_node_port_inference o ns)
  unfolding get_traefik_node_port_inference
  node_port-Settles ns = search settles_rules depth 12

  listener_port-Settles : (name ns : String) → Settles p q (get_listener_port o name ns)
  unfolding get_listener_port get_service_port
  listener_port-Settles name ns = search settles_rules depth 14

  url-Settles : (t : InferenceTask) → Settles p q (get_external_url o t)
  unfolding get_external_url get_gateway_address_and_port
  url-Settles t =
      search (settles_rules, host_ip-Settles, node_port-Settles, listener_port-Settles) depth 14

  service-Settles : (t : InferenceTask) → Settles p q (ensure_task_service o t)
  unfolding ensure_task_service ensure_service
  service-Settles t = search settles_rules depth 14

  route-Settles : (t : InferenceTask) → Settles p q (ensure_route o t)
  unfolding ensure_route ensure_http_route
  route-Settles t = search settles_rules depth 14

  routing-Settles : (t : InferenceTask) → Settles p q (create_routing o t)
  unfolding create_routing
  routing-Settles t = search (settles_rules, route-Settles, url-Settles) depth 14

  finish-Settles : (t : InferenceTask) → Settles p q (finish_creating o t)
  unfolding finish_creating
  finish-Settles t = search (settles_rules, service-Settles, routing-Settles) depth 14

  phase-Settles :
      (x : PodPhase) (reason : String) (t : InferenceTask) (next : InferenceTask → Action W Requeue)
      → ((t' : InferenceTask) → Settles p q (next t'))
      → Settles p q (check_phase o x reason t next)
  unfolding check_phase update_status_and_return
  phase-Settles PodPhase.pending reason t next h = search (settles_rules, h)
  phase-Settles PodPhase.running reason t next h = search (settles_rules, h)
  phase-Settles PodPhase.succeeded reason t next h = search settles_rules
  phase-Settles PodPhase.failed reason t next h = search settles_rules
  phase-Settles PodPhase.unknown reason t next h = search settles_rules
  phase-Settles (PodPhase.other _) reason t next h = h t

  pods-Settles :
      (ps : List Pod) (t : InferenceTask) (rest : InferenceTask → Action W Requeue)
      → ((t' : InferenceTask) → Settles p q (rest t'))
      → Settles p q (check_pods o ps t rest)
  unfolding check_pods update_status_and_return
  pods-Settles [] t rest h = h t
  pods-Settles (x ∷ xs) t rest h =
      Settles-choose (fatal_reason x.waiting) _ _ (λ _. search settles_rules)
        (phase-Settles x.phase x.reason t _ (λ t'. pods-Settles xs t' rest h))

  keep-Settles : (d : Deployment) (t : InferenceTask) → Settles p q (keep_running o d t)
  unfolding keep_running update_status_and_return
  keep-Settles d t = search (settles_rules, service-Settles, route-Settles, url-Settles) depth 16

module _ {W : Type 0} (o : System W) {q : Event → Bool} where
  failed-Kept :
      (t : InferenceTask) (message : String)
      → Kept is_running_write q (update_status_and_return o t failed message)
  unfolding update_status_and_return
  failed-Kept t message = search kept_rules

  recreate-Kept : (t : InferenceTask) → Kept is_running_write q (recreate_deployment o t)
  unfolding recreate_deployment
  recreate-Kept t = search kept_rules depth 12

module _ {W : Type 0} (o : System W) (keeps : KeepsKey o.client) (t : InferenceTask) where
  abbrev has : Event → Bool
  has = has_deployment (deployment_key t)

  creating-Kept : Kept is_running_write has (handle_creating_phase o t)
  unfolding handle_creating_phase
  creating-Kept = Kept-lift_bind (build_inference_deployment o t) _ (λ d e.
      Kept-lift_on _ _ _
        (λ m e'.
          subst
            (λ k. Kept is_running_write has (
              on (get o.client.deployments k) (λ _. finish_creating o t)
                λ x.
                  if is_not_found x
                  then on (create o.client.deployments (record d { meta = m }))
                      (λ _. finish_creating o t) (λ y. update_status_and_return o t failed y.text)
                  else fail x))
            (sym (built_key o t d e))
            (ensured-Kept o.client.deployments (deployment_key t) (record d { meta = m })
              (λ _. finish_creating o t) (λ y. update_status_and_return o t failed y.text)
              (keeps t.meta d.meta m e' ∙ built_key o t d e) (λ _. finish-Settles o t)
              (λ y. failed-Kept o t y.text)))
        (λ y. failed-Kept o t y.text))

  running-Kept : Kept is_running_write has (handle_running_phase o t)
  unfolding handle_running_phase
  running-Kept =
      found-Kept o.client.deployments (deployment_key t) _ _
        (λ d.
          Settles-bind _ _ (Settles-list_pods o.client _ _)
            (λ pods. pods-Settles o pods t _ (keep-Settles o d)))
        (λ e. Kept-if _ _ _ (recreate-Kept o t) (Kept-fail e))

  module _ {w : W} where
    handle-Starts :
        (x : TaskPhase) → t.status.phase ≡ x → Starts is_running_write has w (handle_phase o x t)
    unfolding handle_phase
    handle-Starts unset e =
        Starts-quiet inference_task_setup.owns (Edge unset) (λ h. elim h [ ])
          (pending-Writes o unset t begin)
    handle-Starts pending e =
        Starts-quiet inference_task_setup.owns (Edge pending) (λ h. elim h [ ])
          (pending-Writes o pending t start)
    handle-Starts creating e = Starts-Kept creating-Kept
    handle-Starts running e = Starts-Kept running-Kept
    handle-Starts completed e =
        Starts-quiet inference_task_setup.owns (Edge t.status.phase)
          (subst (λ y. Edge y running → ⊥) (sym e) (λ h. elim h [ ])) (finished-Writes o t)
    handle-Starts failed e =
        Starts-quiet inference_task_setup.owns (Edge t.status.phase)
          (subst (λ y. Edge y running → ⊥) (sym e) (λ h. elim h [ ])) (finished-Writes o t)
    handle-Starts terminating e = Starts-Kept (Kept-pure _)
    handle-Starts (other _) e = Starts-Kept (Kept-pure _)

    labelled-Starts : Starts is_running_write has w (reconcile_labelled o t)
    unfolding reconcile_labelled
    labelled-Starts =
        Starts-if _ _ _
          (Starts-quiet inference_task_setup.owns (λ _. ⊥) (λ h. h) (deletion-Writes o (λ _. ⊥) t))
          (Starts-if _ _ _
            (Starts-quiet inference_task_setup.owns (λ _. ⊥) (λ h. h)
              (finalizer-Writes o (λ _. ⊥) t))
            (handle-Starts t.status.phase refl))

    task-Starts : Starts is_running_write has w (reconcile_task o t)
    unfolding reconcile_task
    task-Starts =
        Starts-if _ _ _
          (Starts-quiet inference_task_setup.owns (λ _. ⊥) (λ h. h) (label-Writes o (λ _. ⊥) t))
          labelled-Starts

  -- Where the controller reference keeps an object's name and namespace: a reconciliation of a task
  -- writes a status with the phase running only after it found the task's deployment, or the server
  -- took the one that it sent. The other calls may answer anything.
  pub inference_runs_with_deployment :
      (w : W)
      → After is_running_write
          (has_deployment (deployment_key t))
          (reconcile_task o t (run_at w)).1.log
  inference_runs_with_deployment w = task-Starts.at
