-- ===== src/InferenceTask/Controller/Running.antt =====
-- The handler of the running phase, and what it shares with the others (inference_phases.go under
-- internal/controller/inference).
use kai_operator.Base.{String, ◌<>◌, not, List, [], ◌∷◌, ◌&&◌, if◌then◌else◌, is_some}
use kai_operator.Api.Kube.{Pod, PodPhase, Deployment}
use kai_operator.Api.Task.{TaskPhase, creating, completed, failed}
use kai_operator.Api.InferenceTask.{InferenceTask, needs_external_routing}
use kai_operator.Client.{is_not_found, Action, pure, fail, lift, choose, on, ◌>>=◌, ◌>>◌}
use kai_operator.Client.Calls.{
  get, create, update_status, list_pods, deployment_object, inference_task_object,
  inference_task_task,
}
use kai_operator.Host.{System}
use kai_operator.Reconcile.{Requeue, done, again}
use kai_operator.DevTask.State.{fatal_reason, is_scaled_down}
use kai_operator.InferenceTask.Model.{object_name, get_inference_port}
use kai_operator.InferenceTask.Deployment.{build_inference_deployment}
use kai_operator.InferenceTask.Service.{get_service_name, ensure_task_service}
use kai_operator.InferenceTask.Gateway.{get_external_url}
use kai_operator.InferenceTask.Route.{ensure_http_route}
use kai_operator.InferenceTask.State.{with_phase, with_message, deployment_key, pod_labels}

module _ {W : Type 0} (o : System W) where
  unfoldable pub update_status_and_return : InferenceTask → TaskPhase → String → Action W Requeue
  update_status_and_return t phase message =
      update_status o.client.inference_tasks
        (record t { status = record t.status { phase = phase; message = message } })
      >> done

  -- An action whose error is only logged.
  abbrev pub ignored : Action W (Unit {0}) → Action W (Unit {0})
  ignored m = on m (λ _. pure tt) (λ _. pure tt)

  -- `r.ensureHTTPRoute` with the name and the port of the task's service, its error logged.
  unfoldable pub ensure_route : InferenceTask → Action W (Unit {0})
  unfolding ensure_http_route get_service_name get_inference_port
  ensure_route t =
      ignored (ensure_http_route o t (get_service_name t) (get_inference_port o.getenv t))

  -- The running phase of a task whose deployment is gone.
  unfoldable pub recreate_deployment : InferenceTask → Action W Requeue
  unfolding build_inference_deployment
  recreate_deployment t = do
    deploy ← lift (build_inference_deployment o t)
    meta ← lift (o.client.set_controller_reference t.meta deploy.meta)
    create o.client.deployments (record deploy { meta = meta })
    update_status o.client.inference_tasks (with_phase creating t)
    done

  -- The `switch` on a pod's phase; `next` goes on with the next pod.
  unfoldable pub check_phase :
      PodPhase → String → InferenceTask → (InferenceTask → Action W Requeue) → Action W Requeue
  unfolding update_status_and_return
  check_phase PodPhase.pending reason t next =
      update_status o.client.inference_tasks (with_message "Pod pending" t) >>= next
  check_phase PodPhase.running reason t next =
      update_status o.client.inference_tasks (with_message "Pod running" t) >>= next
  check_phase PodPhase.succeeded reason t next =
      update_status_and_return t completed "Task completed"
  check_phase PodPhase.failed reason t next =
      update_status_and_return t failed ("Pod failed: " <> reason)
  check_phase PodPhase.unknown reason t next =
      update_status_and_return t failed ("Pod failed: " <> reason)
  check_phase (PodPhase.other _) reason t next = next t

  -- The loop over the pods; `rest` is what follows it.
  unfoldable pub check_pods :
      List Pod → InferenceTask → (InferenceTask → Action W Requeue) → Action W Requeue
  unfolding fatal_reason check_phase update_status_and_return
  check_pods [] t rest = rest t
  check_pods (p ∷ ps) t rest =
      choose (fatal_reason p.waiting)
        (λ r. update_status_and_return t failed ("Container failed: " <> r))
        (check_phase p.phase p.reason t (λ t'. check_pods ps t' rest))

  -- The running phase once the pods were looked at. The URL is stored in memory only, and the task is
  -- not used after that.
  unfoldable pub keep_running : Deployment → InferenceTask → Action W Requeue
  unfolding ensure_task_service ensure_route get_external_url needs_external_routing
      update_status_and_return
  keep_running deploy t =
      if is_scaled_down deploy.replicas
      then update_status_and_return t completed "Task completed"
      else ignored (ensure_task_service o t)
        >> (if needs_external_routing t && not (is_some t.meta.deletion_timestamp)
            then ensure_route t >> (get_external_url o t >> again)
            else again)

  unfoldable pub handle_running_phase : InferenceTask → Action W Requeue
  unfolding recreate_deployment check_pods keep_running object_name
  handle_running_phase t =
      on (get o.client.deployments (deployment_key t))
        (λ deploy. do
          pods ← list_pods o.client t.meta.namespace (pod_labels t)
          check_pods pods t (keep_running deploy))
        (λ e. if is_not_found e then recreate_deployment t else fail e)
