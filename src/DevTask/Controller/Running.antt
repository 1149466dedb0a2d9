-- ===== src/DevTask/Controller/Running.antt =====
-- The handler of the running phase, and what it shares with the others (devtask_phases.go under
-- internal/controller/devtask).
use kai_operator.Base.{String, ◌<>◌, List, [], ◌∷◌, if◌then◌else◌}
use kai_operator.Api.Kube.{Pod, PodPhase, Deployment}
use kai_operator.Api.Task.{TaskPhase, creating, completed, failed}
use kai_operator.Api.DevTask
use kai_operator.Api.DevTask.{DevTask}
use kai_operator.Client.{is_not_found, Action, pure, fail, lift, choose, on, ◌>>=◌, ◌>>◌}
use kai_operator.Client.Calls.{
  get, create, update_status, list_pods, deployment_object, dev_task_object, dev_task_task,
}
use kai_operator.Host.{System}
use kai_operator.Reconcile.{Requeue, done, again}
use kai_operator.DevTask.Framework.{get_framework, get_deployment_name}
use kai_operator.DevTask.Gateway.{needs_external_routing}
use kai_operator.DevTask.Url.{get_external_url_with_gateway_ip}
use kai_operator.DevTask.Route.{ensure_http_route}
use kai_operator.DevTask.Deployment.{build_deployment, create_service}
use kai_operator.DevTask.State.{
  with_phase, with_message, with_url, deployment_key, fatal_reason, is_scaled_down, pod_labels,
}

module _ {W : Type 0} (o : System W) where
  unfoldable pub update_status_and_return : DevTask → TaskPhase → String → Action W Requeue
  update_status_and_return t phase message =
      update_status o.client.dev_tasks
        (record t { status = record t.status { phase = phase; message = message } })
      >> done

  -- The URL by the gateway's address, or that of the API type if there is none.
  unfoldable pub url_or_fallback : DevTask → Action W String
  unfolding get_external_url_with_gateway_ip
  url_or_fallback t =
      on (get_external_url_with_gateway_ip o t) pure (λ _. pure (DevTask.get_external_url t))

  unfoldable pub deployment_url : DevTask → Action W String
  unfolding url_or_fallback needs_external_routing
  deployment_url t = if needs_external_routing t then url_or_fallback t else pure ""

  -- An action whose error is only logged.
  abbrev pub ignored : Action W (Unit {0}) → Action W (Unit {0})
  ignored m = on m (λ _. pure tt) (λ _. pure tt)

  -- The running phase of a task whose deployment is gone.
  unfoldable pub recreate_deployment : DevTask → Action W Requeue
  unfolding deployment_url build_deployment
  recreate_deployment t = do
    url ← deployment_url t
    let deploy = build_deployment o t url
    meta ← lift (o.client.set_controller_reference t.meta deploy.meta)
    create o.client.deployments (record deploy { meta = meta })
    update_status o.client.dev_tasks (with_phase creating t)
    done

  -- The `switch` on a pod's phase; `next` goes on with the next pod.
  unfoldable pub check_phase :
      PodPhase → String → DevTask → (DevTask → Action W Requeue) → Action W Requeue
  unfolding update_status_and_return
  check_phase PodPhase.pending reason t next =
      update_status o.client.dev_tasks (with_message "Pod pending" t) >>= next
  check_phase PodPhase.running reason t next =
      update_status o.client.dev_tasks (with_message "Pod running" t) >>= next
  check_phase PodPhase.succeeded reason t next =
      update_status_and_return t completed "Task completed"
  check_phase PodPhase.failed reason t next =
      update_status_and_return t failed ("Pod failed: " <> reason)
  check_phase PodPhase.unknown reason t next =
      update_status_and_return t failed ("Pod failed: " <> reason)
  check_phase (PodPhase.other _) reason t next = next t

  -- The loop over the pods; `rest` is what follows it.
  unfoldable pub check_pods : List Pod → DevTask → (DevTask → Action W Requeue) → Action W Requeue
  unfolding fatal_reason check_phase update_status_and_return
  check_pods [] t rest = rest t
  check_pods (p ∷ ps) t rest =
      choose (fatal_reason p.waiting)
        (λ r. update_status_and_return t failed ("Container failed: " <> r))
        (check_phase p.phase p.reason t (λ t'. check_pods ps t' rest))

  -- The running phase once the pods were looked at.
  unfoldable pub keep_running : Deployment → DevTask → Action W Requeue
  unfolding create_service ensure_http_route url_or_fallback needs_external_routing
      update_status_and_return
  keep_running deploy t =
      if is_scaled_down deploy.replicas
      then update_status_and_return t completed "Task completed"
      else ignored (create_service o t)
        >> (if needs_external_routing t
            then ignored (ensure_http_route o t)
              >> (url_or_fallback t >>= λ url.
                  ignored (update_status o.client.dev_tasks (with_url url t) >> pure tt) >> again)
            else again)

  unfoldable pub handle_running_phase : DevTask → Action W Requeue
  unfolding recreate_deployment check_pods keep_running get_deployment_name get_framework
  handle_running_phase t =
      on (get o.client.deployments (deployment_key t))
        (λ deploy. do
          pods ← list_pods o.client t.meta.namespace (pod_labels t)
          check_pods pods t (keep_running deploy))
        (λ e. if is_not_found e then recreate_deployment t else fail e)
