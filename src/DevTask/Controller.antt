-- ===== src/DevTask/Controller.antt =====
-- The handlers of the DevTask controller (devtask_controller.go and devtask_phases.go under
-- internal/controller/devtask). A handler that changes the task in memory passes the changed task
-- on; log lines are left out, and so is the branch for a deployment that could not be built, since
-- `BuildDeployment` gives one always.
pub mod Running
use kai_operator.Base.{if◌then◌else◌, ◌<>◌, not, Option, none, some, is_some}
use kai_operator.Base.Labels.{insert}
use kai_operator.Base.Text.{ℤ}
use kai_operator.Api.Meta.{Key, key_of}
use kai_operator.Api.Task.{TaskPhase, unset, pending, creating, running, completed, failed}
use kai_operator.Api.DevTask.{DevTask}
use kai_operator.Client.{is_not_found, Action, pure, fail, lift, on, ◌>>=◌, ◌>>◌}
use kai_operator.Client.Calls.{
  get, create, update, update_status, delete, spawn, now, deployment_object, dev_task_object,
  dev_task_task,
}
use kai_operator.Host.{System}
use kai_operator.Reconcile.{Requeue, done, again, unless_not_found}
use kai_operator.DevTask.Framework.{
  finalizer_name, get_framework, get_deployment_name, get_service_name_for_task,
  get_service_port_for_task,
}
use kai_operator.DevTask.Gateway.{needs_external_routing}
use kai_operator.DevTask.Route.{create_http_route, ensure_http_route, cleanup_http_route}
use kai_operator.DevTask.Deployment.{build_deployment, create_service, cleanup_service}
use kai_operator.DevTask.State.{with_phase, with_url, with_pod_name, deployment_key, is_new}
unfoldable pub use kai_operator.DevTask.Controller.Running.{
  update_status_and_return, url_or_fallback, deployment_url, ignored, recreate_deployment,
  check_phase, check_pods, keep_running, handle_running_phase,
}

module _ {W : Type 0} (o : System W) where
  unfoldable pub handle_pending_phase : DevTask → Action W Requeue
  unfolding get_framework
  handle_pending_phase t = do
    latest ← get o.client.dev_tasks (key_of t.meta)
    if not (is_new latest.status.phase) then done else do
      t1 ← get o.client.dev_tasks (key_of latest.meta)
      let labels = insert "framework" (get_framework t1) t1.meta.labels
      on (update o.client.dev_tasks (record t1 { meta = record t1.meta { labels = labels } }))
          (λ t2. do
            t3 ← get o.client.dev_tasks (key_of t2.meta)
            time ← now o.client
            let status = record t3.status { phase = creating; start_time = some time }
            on (update_status o.client.dev_tasks (record t3 { status = status })) (λ _. done)
                (λ _. again))
          (λ _. again)

  -- The routing part of the creating phase.
  unfoldable pub create_routing : DevTask → Action W DevTask
  unfolding create_http_route get_service_name_for_task get_service_port_for_task url_or_fallback
      needs_external_routing
  create_routing t = if not (needs_external_routing t) then pure t else do
    ignored o
        (create_http_route o t (get_service_name_for_task t) (get_service_port_for_task o.getenv t))
    url ← url_or_fallback o t
    pure (with_url url t)

  -- The creating phase once the deployment is there.
  unfoldable pub finish_creating : DevTask → Action W Requeue
  unfolding create_routing create_service get_framework
  finish_creating t = do
    let named = with_pod_name ("devtask-" <> (get_framework t <> ("-" <> t.meta.name))) t
    create_service o named
    routed ← create_routing named
    update_status o.client.dev_tasks (with_phase running routed)
    done

  unfoldable pub handle_creating_phase : DevTask → Action W Requeue
  unfolding deployment_url build_deployment finish_creating update_status_and_return
  handle_creating_phase t = do
    url ← deployment_url o t
    let deploy = build_deployment o t url
    on (lift (o.client.set_controller_reference t.meta deploy.meta))
        (λ meta.
          on (get o.client.deployments (key_of deploy.meta)) (λ _. finish_creating t)
            λ e.
              if is_not_found e
              then on (create o.client.deployments (record deploy { meta = meta }))
                  (λ _. finish_creating t) (λ e'. update_status_and_return o t failed e'.text)
              else fail e)
        (λ e. update_status_and_return o t failed e.text)

  unfoldable pub set_end_time : DevTask → Action W DevTask
  set_end_time t = if is_some t.status.end_time then pure t else do
    time ← now o.client
    update_status o.client.dev_tasks
        (record t { status = record t.status { end_time = some time } })

  -- The start of the goroutine that deletes a completed task after its time to live.
  abbrev pub schedule_deletion : DevTask → Option ℤ → TaskPhase → Action W Requeue
  schedule_deletion t (some ttl) completed = spawn t ttl >> done
  schedule_deletion t _ _ = done

  unfoldable pub handle_finished_phase : DevTask → Action W Requeue
  unfolding set_end_time create_service ensure_http_route needs_external_routing
  handle_finished_phase t = do
    ended ← set_end_time t
    ignored o (create_service o ended)
    if needs_external_routing ended then ignored o (ensure_http_route o ended) else pure tt
    schedule_deletion ended ended.spec.ttl_seconds ended.status.phase

  unfoldable pub cleanup_resources : DevTask → Action W (Unit {0})
  unfolding get_deployment_name cleanup_service cleanup_http_route
  cleanup_resources t = do
    on (get o.client.deployments (deployment_key t))
        (λ deploy. on (delete o.client.deployments deploy) (λ _. pure tt) (unless_not_found tt))
        (λ _. pure tt)
    cleanup_service o t
    cleanup_http_route o t

  unfoldable pub handle_deletion : DevTask → Action W Requeue
  unfolding cleanup_resources
  handle_deletion t = if not (o.client.contains_finalizer t.meta finalizer_name) then done else do
    cleanup_resources t
    update o.client.dev_tasks (record t { meta = o.client.remove_finalizer t.meta finalizer_name })
    done

  -- The `switch` on the phase.
  unfoldable pub handle_phase : TaskPhase → DevTask → Action W Requeue
  unfolding handle_pending_phase handle_creating_phase handle_running_phase handle_finished_phase
  handle_phase unset t = handle_pending_phase t
  handle_phase pending t = handle_pending_phase t
  handle_phase creating t = handle_creating_phase t
  handle_phase running t = handle_running_phase o t
  handle_phase completed t = handle_finished_phase t
  handle_phase failed t = handle_finished_phase t
  handle_phase _ t = again

  -- The finalizer is added first, and the reconciliation goes on with the task that was stored.
  unfoldable pub add_finalizer : DevTask → Action W DevTask
  add_finalizer t =
      if o.client.contains_finalizer t.meta finalizer_name
      then pure t
      else update o.client.dev_tasks
          (record t { meta = o.client.add_finalizer t.meta finalizer_name })

  -- `Reconcile` after the task was read.
  unfoldable pub reconcile_task : DevTask → Action W Requeue
  unfolding handle_deletion add_finalizer handle_phase
  reconcile_task t =
      if is_some t.meta.deletion_timestamp
      then handle_deletion t
      else do held ← add_finalizer t; handle_phase held.status.phase held

  unfoldable pub reconcile : Key → Action W Requeue
  unfolding reconcile_task
  reconcile key = on (get o.client.dev_tasks key) reconcile_task (unless_not_found none)
