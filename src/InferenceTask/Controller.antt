-- ===== src/InferenceTask/Controller.antt =====
-- The handlers of the InferenceTask controller (inferencetask_controller.go and inference_phases.go
-- under internal/controller/inference). A handler that changes the task in memory passes the changed
-- task on; log lines are left out, and so is the branch for a deployment that could not be built,
-- since `BuildInferenceDeployment` gives one unless it panics.
pub mod Running
use kai_operator.Base.{if◌then◌else◌, String, ◌<>◌, not, Option, none, some, ◌==◌, is_some}
use kai_operator.Base.Labels.{lookup, insert}
use kai_operator.Base.Text.{ℤ}
use kai_operator.Api.Meta.{Key, key_of}
use kai_operator.Api.Task.{TaskPhase, unset, pending, creating, running, completed, failed}
use kai_operator.Api.InferenceTask.{InferenceTask, needs_external_routing}
use kai_operator.Client.{is_not_found, Action, pure, fail, lift, on, ◌>>=◌, ◌>>◌}
use kai_operator.Client.Calls.{
  get, create, update, update_status, delete, spawn, now, deployment_object, inference_task_object,
  inference_task_task,
}
use kai_operator.Host.{System}
use kai_operator.Reconcile.{Requeue, done, again, unless_not_found}
use kai_operator.DevTask.State.{is_new}
use kai_operator.InferenceTask.Model.{framework_or_engine, object_name}
use kai_operator.InferenceTask.Deployment.{build_inference_deployment}
use kai_operator.InferenceTask.Service.{ensure_task_service, cleanup_service}
use kai_operator.InferenceTask.Gateway.{get_external_url}
use kai_operator.InferenceTask.Route.{cleanup_http_route}
use kai_operator.InferenceTask.State.{
  finalizer_name, with_phase, with_url, with_pod_name, deployment_key,
}
unfoldable pub use kai_operator.InferenceTask.Controller.Running.{
  update_status_and_return, ignored, ensure_route, recreate_deployment, check_phase, check_pods,
  keep_running, handle_running_phase,
}

abbrev pub or_empty : Option String → String
or_empty none = ""
or_empty (some v) = v

-- `inference.Labels["framework"]`, which is empty if it is not set.
unfoldable pub framework_label : InferenceTask → String
framework_label t = or_empty (lookup "framework" t.meta.labels)

-- The task with the label of its framework.
unfoldable pub labelled : InferenceTask → InferenceTask
unfolding framework_or_engine insert
labelled t = record t {
  meta = record t.meta { labels = insert "framework" (framework_or_engine t) t.meta.labels };
}

module _ {W : Type 0} (o : System W) where
  unfoldable pub handle_pending_phase : InferenceTask → Action W Requeue
  handle_pending_phase t = do
    latest ← get o.client.inference_tasks (key_of t.meta)
    if not (is_new latest.status.phase) then done else do
      time ← now o.client
      let status = record latest.status { phase = creating; start_time = some time }
      on (update_status o.client.inference_tasks (record latest { status = status })) (λ _. done)
          (λ _. again)

  -- The routing part of the creating phase.
  unfoldable pub create_routing : InferenceTask → Action W InferenceTask
  unfolding ensure_route get_external_url needs_external_routing
  create_routing t = if not (needs_external_routing t) then pure t else do
    ensure_route o t
    if t.status.external_url == ""
        then (get_external_url o t >>= λ url. pure (with_url url t))
        else pure t

  -- The creating phase once the deployment is there.
  unfoldable pub finish_creating : InferenceTask → Action W Requeue
  unfolding create_routing ensure_task_service framework_or_engine
  finish_creating t = do
    let named = with_pod_name ("inference-" <> (framework_or_engine t <> ("-" <> t.meta.name))) t
    ensure_task_service o named
    routed ← create_routing named
    update_status o.client.inference_tasks (with_phase running routed)
    done

  unfoldable pub handle_creating_phase : InferenceTask → Action W Requeue
  unfolding build_inference_deployment finish_creating update_status_and_return
  handle_creating_phase t = do
    deploy ← lift (build_inference_deployment o t)
    on (lift (o.client.set_controller_reference t.meta deploy.meta))
        (λ meta.
          on (get o.client.deployments (key_of deploy.meta)) (λ _. finish_creating t)
            λ e.
              if is_not_found e
              then on (create o.client.deployments (record deploy { meta = meta }))
                  (λ _. finish_creating t) (λ e'. update_status_and_return o t failed e'.text)
              else fail e)
        (λ e. update_status_and_return o t failed e.text)

  unfoldable pub set_end_time : InferenceTask → Action W InferenceTask
  set_end_time t = if is_some t.status.end_time then pure t else do
    time ← now o.client
    update_status o.client.inference_tasks
        (record t { status = record t.status { end_time = some time } })

  -- The start of the goroutine that deletes a completed task after its time to live.
  abbrev pub schedule_deletion : InferenceTask → Option ℤ → TaskPhase → Action W Requeue
  schedule_deletion t (some ttl) completed = spawn t ttl >> done
  schedule_deletion t _ _ = done

  unfoldable pub handle_finished_phase : InferenceTask → Action W Requeue
  unfolding set_end_time
  handle_finished_phase t = do
    ended ← set_end_time t
    schedule_deletion ended ended.spec.ttl_seconds ended.status.phase

  unfoldable pub delete_deployment : Key → Action W (Unit {0})
  delete_deployment key =
      on (get o.client.deployments key)
        (λ deploy. on (delete o.client.deployments deploy) (λ _. pure tt) (unless_not_found tt))
        (λ _. pure tt)

  unfoldable pub cleanup_resources : InferenceTask → Action W (Unit {0})
  unfolding delete_deployment object_name cleanup_service cleanup_http_route
  cleanup_resources t = do
    delete_deployment (deployment_key t)
    cleanup_service o t
    cleanup_http_route o t

  unfoldable pub handle_deletion : InferenceTask → Action W Requeue
  unfolding cleanup_resources
  handle_deletion t = if not (o.client.contains_finalizer t.meta finalizer_name) then done else do
    cleanup_resources t
    update o.client.inference_tasks
        (record t { meta = o.client.remove_finalizer t.meta finalizer_name })
    done

  -- The `switch` on the phase.
  unfoldable pub handle_phase : TaskPhase → InferenceTask → Action W Requeue
  unfolding handle_pending_phase handle_creating_phase handle_running_phase handle_finished_phase
  handle_phase unset t = handle_pending_phase t
  handle_phase pending t = handle_pending_phase t
  handle_phase creating t = handle_creating_phase t
  handle_phase running t = handle_running_phase o t
  handle_phase completed t = handle_finished_phase t
  handle_phase failed t = handle_finished_phase t
  handle_phase _ t = again

  -- A reconciliation of a task whose label does not name its framework writes the label and ends.
  unfoldable pub label_framework : InferenceTask → Action W Requeue
  unfolding labelled
  label_framework t = update o.client.inference_tasks (labelled t) >> done

  unfoldable pub add_finalizer : InferenceTask → Action W Requeue
  add_finalizer t =
      update o.client.inference_tasks
        (record t { meta = o.client.add_finalizer t.meta finalizer_name })
      >> done

  -- `Reconcile` once the task has its label.
  unfoldable pub reconcile_labelled : InferenceTask → Action W Requeue
  unfolding handle_deletion add_finalizer handle_phase
  reconcile_labelled t =
      if is_some t.meta.deletion_timestamp
      then handle_deletion t
      else if not (o.client.contains_finalizer t.meta finalizer_name)
      then add_finalizer t
      else handle_phase t.status.phase t

  -- `Reconcile` after the task was read.
  unfoldable pub reconcile_task : InferenceTask → Action W Requeue
  unfolding framework_label label_framework reconcile_labelled framework_or_engine
  reconcile_task t =
      if not (framework_label t == framework_or_engine t)
      then label_framework t
      else reconcile_labelled t

  unfoldable pub reconcile : Key → Action W Requeue
  unfolding reconcile_task
  reconcile key = on (get o.client.inference_tasks key) reconcile_task (unless_not_found none)
