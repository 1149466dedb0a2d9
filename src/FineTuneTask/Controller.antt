-- ===== src/FineTuneTask/Controller.antt =====
-- The handlers of the FineTuneTask controller
-- (internal/controller/finetunetask/finetunetask_controller.go). A handler that changes the task in
-- memory passes the changed task on; log lines are left out.
use kai_operator.Base.{String, none, some, if◌then◌else◌, is_some, not}
use kai_operator.Base.Labels.{insert}
use kai_operator.Api.Meta.{Key}
use kai_operator.Api.Task.{TaskPhase, unset, pending, running, completed, failed}
use kai_operator.Api.FineTuneTask.{FineTuneTask}
use kai_operator.Client.{is_not_found, Resource, Client, Action, pure, fail, lift, on, ◌>>=◌, ◌>>◌}
use kai_operator.Client.Calls.{
  Object, get, create, update, update_status, delete, now, job_object, service_object,
  deployment_object, http_route_object, fine_tune_task_object, fine_tune_task_task,
}
use kai_operator.Reconcile.{Requeue, done, again, unless_not_found}
use kai_operator.FineTuneTask.Job.{framework_or_default, object_name, build_job}
use kai_operator.FineTuneTask.WebUi.{deployment_name, ui_service, ui_deployment}

abbrev pub finalizer_name : String
finalizer_name = "finetune.kai.io/finalizer"

-- The key of the job, of the service and of the route, and that of the deployment.
abbrev pub object_key : String → FineTuneTask → Key
object_key framework t = record { name = object_name framework t; namespace = t.meta.namespace }

abbrev pub deployment_key : String → FineTuneTask → Key
deployment_key framework t = record {
  name = deployment_name framework t;
  namespace = t.meta.namespace;
}

module _ {W : Type 0} (c : Client W) where
  unfoldable pub ensure_job : String → FineTuneTask → Action W (Unit {0})
  ensure_job framework t =
      on (get c.jobs (object_key framework t)) (λ _. pure tt)
        λ e. if not (is_not_found e) then fail e else do
          job ← lift (build_job c framework t)
          meta ← lift (c.set_controller_reference t.meta job.meta)
          create c.jobs (record job { meta = meta })
          pure tt

  -- The second half of `ensureWebUI`, which follows the creation of the service.
  unfoldable pub ensure_ui_deployment : String → FineTuneTask → Action W (Unit {0})
  ensure_ui_deployment framework t =
      on (get c.deployments (deployment_key framework t)) (λ _. pure tt)
        λ e. if not (is_not_found e) then fail e else do
          let deploy = ui_deployment framework t
          meta ← lift (c.set_controller_reference t.meta deploy.meta)
          create c.deployments (record deploy { meta = meta })
          pure tt

  unfoldable pub ensure_web_ui : String → FineTuneTask → Action W (Unit {0})
  unfolding ensure_ui_deployment
  ensure_web_ui framework t =
      on (get c.services (object_key framework t)) (λ _. pure tt)
        λ e. if not (is_not_found e) then fail e else do
          let svc = ui_service framework t
          meta ← lift (c.set_controller_reference t.meta svc.meta)
          create c.services (record svc { meta = meta })
          ensure_ui_deployment framework t

  -- One of the four steps of `cleanupResources`: an object that cannot be read is left alone.
  unfoldable pub delete_if_there :
      {A : Type 0} ⦃o : Object A⦄ → Resource W A → Key → Action W (Unit {0})
  delete_if_there r k =
      on (get r k) (λ a. on (delete r a) (λ _. pure tt) (unless_not_found tt)) (λ _. pure tt)

  unfoldable pub cleanup_resources : FineTuneTask → Action W (Unit {0})
  unfolding delete_if_there
  cleanup_resources t = do
    let framework = framework_or_default t
    delete_if_there c.jobs (object_key framework t)
    delete_if_there c.services (object_key framework t)
    delete_if_there c.deployments (deployment_key framework t)
    delete_if_there c.http_routes (object_key framework t)

  -- `controllerutil.RemoveFinalizer(finetune, FinalizerName)` and the update that stores it.
  unfoldable pub drop_finalizer : FineTuneTask → Action W Requeue
  drop_finalizer t =
      update c.fine_tune_tasks (record t { meta = c.remove_finalizer t.meta finalizer_name })
      >> done

  unfoldable pub handle_deletion : FineTuneTask → Action W Requeue
  unfolding cleanup_resources drop_finalizer
  handle_deletion t =
      if c.contains_finalizer t.meta finalizer_name
      then cleanup_resources t >> drop_finalizer t
      else done

  unfoldable pub handle_pending_phase : FineTuneTask → Action W Requeue
  handle_pending_phase t =
      let labels = insert "framework" (framework_or_default t) t.meta.labels in
      on (update c.fine_tune_tasks (record t { meta = record t.meta { labels = labels } }))
        (λ stored. do
          time ← now c
          let status = record stored.status { phase = running; start_time = some time }
          on (update_status c.fine_tune_tasks (record stored { status = status })) (λ _. done)
              (λ _. again))
        (λ _. again)

  unfoldable pub handle_running_phase : FineTuneTask → Action W Requeue
  unfolding ensure_job ensure_web_ui
  handle_running_phase t = do
    let framework = framework_or_default t
    ensure_job framework t
    ensure_web_ui framework t
    again

  -- `if finetune.Status.EndTime == nil { … }`, which gives the task that the server stored.
  unfoldable pub set_end_time : FineTuneTask → Action W FineTuneTask
  set_end_time t = if is_some t.status.end_time then pure t else do
    time ← now c
    update_status c.fine_tune_tasks (record t { status = record t.status { end_time = some time } })

  unfoldable pub handle_finished_phase : FineTuneTask → Action W Requeue
  unfolding set_end_time cleanup_resources drop_finalizer
  handle_finished_phase t = do ended ← set_end_time t; cleanup_resources ended; drop_finalizer ended

  -- The `switch` on the phase.
  unfoldable pub handle_phase : TaskPhase → FineTuneTask → Action W Requeue
  unfolding handle_pending_phase handle_running_phase handle_finished_phase
  handle_phase unset t = handle_pending_phase t
  handle_phase pending t = handle_pending_phase t
  handle_phase running t = handle_running_phase t
  handle_phase completed t = handle_finished_phase t
  handle_phase failed t = handle_finished_phase t
  handle_phase _ t = again

  -- `Reconcile` after the task was read.
  unfoldable pub reconcile_task : FineTuneTask → Action W Requeue
  unfolding handle_deletion handle_phase
  reconcile_task t =
      if is_some t.meta.deletion_timestamp
      then handle_deletion t
      else if c.contains_finalizer t.meta finalizer_name
      then handle_phase t.status.phase t
      else update c.fine_tune_tasks (record t { meta = c.add_finalizer t.meta finalizer_name })
        >> done

  unfoldable pub reconcile : Key → Action W Requeue
  unfolding reconcile_task
  reconcile key = on (get c.fine_tune_tasks key) reconcile_task (unless_not_found none)
