-- ===== src/EvalTask/Controller.antt =====
-- The handlers of the EvalTask controller (internal/controller/evaltask/evaltask_controller.go). A
-- handler that changes the task in memory passes the changed task on; log lines are left out.
use kai_operator.Base.{String, none, some, List, [], ◌∷◌, if◌then◌else◌, is_some, not}
use kai_operator.Base.Labels.{insert}
use kai_operator.Base.Text.{is_pos}
use kai_operator.Api.Meta.{Key}
use kai_operator.Api.Kube.{Job}
use kai_operator.Api.Task.{TaskPhase, unset, pending, running, completed, failed}
use kai_operator.Api.EvalTask.{EvalTask}
use kai_operator.Client.{is_not_found, Client, Action, pure, fail, lift, on, ◌>>=◌, ◌>>◌}
use kai_operator.Client.Calls.{
  get, create, update, update_status, delete, now, job_object, eval_task_object, eval_task_task,
}
use kai_operator.Reconcile.{Requeue, done, again, unless_not_found}
use kai_operator.EvalTask.Job.{framework_or_default, job_name, build_job}

abbrev pub finalizer_name : String
finalizer_name = "eval.kai.io/finalizer"

-- The key of the task's job.
abbrev pub job_key : String → EvalTask → Key
job_key framework t = record { name = job_name framework t; namespace = t.meta.namespace }

-- The task with another status phase and message.
abbrev pub with_phase : TaskPhase → String → EvalTask → EvalTask
with_phase p message t = record t { status = record t.status { phase = p; message = message } }

-- `msg := "Job failed"; if len(job.Status.Conditions) > 0 { msg = job.Status.Conditions[0].Message }`
abbrev pub failure_message : List String → String
failure_message [] = "Job failed"
failure_message (m ∷ _) = m

module _ {W : Type 0} (c : Client W) where
  unfoldable pub ensure_job : String → EvalTask → Action W (Unit {0})
  ensure_job framework t =
      on (get c.jobs (job_key framework t)) (λ _. pure tt)
        λ e. if not (is_not_found e) then fail e else do
          job ← lift (build_job c framework t)
          meta ← lift (c.set_controller_reference t.meta job.meta)
          create c.jobs (record job { meta = meta })
          pure tt

  -- The part of `checkJobStatus` after the job was read.
  unfoldable pub record_job : Job → EvalTask → Action W (Unit {0})
  record_job job t =
      let named = record t { status = record t.status { pod_name = job.meta.name } } in
      if is_pos job.status.active
      then update_status c.eval_tasks (with_phase running "Job is running" named) >> pure tt
      else if is_pos job.status.succeeded
      then update_status c.eval_tasks
          (with_phase completed "Evaluation completed successfully" named)
        >> pure tt
      else if is_pos job.status.failed
      then update_status c.eval_tasks
          (with_phase failed (failure_message job.status.conditions) named)
        >> pure tt
      else pure tt

  unfoldable pub check_job_status : String → EvalTask → Action W (Unit {0})
  unfolding record_job
  check_job_status framework t =
      on (get c.jobs (job_key framework t)) (λ job. record_job job t) (unless_not_found tt)

  unfoldable pub cleanup_resources : EvalTask → Action W (Unit {0})
  cleanup_resources t =
      on (get c.jobs (job_key (framework_or_default t) t))
        (λ job. on (delete c.jobs job) (λ _. pure tt) (unless_not_found tt)) (λ _. pure tt)

  -- `controllerutil.RemoveFinalizer(eval, FinalizerName)` and the update that stores it.
  unfoldable pub drop_finalizer : EvalTask → Action W Requeue
  drop_finalizer t =
      update c.eval_tasks (record t { meta = c.remove_finalizer t.meta finalizer_name }) >> done

  unfoldable pub handle_deletion : EvalTask → Action W Requeue
  unfolding cleanup_resources drop_finalizer
  handle_deletion t =
      if c.contains_finalizer t.meta finalizer_name
      then cleanup_resources t >> drop_finalizer t
      else done

  unfoldable pub handle_pending_phase : EvalTask → Action W Requeue
  handle_pending_phase t =
      let labels = insert "framework" (framework_or_default t) t.meta.labels in
      on (update c.eval_tasks (record t { meta = record t.meta { labels = labels } }))
        (λ stored. do
          time ← now c
          let status = record stored.status { phase = running; start_time = some time }
          on (update_status c.eval_tasks (record stored { status = status })) (λ _. done)
              (λ _. again))
        (λ _. again)

  unfoldable pub handle_running_phase : EvalTask → Action W Requeue
  unfolding ensure_job check_job_status
  handle_running_phase t = do
    let framework = framework_or_default t
    ensure_job framework t
    check_job_status framework t
    again

  -- `if eval.Status.EndTime == nil { … }`, which gives the task that the server stored.
  unfoldable pub set_end_time : EvalTask → Action W EvalTask
  set_end_time t = if is_some t.status.end_time then pure t else do
    time ← now c
    update_status c.eval_tasks (record t { status = record t.status { end_time = some time } })

  unfoldable pub handle_finished_phase : EvalTask → Action W Requeue
  unfolding set_end_time cleanup_resources drop_finalizer
  handle_finished_phase t = do ended ← set_end_time t; cleanup_resources ended; drop_finalizer ended

  -- The `switch` on the phase.
  unfoldable pub handle_phase : TaskPhase → EvalTask → Action W Requeue
  unfolding handle_pending_phase handle_running_phase handle_finished_phase
  handle_phase unset t = handle_pending_phase t
  handle_phase pending t = handle_pending_phase t
  handle_phase running t = handle_running_phase t
  handle_phase completed t = handle_finished_phase t
  handle_phase failed t = handle_finished_phase t
  handle_phase _ t = again

  -- `Reconcile` after the task was read.
  unfoldable pub reconcile_task : EvalTask → Action W Requeue
  unfolding handle_deletion handle_phase
  reconcile_task t =
      if is_some t.meta.deletion_timestamp
      then handle_deletion t
      else if c.contains_finalizer t.meta finalizer_name
      then handle_phase t.status.phase t
      else update c.eval_tasks (record t { meta = c.add_finalizer t.meta finalizer_name }) >> done

  unfoldable pub reconcile : Key → Action W Requeue
  unfolding reconcile_task
  reconcile key = on (get c.eval_tasks key) reconcile_task (unless_not_found none)
