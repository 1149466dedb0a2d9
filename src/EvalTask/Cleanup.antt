-- ===== src/EvalTask/Cleanup.antt =====
-- When the EvalTask controller gives up its finalizer, and what it leaves behind
-- (internal/controller/evaltask/evaltask_controller.go).
use kai_operator.Base.{◌≡◌, String, true, false, List, none, [], ◌∷◌, arith, eq_iff, ◌⊎◌}
use kai_operator.Api.Meta.{ObjectMeta, key_of}
use kai_operator.Api.Kube.{Job}
use kai_operator.Api.Task.{completed, failed}
use kai_operator.Api.EvalTask.{EvalTask}
use kai_operator.Client.{
  Result, Event, success, Error, ok, err, Client, got, updated, failure, status_of, run_at, Kind,
}
use kai_operator.Client.Calls.{calls}
use kai_operator.Client.Order.{After, is_update, is_gone, is_create, is_missing}
use kai_operator.Reconcile.{Requeue}
use kai_operator.EvalTask.Job.{job_name, framework_or_default}
use kai_operator.EvalTask.Controller.{
  finalizer_name, job_key, ensure_job, set_end_time, handle_deletion, reconcile_task,
}

module _ {W : Type 0} (c : Client W) where
  -- The newest call is an accepted update of a task to the metadata.
  abbrev LastUpdate : ObjectMeta → List Event → Type 0
  LastUpdate m [] = ⊥
  LastUpdate m (e ∷ l) = e ≡ updated Kind.eval_task m success

  -- The finalizer of a task is put back if it is not there, and taken off what `set_end_time` gave if
  -- it is.
  abbrev pub Finishes : EvalTask → Result EvalTask → List Event → Type 0
  Finishes t ended l = elim (c.contains_finalizer t.meta finalizer_name) [
    | false ↦ LastUpdate (c.add_finalizer t.meta finalizer_name) l
    | true ↦ elim ended [ ok t' ↦ LastUpdate (c.remove_finalizer t'.meta finalizer_name) l | _ ↦ ⊥ ]
  ]

  -- The finalizer of a deleted task whose job can be read goes only after that job does.
  pub job_gone_before_finalizer :
      (w : W) (t : EvalTask) (job : Job)
      → (c.jobs.get (job_key (framework_or_default t) t) w).0 ≡ ok job
      → After is_update (is_gone (key_of job.meta)) (handle_deletion c t (run_at w)).1.log
  unfolding handle_deletion calls
  job_gone_before_finalizer w t job e =
      ground
        (arith, eq_iff job.meta.name job.meta.name, eq_iff job.meta.namespace job.meta.namespace)

  -- A job that cannot be read is not deleted, whatever the error, and the finalizer goes all the same.
  pub deletion_skips_unreadable_job :
      (w : W) (t : EvalTask) (e : Error)
      → c.contains_finalizer t.meta finalizer_name ≡ true
      → (c.jobs.get (job_key (framework_or_default t) t) w).0 ≡ err e
      → (handle_deletion c t (run_at w)).1.log
        ≡ updated Kind.eval_task (c.remove_finalizer t.meta finalizer_name) (
            status_of
              (c.eval_tasks.update
                (record t { meta = c.remove_finalizer t.meta finalizer_name })
                (c.jobs.get (job_key (framework_or_default t) t) w).1).0)
          ∷ got Kind.job (job_key (framework_or_default t) t) (failure e.reason)
          ∷ []
  unfolding handle_deletion calls
  deletion_skips_unreadable_job w t e h k = ground arith

  -- A finished task is never at rest: the last call of a reconciliation of it that succeeds, while it
  -- is not being deleted, is an accepted update of a task. If it has no finalizer, that is its own with
  -- the finalizer put back. Otherwise it is the task that `set_end_time` gave, with the finalizer taken
  -- off.
  pub finished_writes :
      (w : W) (t : EvalTask) {r : Requeue}
      → t.meta.deletion_timestamp ≡ none
      → (t.status.phase ≡ completed) ⊎ (t.status.phase ≡ failed)
      → (reconcile_task c t (run_at w)).0 ≡ ok r
      → Finishes t (set_end_time c t (run_at w)).0 (reconcile_task c t (run_at w)).1.log
  unfolding reconcile_task calls
  finished_writes w t d h e = ground arith

  -- A job is created only after a read that found none under the task's key.
  pub job_created_if_missing :
      (w : W) (framework : String) (t : EvalTask)
      → After is_create
          (is_missing (job_key framework t))
          (ensure_job c framework t (run_at w)).1.log
  unfolding ensure_job calls
  job_created_if_missing w f t =
      ground (arith, eq_iff (job_name f t) (job_name f t), eq_iff t.meta.namespace t.meta.namespace)
