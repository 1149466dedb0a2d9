-- ===== src/Utilities.antt =====
-- The helpers for any task kind (internal/controller/utils.go), and the controller of the train tasks,
-- which does nothing yet (internal/controller/traintask/traintask_controller.go). A helper that
-- changes the task in memory gives the task as the server stored it.
pub mod Shared
mod Tests
use kai_operator.Base.{
  String, ◌<>◌, not, Option, none, some, ◌≡◌, refl, true, if◌then◌else◌, [], ◌∷◌,
}
use kai_operator.Base.Text.{ℤ}
use kai_operator.Api.Meta.{Key, ObjectMeta, key_of}
use kai_operator.Api.Task.{TaskPhase, TaskStatus}
use kai_operator.Api.DevTask.{DevTask}
use kai_operator.Api.InferenceTask.{InferenceTask}
use kai_operator.Api.TrainTask.{TrainTask}
use kai_operator.Api.FineTuneTask.{FineTuneTask}
use kai_operator.Api.EvalTask.{EvalTask}
use kai_operator.Client.{
  Error, Result, ok, err, panic, Resource, Client, Kind, spawned, Run, Action, pure, lift, ◌>>=◌,
  ◌>>◌,
}
use kai_operator.Client.Calls.{Object, Task, update, update_status, now}
use kai_operator.Reconcile.{Requeue, done}

-- The changes of a task's metadata and of its status, for the five kinds (`switch t := task.(type)`).
pub record Settable (A : Type 0) : Type 0 where
  pub set_meta : ObjectMeta → A → A
  pub set_status : TaskStatus → A → A

instance abbrev pub dev_task_settable : Settable DevTask
dev_task_settable = record {
  set_meta = λ m t. record t { meta = m };
  set_status = λ s t. record t { status = s };
}

instance abbrev pub inference_task_settable : Settable InferenceTask
inference_task_settable = record {
  set_meta = λ m t. record t { meta = m };
  set_status = λ s t. record t { status = s };
}

instance abbrev pub train_task_settable : Settable TrainTask
train_task_settable = record {
  set_meta = λ m t. record t { meta = m };
  set_status = λ s t. record t { status = s };
}

instance abbrev pub fine_tune_task_settable : Settable FineTuneTask
fine_tune_task_settable = record {
  set_meta = λ m t. record t { meta = m };
  set_status = λ s t. record t { status = s };
}

instance abbrev pub eval_task_settable : Settable EvalTask
eval_task_settable = record {
  set_meta = λ m t. record t { meta = m };
  set_status = λ s t. record t { status = s };
}

-- `GetTaskPhase`.
unfoldable pub get_task_phase : {A : Type 0} ⦃k : Task A⦄ → A → TaskPhase
get_task_phase ⦃k⦄ t = (k.status t).phase

-- `FormatResourceName`.
unfoldable pub format_resource_name : String → String → String → String
format_resource_name prefix framework name = prefix <> ("-" <> (framework <> ("-" <> name)))

module _ {W A : Type 0} (c : Client W) ⦃k : Task A⦄ ⦃set : Settable A⦄ (r : Resource W A) where
  abbrev meta_of : A → ObjectMeta
  meta_of t = k.object.meta t

  unfoldable pub ensure_finalizer : A → String → Action W A
  ensure_finalizer t finalizer =
      if c.contains_finalizer (meta_of t) finalizer
      then pure t
      else update ⦃o = k.object⦄ r (set.set_meta (c.add_finalizer (meta_of t) finalizer) t)

  unfoldable pub remove_finalizer : A → String → Action W A
  remove_finalizer t finalizer =
      update ⦃o = k.object⦄ r (set.set_meta (c.remove_finalizer (meta_of t) finalizer) t)

  unfoldable pub handle_deletion : A → String → Action W (Unit {0}) → Action W Requeue
  unfolding remove_finalizer
  handle_deletion t finalizer cleanup =
      if not (c.contains_finalizer (meta_of t) finalizer)
      then done
      else cleanup >> (remove_finalizer t finalizer >> done)

  unfoldable pub update_status_phase : A → TaskPhase → String → Action W A
  update_status_phase t phase message =
      update_status r (set.set_status (record (k.status t) { phase = phase; message = message }) t)

  unfoldable pub set_start_time : A → Action W A
  set_start_time t = do
    time ← now c
    update_status r (set.set_status (record (k.status t) { start_time = some time }) t)

  unfoldable pub set_end_time : A → Action W A
  set_end_time t = do
    time ← now c
    update_status r (set.set_status (record (k.status t) { end_time = some time }) t)

  -- The goroutine deletes a DevTask of the name and the namespace of the task.
  unfoldable pub schedule_task_deletion : A → Option ℤ → Action W (Unit {0})
  schedule_task_deletion t none s = (ok tt, s)
  schedule_task_deletion t (some ttl) s =
      (ok tt, record s { log = spawned Kind.dev_task (key_of (meta_of t)) ttl ∷ s.log })

-- `(*TrainTaskReconciler).Reconcile`.
unfoldable pub reconcile_train_task : {W : Type 0} → Key → Action W Requeue
reconcile_train_task key = done
