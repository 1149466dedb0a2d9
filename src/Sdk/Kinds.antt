-- ===== src/Sdk/Kinds.antt =====
-- The client of each task kind with its methods (sdk/devtask.go, inferencetask.go, traintask.go,
-- finetunetask.go and evaltask.go), the client of all kinds (sdk/client.go), and the methods that take
-- the kind as an argument (WaitForTask, GetTask and DeleteTask of sdk/wait.go).
use kai_operator.Base.{String, ◌<>◌, Bool, Option, none, some, List}
use kai_operator.Api.Task.{TaskPhase}
use kai_operator.Api.DevTask.{DevTask}
use kai_operator.Api.InferenceTask.{InferenceTask}
use kai_operator.Api.TrainTask.{TrainTask}
use kai_operator.Api.FineTuneTask.{FineTuneTask}
use kai_operator.Api.EvalTask.{EvalTask}
use kai_operator.Client.{Error, other_reason, Result, Action, pure, fail, ◌>>=◌}
use kai_operator.Client
use kai_operator.Client.Calls.{
  Task, dev_task_task, inference_task_task, train_task_task, fine_tune_task_task, eval_task_task,
}
use kai_operator.Sdk.Wait.{Signal, Round}
use kai_operator.Sdk.Client as SdkClient
use kai_operator.Sdk.Client.{
  TaskClient, Versioned, Waited, found, refused, Retry, dev_task_versioned,
  inference_task_versioned, train_task_versioned, fine_tune_task_versioned, eval_task_versioned,
}

-- The methods of a client.
pub record Methods (W A : Type 0) : Type 0 where
  pub create : A → Action W A
  pub update : A → Action W A
  pub update_status : A → Action W A
  pub delete : String → Action W (Unit {0})
  pub delete_all_of : Action W (Unit {0})
  pub get : String → Action W A
  pub list : Action W (List A)
  pub exists : String → Action W Bool
  pub patch : A → String → Action W A
  pub create_or_patch : A → (A → A) → Action W A
  pub get_phase : String → Action W TaskPhase
  pub is_running : String → Action W Bool
  pub is_completed : String → Action W Bool
  pub wait_for_running : String → List Signal → Action W (Option (Waited A))
  pub wait_for_completed : String → List Signal → Action W (Option (Waited A))
  pub wait_until_deleted : String → List Signal → Action W Round
  pub update_with_retry : Retry W → String → (A → Result A) → Action W (Unit {0})

module _ {W : Type 0} where
  abbrev pub methods : {A : Type 0} ⦃k : Task A⦄ ⦃v : Versioned A⦄ → TaskClient W A → Methods W A
  methods c = record {
    create = SdkClient.create c;
    update = SdkClient.update c;
    update_status = SdkClient.update_status c;
    delete = SdkClient.delete c;
    delete_all_of = SdkClient.delete_all_of c;
    get = SdkClient.get c;
    list = SdkClient.list c;
    exists = SdkClient.exists c;
    patch = SdkClient.patch c;
    create_or_patch = SdkClient.create_or_patch c;
    get_phase = SdkClient.get_phase c;
    is_running = SdkClient.is_running c;
    is_completed = SdkClient.is_completed c;
    wait_for_running = SdkClient.wait_for_running c;
    wait_for_completed = SdkClient.wait_for_completed c;
    wait_until_deleted = SdkClient.wait_until_deleted c;
    update_with_retry = SdkClient.update_with_retry c;
  }

  -- `DevTaskClient`, and so on.
  abbrev pub dev_task_client : TaskClient W DevTask → Methods W DevTask
  dev_task_client c = methods c

  abbrev pub inference_task_client : TaskClient W InferenceTask → Methods W InferenceTask
  inference_task_client c = methods c

  abbrev pub train_task_client : TaskClient W TrainTask → Methods W TrainTask
  train_task_client c = methods c

  abbrev pub fine_tune_task_client : TaskClient W FineTuneTask → Methods W FineTuneTask
  fine_tune_task_client c = methods c

  abbrev pub eval_task_client : TaskClient W EvalTask → Methods W EvalTask
  eval_task_client c = methods c

-- The client of all kinds.
pub record Tasks (W : Type 0) : Type 0 where
  pub dev_task : TaskClient W DevTask
  pub inference_task : TaskClient W InferenceTask
  pub train_task : TaskClient W TrainTask
  pub fine_tune_task : TaskClient W FineTuneTask
  pub eval_task : TaskClient W EvalTask

pub record TaskList : Type 0 where
  pub dev_tasks : List DevTask
  pub inference_tasks : List InferenceTask
  pub train_tasks : List TrainTask
  pub fine_tune_tasks : List FineTuneTask
  pub eval_tasks : List EvalTask

-- The constants of `TaskType`; `other` is any further text.
pub data TaskType : Type 0 where
  dev inference train fine_tune eval : TaskType
  other : String → TaskType

-- A task of any kind, for `interface{}`.
pub data AnyTask : Type 0 where
  dev : DevTask → AnyTask
  inference : InferenceTask → AnyTask
  train : TrainTask → AnyTask
  fine_tune : FineTuneTask → AnyTask
  eval : EvalTask → AnyTask

abbrev unknown_type : String → Error
unknown_type text = record { reason = other_reason; text = "unknown task type: " <> text }

-- The result of a wait, of any kind; a nil pointer of some kind is no task.
abbrev any_waited : {A : Type 0} → (A → AnyTask) → Option (Waited A) → Option (Waited AnyTask)
any_waited f none = none
any_waited f (some (found t)) = some (found (f t))
any_waited f (some (refused none e)) = some (refused none e)
any_waited f (some (refused (some t) e)) = some (refused (some (f t)) e)

abbrev namespace_or_default : Option String → String
namespace_or_default none = "default"
namespace_or_default (some ns) = ns

module _ {W : Type 0} where
  -- `NewClientFromK8s` with a namespace among its options or none.
  unfoldable pub new_client_from_k8s : Client.Client W → Option String → Tasks W
  new_client_from_k8s c namespace =
      let ns = namespace_or_default namespace in
      record {
        dev_task = record { client = c.dev_tasks; namespace = ns };
        inference_task = record { client = c.inference_tasks; namespace = ns };
        train_task = record { client = c.train_tasks; namespace = ns };
        fine_tune_task = record { client = c.fine_tune_tasks; namespace = ns };
        eval_task = record { client = c.eval_tasks; namespace = ns };
      }

  unfoldable pub set_namespace : Tasks W → String → Tasks W
  set_namespace c ns = record {
    dev_task = record c.dev_task { namespace = ns };
    inference_task = record c.inference_task { namespace = ns };
    train_task = record c.train_task { namespace = ns };
    fine_tune_task = record c.fine_tune_task { namespace = ns };
    eval_task = record c.eval_task { namespace = ns };
  }

  unfoldable pub list_all_tasks : Tasks W → Action W TaskList
  unfolding SdkClient.list
  list_all_tasks c = do
    dev_tasks ← SdkClient.list c.dev_task
    inference_tasks ← SdkClient.list c.inference_task
    train_tasks ← SdkClient.list c.train_task
    fine_tune_tasks ← SdkClient.list c.fine_tune_task
    eval_tasks ← SdkClient.list c.eval_task
    pure (record {
      dev_tasks = dev_tasks;
      inference_tasks = inference_tasks;
      train_tasks = train_tasks;
      fine_tune_tasks = fine_tune_tasks;
      eval_tasks = eval_tasks;
    })

  unfoldable pub wait_for_task :
      Tasks W → TaskType → String → List Signal → Action W (Option (Waited AnyTask))
  unfolding SdkClient.wait_for_running
  wait_for_task c TaskType.dev name l = do
    w ← SdkClient.wait_for_running c.dev_task name l
    pure (any_waited AnyTask.dev w)
  wait_for_task c TaskType.inference name l = do
    w ← SdkClient.wait_for_running c.inference_task name l
    pure (any_waited AnyTask.inference w)
  wait_for_task c TaskType.train name l = do
    w ← SdkClient.wait_for_running c.train_task name l
    pure (any_waited AnyTask.train w)
  wait_for_task c TaskType.fine_tune name l = do
    w ← SdkClient.wait_for_running c.fine_tune_task name l
    pure (any_waited AnyTask.fine_tune w)
  wait_for_task c TaskType.eval name l = do
    w ← SdkClient.wait_for_running c.eval_task name l
    pure (any_waited AnyTask.eval w)
  wait_for_task c (TaskType.other text) name l = pure (some (refused none (unknown_type text)))

  unfoldable pub get_task : Tasks W → TaskType → String → Action W AnyTask
  unfolding SdkClient.get
  get_task c TaskType.dev name = do t ← SdkClient.get c.dev_task name; pure (AnyTask.dev t)
  get_task c TaskType.inference name = do
    t ← SdkClient.get c.inference_task name
    pure (AnyTask.inference t)
  get_task c TaskType.train name = do t ← SdkClient.get c.train_task name; pure (AnyTask.train t)
  get_task c TaskType.fine_tune name = do
    t ← SdkClient.get c.fine_tune_task name
    pure (AnyTask.fine_tune t)
  get_task c TaskType.eval name = do t ← SdkClient.get c.eval_task name; pure (AnyTask.eval t)
  get_task c (TaskType.other text) name = fail (unknown_type text)

  unfoldable pub delete_task : Tasks W → TaskType → String → Action W (Unit {0})
  unfolding SdkClient.delete
  delete_task c TaskType.dev name = SdkClient.delete c.dev_task name
  delete_task c TaskType.inference name = SdkClient.delete c.inference_task name
  delete_task c TaskType.train name = SdkClient.delete c.train_task name
  delete_task c TaskType.fine_tune name = SdkClient.delete c.fine_tune_task name
  delete_task c TaskType.eval name = SdkClient.delete c.eval_task name
  delete_task c (TaskType.other text) name = fail (unknown_type text)
