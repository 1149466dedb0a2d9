-- ===== src/Sdk/Client.antt =====
-- The clients of the task kinds (sdk/devtask.go, inferencetask.go, traintask.go, finetunetask.go and
-- evaltask.go), which differ in the kind alone: one client for any kind, of which the five are
-- instances. The options of the calls are left out. The lists of signals stand for the timers of the
-- waits, as in Sdk/Wait.
use kai_operator.Base.{
  String, ◌<>◌, Bool, true, false, Option, none, some, ◌==◌, if◌then◌else◌, List,
}
use kai_operator.Api.Meta.{Key}
use kai_operator.Api.Task.{TaskPhase, running, failed}
use kai_operator.Api.DevTask.{DevTask}
use kai_operator.Api.InferenceTask.{InferenceTask}
use kai_operator.Api.TrainTask.{TrainTask}
use kai_operator.Api.FineTuneTask.{FineTuneTask}
use kai_operator.Api.EvalTask.{EvalTask}
use kai_operator.Client.{
  Error, other_reason, is_not_found, Result, ok, err, panic, Resource, Run, Action, pure, fail,
  lift, on, ◌>>=◌, ◌>>◌,
}
use kai_operator.Client.Calls
use kai_operator.Client.Calls.{Object, Task}
use kai_operator.Sdk.Wait.{
  Signal, Round, phase_text, is_terminal, wait_for_phase, wait_for_terminal, wait_for_deletion,
}

-- The client of a kind: the client of the server and a namespace.
pub record TaskClient (W A : Type 0) : Type 0 where
  pub client : Resource W A
  pub namespace : String

-- `task.ResourceVersion = version`.
pub record Versioned (A : Type 0) : Type 0 where
  pub set_version : String → A → A

instance abbrev pub dev_task_versioned : Versioned DevTask
dev_task_versioned = record {
  set_version = λ v t. record t { meta = record t.meta { resource_version = v } };
}

instance abbrev pub inference_task_versioned : Versioned InferenceTask
inference_task_versioned = record {
  set_version = λ v t. record t { meta = record t.meta { resource_version = v } };
}

instance abbrev pub train_task_versioned : Versioned TrainTask
train_task_versioned = record {
  set_version = λ v t. record t { meta = record t.meta { resource_version = v } };
}

instance abbrev pub fine_tune_task_versioned : Versioned FineTuneTask
fine_tune_task_versioned = record {
  set_version = λ v t. record t { meta = record t.meta { resource_version = v } };
}

instance abbrev pub eval_task_versioned : Versioned EvalTask
eval_task_versioned = record {
  set_version = λ v t. record t { meta = record t.meta { resource_version = v } };
}

-- What a wait returns: a task and no error, or an error and the task if it could be read.
pub data Waited (A : Type 0) : Type 0 where
  found : A → Waited A
  refused : Option A → Error → Waited A

abbrev pub same_phase : TaskPhase → TaskPhase → Bool
same_phase p q = phase_text p == phase_text q

abbrev pub task_failed : String → Error
task_failed message = record { reason = other_reason; text = "task failed: " <> message }

-- `retry.RetryOnConflict` with its back-off, which is code of another library.
abbrev pub Retry : Type 0 → Type 0
Retry W = Action W (Unit {0}) → Action W (Unit {0})

module _ {W A : Type 0} ⦃k : Task A⦄ (c : TaskClient W A) where
  abbrev pub key : String → Key
  key name = record { name = name; namespace = c.namespace }

  unfoldable pub get : String → Action W A
  get name = Calls.get ⦃o = k.object⦄ c.client (key name)

  unfoldable pub create : A → Action W A
  create task = Calls.create ⦃o = k.object⦄ c.client task

  unfoldable pub update : A → Action W A
  update task = Calls.update ⦃o = k.object⦄ c.client task

  unfoldable pub update_status : A → Action W A
  update_status task = Calls.update_status c.client task

  unfoldable pub patch : A → String → Action W A
  patch task text = Calls.patch ⦃o = k.object⦄ c.client task text

  unfoldable pub delete : String → Action W (Unit {0})
  delete name = Calls.delete_key ⦃o = k.object⦄ c.client (key name)

  -- The namespace of the client is not passed on.
  unfoldable pub delete_all_of : Action W (Unit {0})
  delete_all_of = Calls.delete_all ⦃o = k.object⦄ c.client ""

  unfoldable pub list : Action W (List A)
  list = Calls.list ⦃o = k.object⦄ c.client c.namespace

  unfoldable pub exists : String → Action W Bool
  unfolding get
  exists name = on (get name) (λ _. pure true) (λ e. if is_not_found e then pure false else fail e)

  -- `modify` changes the task that it is given: the caller's before it is created, or the one that
  -- was read, with the version of the caller's, before it is updated.
  unfoldable pub create_or_patch : ⦃v : Versioned A⦄ → A → (A → A) → Action W A
  unfolding get create update
  create_or_patch ⦃v⦄ task modify =
      on (get (k.object.meta task).name)
        (λ existing. update (v.set_version (k.object.meta task).resource_version (modify existing)))
        (λ e. if is_not_found e then create (modify task) else fail e)

  unfoldable pub get_phase : String → Action W TaskPhase
  unfolding get
  get_phase name = do task ← get name; pure (k.status task).phase

  unfoldable pub is_running : String → Action W Bool
  unfolding get_phase
  is_running name = do phase ← get_phase name; pure (same_phase phase running)

  unfoldable pub is_completed : String → Action W Bool
  unfolding get_phase
  is_completed name = do phase ← get_phase name; pure (is_terminal phase)

  -- `GetEndpoint` and `GetServiceURL`, which the client of the inference tasks has.
  unfoldable pub get_endpoint : String → Action W String
  unfolding get
  get_endpoint name = do task ← get name; pure (k.status task).external_url

  unfoldable pub get_service_url : String → Action W String
  unfolding get
  get_service_url name = do task ← get name; pure (k.status task).service_url

  -- A loop as an action; a wait that goes on gives `none`.
  abbrev pub polled : (Run W → Round × Run W) → Action W Round
  polled loop s = let (r, t) = loop s in (ok r, t)

  -- What follows a loop: the task is read again, and the loop's error goes first.
  unfoldable pub read_again : String → Round → Action W (Option (Waited A))
  unfolding get
  read_again name none = pure none
  read_again name (some (ok _)) =
      on (get name) (λ t. pure (some (found t))) (λ e. pure (some (refused none e)))
  read_again name (some (err e)) =
      on (get name) (λ t. pure (some (refused (some t) e))) (λ _. pure (some (refused none e)))
  read_again name (some (panic x)) = lift (panic x)

  -- The wait of a task that was read: it runs or failed already, or the loop waits for it.
  unfoldable pub wait_from : String → List Signal → A → Action W (Option (Waited A))
  unfolding get_phase read_again wait_for_phase
  wait_from name signals task =
      if same_phase (k.status task).phase running
      then pure (some (found task))
      else if same_phase (k.status task).phase failed
      then pure (some (refused (some task) (task_failed (k.status task).message)))
      else polled (wait_for_phase (get_phase name) running signals) >>= read_again name

  unfoldable pub wait_for_running : String → List Signal → Action W (Option (Waited A))
  unfolding get wait_from
  wait_for_running name signals =
      on (get name) (wait_from name signals) (λ e. pure (some (refused none e)))

  unfoldable pub wait_for_completed : String → List Signal → Action W (Option (Waited A))
  unfolding get_phase read_again wait_for_terminal
  wait_for_completed name signals =
      polled (wait_for_terminal (get_phase name) signals) >>= read_again name

  -- `WaitForDeletion`, which returns the error of the loop.
  unfoldable pub wait_until_deleted : String → List Signal → Action W Round
  unfolding exists wait_for_deletion
  wait_until_deleted name signals = polled (wait_for_deletion (exists name) signals)

  -- What is retried. `modify` changes the task in memory or returns an error; what it makes of the task
  -- is dropped.
  unfoldable pub modify_once : String → (A → Result A) → Action W (Unit {0})
  unfolding get
  modify_once name modify = do task ← get name; lift (modify task); pure tt

  unfoldable pub update_with_retry : Retry W → String → (A → Result A) → Action W (Unit {0})
  unfolding modify_once
  update_with_retry retry name modify = retry (modify_once name modify)
