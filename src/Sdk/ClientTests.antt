-- ===== src/Sdk/ClientTests.antt =====
-- Runs of the clients and instances of their theorems.
use kai_operator.Base.{◌≡◌, ◌≢◌, refl, true, false, none, some, List, [], ◌∷◌, ◌==◌}
use kai_operator.Api.Meta.{new_meta}
use kai_operator.Api.Task.{TaskPhase, creating, running, failed, no_status}
use kai_operator.Api.EvalTask.{EvalTask}
use kai_operator.Client.{ok, run_at}
use kai_operator.Client.Calls.{calls, eval_task_task}
use kai_operator.Fake.{World, empty, server}
use kai_operator.Sdk.Wait.{Signal, timeout, tick}
use kai_operator.Sdk.Client.{
  TaskClient, refused, eval_task_versioned, create_or_patch, wait_for_running, update_with_retry,
}
use kai_operator.Sdk.Kinds.{new_client_from_k8s, set_namespace, list_all_tasks}
use kai_operator.Sdk.Seen.{SeenRunning, running_wait_ends, running_was_seen}

abbrev eval_task : TaskPhase → EvalTask
eval_task phase = record {
  meta = new_meta "mmlu" "lab" [];
  spec = record {
    resources = none;
    volumes = [];
    data_sources = [];
    run_after = [];
    ttl_seconds = none;
    open_compass = none;
    lm_eval = none;
  };
  status = record no_status { phase = phase };
}

abbrev evals : TaskClient World EvalTask
evals = record { client = server.eval_tasks; namespace = "lab" }

abbrev held : TaskPhase → World
held phase = record empty { eval_tasks = eval_task phase ∷ [] }

all : Unit {0}
unfolding wait_for_running create_or_patch update_with_retry list_all_tasks set_namespace
    new_client_from_k8s calls
all = tt

abbrev signals : List Signal
signals = tick ∷ tick ∷ timeout ∷ []

-- A task that is still created is polled twice, and the timeout comes.
still_creating :
    (let r = wait_for_running evals "mmlu" signals (run_at (held creating)) in
      (elim r.0 [
        | ok (some (refused (some t) e)) ↦ e.text == "timeout waiting for phase running"
        | _ ↦ false
      ])
      ≡ true)
unfolding all
still_creating = refl

-- A failed task is refused at once.
refused_at_once :
    (let r = wait_for_running evals "mmlu" [] (run_at (held failed)) in
      (elim r.0 [ ok (some (refused (some t) e)) ↦ e.text == "task failed: " | _ ↦ false ]) ≡ true)
unfolding all
refused_at_once = refl

running_wait_ends_example :
    (wait_for_running evals "mmlu" signals (run_at (held creating))).0 ≢ ok none
running_wait_ends_example = running_wait_ends evals "mmlu" signals (run_at (held creating)) refl

running_was_seen_example : SeenRunning evals "mmlu" (run_at (held running))
running_was_seen_example =
    running_was_seen evals "mmlu" signals (run_at (held running)) (eval_task running)
      (unfold all in refl)
