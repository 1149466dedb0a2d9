-- ===== src/Utilities/Tests.antt =====
-- An instance of the theorem on the shared deletion.
use kai_operator.Base.{◌≡◌, String, Bool, none, [], ◌∷◌}
use kai_operator.Api.Meta.{ObjectMeta, new_meta}
use kai_operator.Api.FineTuneTask.{FineTuneTask}
use kai_operator.Api.EvalTask.{EvalTask}
use kai_operator.Api.DevTask.{DevTask}
use kai_operator.Api.InferenceTask.{InferenceTask}
use kai_operator.Client.{Run, run_at}
use kai_operator.Client.Calls.{
  dev_task_task, inference_task_task, fine_tune_task_task, eval_task_task,
}
use kai_operator.Fake.{World, empty, server}
use kai_operator.Host.{System}
use kai_operator.Utilities
use kai_operator.Utilities.{
  dev_task_settable, inference_task_settable, fine_tune_task_settable, eval_task_settable,
}
use kai_operator.Utilities.Shared.{deletion_shared}
use kai_operator.DevTask.Framework
use kai_operator.DevTask.Controller as Dev
use kai_operator.InferenceTask.State
use kai_operator.InferenceTask.Controller as Inference
use kai_operator.FineTuneTask.Controller as FineTune
use kai_operator.EvalTask.Controller as Eval
use kai_operator.Sdk.Build.Dev as BuildDev
use kai_operator.Sdk.Build.Inference as BuildInference
use kai_operator.Sdk.Build.FineTune as BuildFineTune
use kai_operator.Sdk.Build.Eval as BuildEval

abbrev system : System World
system = record {
  client = server;
  getenv = λ _. "";
  host = record { colima = none; parses_ip = λ _. Bool.false; interfaces = none };
}

abbrev finalized : String → ObjectMeta
finalized f = record (new_meta "t" "lab" []) { finalizers = f ∷ [] }

abbrev dev : DevTask
dev = record (BuildDev.new_dev_task "t" "lab") { meta = finalized Framework.finalizer_name }

abbrev inference : InferenceTask
inference = record (BuildInference.new_inference_task "t" "lab") {
  meta = finalized State.finalizer_name;
}

abbrev fine_tune : FineTuneTask
fine_tune = record (BuildFineTune.new_fine_tune_task "t" "lab") {
  meta = finalized FineTune.finalizer_name;
}

abbrev eval : EvalTask
eval = record (BuildEval.new_eval_task "t" "lab") { meta = finalized Eval.finalizer_name }

abbrev start : Run World
start = run_at (record empty {
  dev_tasks = dev ∷ [];
  inference_tasks = inference ∷ [];
  fine_tune_tasks = fine_tune ∷ [];
  eval_tasks = eval ∷ [];
})

deletion_shared_example :
    (Dev.handle_deletion system dev start
      ≡ Utilities.handle_deletion server server.dev_tasks dev Framework.finalizer_name
          (Dev.cleanup_resources system dev)
          start)
    × (Inference.handle_deletion system inference start
        ≡ Utilities.handle_deletion server server.inference_tasks inference State.finalizer_name
            (Inference.cleanup_resources system inference)
            start)
    × (FineTune.handle_deletion server fine_tune start
        ≡ Utilities.handle_deletion server server.fine_tune_tasks fine_tune FineTune.finalizer_name
            (FineTune.cleanup_resources server fine_tune)
            start)
    × (Eval.handle_deletion server eval start
        ≡ Utilities.handle_deletion server server.eval_tasks eval Eval.finalizer_name
            (Eval.cleanup_resources server eval)
            start)
deletion_shared_example = deletion_shared system dev inference fine_tune eval start
