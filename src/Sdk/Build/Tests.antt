-- ===== src/Sdk/Build/Tests.antt =====
-- Instances of the theorems on built tasks.
use kai_operator.Base.{◌≡◌, refl, ℕ, String, List, [], ◌∷◌}
use kai_operator.Base.Labels.{Labels}
use kai_operator.Base.Merge.{map_of, union}
use kai_operator.Api.Meta.{ObjectMeta, new_meta}
use kai_operator.Api.EvalTask.{EvalTask}
use kai_operator.Api.FineTuneTask.{FineTuneTask}
use kai_operator.Api.TrainTask.{TrainTask}
use kai_operator.Sdk.Build.Eval
use kai_operator.Sdk.Build.FineTune
use kai_operator.Sdk.Build.Train
use kai_operator.Sdk.Build.Merged.{labels_merged}
use kai_operator.Base.Text.{pos}
use kai_operator.Api.DevTask.{DevTask}
use kai_operator.Api.InferenceTask.{InferenceTask, VllmSpec}
use kai_operator.Sdk.Build.Dev
use kai_operator.Sdk.Build.Inference

abbrev notebook : DevTask
notebook = Dev.with_jupyter "jupyter/base" [] (Dev.new_dev_task "nb" "lab")

abbrev model : InferenceTask
model = Inference.with_vllm "hf://qwen" [] (Inference.new_inference_task "llm" "lab")

abbrev unset : List ℕ → String
unset name = ""

-- Options, of which one sets a port.
abbrev on_port : VllmSpec → VllmSpec
on_port v = record v { port = pos 9000 }

abbrev given : Labels
given = ("team", "speech") ∷ ("tier", "gpu") ∷ []

-- Labels of which one is there already.
abbrev before : ObjectMeta
before = new_meta "nb" "lab" (("tier", "cpu") ∷ [])

abbrev dev : DevTask
dev = record (Dev.new_dev_task "nb" "lab") { meta = before }

abbrev inference : InferenceTask
inference = record (Inference.new_inference_task "nb" "lab") { meta = before }

abbrev eval : EvalTask
eval = record (Eval.new_eval_task "nb" "lab") { meta = before }

abbrev tuning : FineTuneTask
tuning = record (FineTune.new_fine_tune_task "nb" "lab") { meta = before }

abbrev train : TrainTask
train = record (Train.new_train_task "nb" "lab") { meta = before }

abbrev Merges : Labels → Type 0
Merges new = map_of new ≡ union (map_of given) (map_of before.labels)

labels_merged_example :
    Merges (Dev.with_labels given dev).meta.labels
    × Merges (Inference.with_labels given inference).meta.labels
    × Merges (Eval.with_labels given eval).meta.labels
    × Merges (FineTune.with_labels given tuning).meta.labels
    × Merges (Train.with_labels given train).meta.labels
labels_merged_example = labels_merged given dev inference eval tuning train (refl, (refl, tt))
