-- ===== src/Sdk/Build/Merged.antt =====
-- The labels that WithLabels gives a task (sdk/devtask_builder.go and the builders of the other
-- kinds).
use kai_operator.Base.{◌≡◌}
use kai_operator.Base.Labels.{Labels}
use kai_operator.Base.Merge.{Distinct, map_of, union, insert_all-union}
use kai_operator.Api.DevTask.{DevTask}
use kai_operator.Api.InferenceTask.{InferenceTask}
use kai_operator.Api.EvalTask.{EvalTask}
use kai_operator.Api.FineTuneTask.{FineTuneTask}
use kai_operator.Api.TrainTask.{TrainTask}
use kai_operator.Sdk.Build.{add_labels}
use kai_operator.Sdk.Build.Dev
use kai_operator.Sdk.Build.Inference
use kai_operator.Sdk.Build.Eval
use kai_operator.Sdk.Build.FineTune
use kai_operator.Sdk.Build.Train

-- With the order of the pairs forgotten, the labels of a task whose builder, of any kind, is given
-- labels without a key twice are the union of these and the former ones, where the given ones come
-- first: they do not depend on the order in which the loop visits the map.
pub labels_merged :
    (labels : Labels) (d : DevTask) (i : InferenceTask) (e : EvalTask) (f : FineTuneTask)
    (t : TrainTask)
    → Distinct labels
    → (let Merges : Labels → Labels → Type 0 =
          λ old new. map_of new ≡ union (map_of labels) (map_of old) in
        Merges d.meta.labels (Dev.with_labels labels d).meta.labels
        × Merges i.meta.labels (Inference.with_labels labels i).meta.labels
        × Merges e.meta.labels (Eval.with_labels labels e).meta.labels
        × Merges f.meta.labels (FineTune.with_labels labels f).meta.labels
        × Merges t.meta.labels (Train.with_labels labels t).meta.labels)
unfolding Dev.with_labels Inference.with_labels Eval.with_labels FineTune.with_labels
    Train.with_labels add_labels
labels_merged labels d i e f t h = (
  insert_all-union labels d.meta.labels h,
  insert_all-union labels i.meta.labels h,
  insert_all-union labels e.meta.labels h,
  insert_all-union labels f.meta.labels h,
  insert_all-union labels t.meta.labels h,
)
