-- ===== src/Memory/Tests.antt =====
-- Copies of tasks, and instances of the theorems on them.
use kai_operator.Base.{ℕ, ◌+◌, ◌≡◌, refl, none, some, [], ◌∷◌, arith}
use kai_operator.Base.Text.{pos}
use kai_operator.Api.Meta.{ObjectMeta, Time, new_meta}
use kai_operator.Api.Task.{unset}
use kai_operator.Memory.{Ref, Copier, Library}
use kai_operator.Memory.Rules.{IsDeep, LibraryIsDeep}
use kai_operator.Memory.Shared.{BaseToolSpec}
use kai_operator.Memory.Inference.{InferenceTask, inference_task_deep_copy_into}
use kai_operator.Memory.Inference.Deep.{inference_task}
use kai_operator.Memory.DevTask.Deep.{dev_task_list}
use kai_operator.Memory.Train.Deep.{train_task_list}
use kai_operator.Memory.FineTune.Deep.{fine_tune_task_list}
use kai_operator.Memory.Eval.Deep.{eval_task_list}
use kai_operator.Memory.Copies.{Apart, n_of, task_lists_copied, inference_copy_is_own, n_is_shared}

-- A value behind a pointer that is not nil.
abbrev cell : {A : Type 0} → Copier (Ref A) A
cell = record {
  copy = λ r n. (record { address = n; content = r.content }, n + 1);
  addresses = λ r. r.address ∷ [];
  value = λ r. r.content;
}

cell-IsDeep : {A : Type 0} → IsDeep (cell {A = A})
cell-IsDeep = record {
  grows = λ r n. omega arith;
  owns = λ r n. ((omega arith, omega arith), tt);
  keeps = λ r n. refl;
}

abbrev library : Library (Ref ObjectMeta) (Ref (Unit {0})) (Ref Time)
library = record { object_meta = cell; list_meta = cell; time = cell }

deep : LibraryIsDeep library
deep = record { object_meta = cell-IsDeep; list_meta = cell-IsDeep; time = cell-IsDeep }

abbrev at : {A : Type 0} → ℕ → A → Ref A
at p a = record { address = p; content = a }

abbrev tool : BaseToolSpec
tool = record {
  image = "llama";
  version = "";
  env = none;
  volumes = none;
  port = pos 0;
  command = some (at 3 ("serve" ∷ []));
  args = none;
  resources = none;
  dependencies = none;
  routing = none;
}

abbrev llama : InferenceTask (Ref ObjectMeta) (Ref Time)
llama = record {
  meta = at 1 (new_meta "llm" "lab" []);
  spec = record {
    resources = none;
    volumes = none;
    data_sources = none;
    run_after = none;
    ttl_seconds = none;
    model = "";
    engine = "";
    hf_mirror = "";
    vllm = none;
    llama_cpp = some (
        at 2 (record {
          tool = tool;
          model_path = "";
          context_size = pos 0;
          threads = pos 0;
          gpu_layers = pos 0;
          port = pos 0;
          n = some (at 4 (pos 8));
          health_check = none;
          auto_scaling = none;
        }));
    tgi = none;
  };
  status = record {
    phase = unset;
    message = "";
    pod_name = "";
    service_url = "";
    external_url = "";
    endpoints = none;
    metrics = none;
    conditions = none;
    start_time = some (at 5 3);
    end_time = none;
  };
}

all : Unit {0}
unfolding inference_task_deep_copy_into
all = tt

-- The copy takes the addresses 6 to 9, and `N` stays at 4.
copied :
    (let c = (inference_task_deep_copy_into library llama 6).0 in
      ((inference_task library).addresses c ≡ 6 ∷ 7 ∷ 8 ∷ 9 ∷ [])
      × (n_of c.spec.llama_cpp ≡ some (at 4 (pos 8))))
unfolding all
copied = (refl, refl)

task_lists_copied_example :
    IsDeep (dev_task_list library)
    × IsDeep (train_task_list library)
    × IsDeep (fine_tune_task_list library)
    × IsDeep (eval_task_list library)
task_lists_copied_example = task_lists_copied library deep

inference_copy_is_own_example :
    (let (c, _) = inference_task_deep_copy_into library llama 6 in
      Apart ((inference_task library).addresses c) ((inference_task library).addresses llama)
      × ((inference_task library).value c ≡ (inference_task library).value llama))
inference_copy_is_own_example =
    inference_copy_is_own library deep llama 6
      (omega arith, (omega arith, (omega arith, (omega arith, tt))))

n_is_shared_example :
    n_of (inference_task_deep_copy_into library llama 6).0.spec.llama_cpp ≡ some (at 4 (pos 8))
n_is_shared_example = n_is_shared library llama 6
