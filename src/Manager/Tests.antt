-- ===== src/Manager/Tests.antt =====
-- Runs of the start and instances of the theorems on it.
use kai_operator.Base.{
  if◌then◌else◌, ◌≡◌, refl, Bool, true, false, ℕ, zero, suc, some, inr, [], ◌∷◌,
}
use kai_operator.Base.Lists.{All}
use kai_operator.Client.{run_at}
use kai_operator.InferenceTask.Samples.{system, key, llm, held}
use kai_operator.Utilities.{reconcile_train_task}
use kai_operator.DevTask.Controller as DevTask
use kai_operator.InferenceTask.Controller as InferenceTask
use kai_operator.FineTuneTask.Controller as FineTuneTask
use kai_operator.EvalTask.Controller as EvalTask
use kai_operator.Manager.{
  default_flags, options_of, dev_task_setup, train_task_setup, fine_tune_task_setup,
  eval_task_setup, inference_task_setup, Step, new_manager, set_up, start, main,
}
use kai_operator.Manager.Role.{permitted}
use kai_operator.Manager.Start.{preparation, after, Succeeded, main_starts_last}
use kai_operator.Manager.Permitted.{IsWithin, controllers_permitted}

-- Steps of which the first `n` have no error.
abbrev fine_for : Step → ℕ → Bool × ℕ
fine_for step zero = (false, 0)
fine_for step (suc n) = (true, n)

all : Unit {0}
unfolding main options_of permitted
all = tt

-- The third step fails: the process ends before the next set-up.
third_fails :
    ((main fine_for default_flags 2).code ≡ some 1)
    × ((main fine_for default_flags 2).steps
        ≡ set_up train_task_setup
          ∷ set_up dev_task_setup
          ∷ new_manager (options_of default_flags)
          ∷ [])
unfolding all
third_fails = (refl, refl)

main_starts_last_example :
    ((main fine_for default_flags 9).steps ≡ start ∷ preparation default_flags)
    × Succeeded fine_for (preparation default_flags) 9
    × ((main fine_for default_flags 9).code
        ≡ some (if (fine_for start (after fine_for (preparation default_flags) 9)).0 then 0 else 1))
main_starts_last_example = main_starts_last fine_for default_flags 9 (inr (unfold all in refl))

controllers_permitted_example :
    All (IsWithin dev_task_setup) (DevTask.reconcile system key (run_at (held llm))).1.log
    × All
        (IsWithin inference_task_setup)
        (InferenceTask.reconcile system key (run_at (held llm))).1.log
    × All
        (IsWithin fine_tune_task_setup)
        (FineTuneTask.reconcile system.client key (run_at (held llm))).1.log
    × All
        (IsWithin eval_task_setup)
        (EvalTask.reconcile system.client key (run_at (held llm))).1.log
    × All (IsWithin train_task_setup) (reconcile_train_task key (run_at (held llm))).1.log
controllers_permitted_example = controllers_permitted system key (held llm)
