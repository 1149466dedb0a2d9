-- ===== src/Manager/Start.antt =====
-- The order of the steps of the start (main of cmd/main.go).
use kai_operator.Base.{◌≡◌, ◌⊎◌, if◌then◌else◌, Bool, true, false, some, List, [], ◌∷◌, arith}
use kai_operator.Base.Lists.{any}
use kai_operator.Manager.{
  Flags, options_of, dev_task_setup, train_task_setup, fine_tune_task_setup, eval_task_setup,
  inference_task_setup, Step, new_manager, set_up, add_healthz_check, add_readyz_check, start, main,
}

abbrev pub is_start : Step → Bool
is_start start = true
is_start _ = false

-- The steps before the start, the last first.
abbrev pub preparation : Flags → List Step
preparation f =
    add_readyz_check "readyz"
    ∷ add_healthz_check "healthz"
    ∷ set_up inference_task_setup
    ∷ set_up eval_task_setup
    ∷ set_up fine_tune_task_setup
    ∷ set_up train_task_setup
    ∷ set_up dev_task_setup
    ∷ new_manager (options_of f)
    ∷ []

module _ {W : Type 0} (run : Step → W → Bool × W) where
  -- The world that steps leave, the last of them first.
  abbrev pub after : List Step → W → W
  after [] w = w
  after (s ∷ l) w = (run s (after l w)).1

  -- Each of them had no error, in the world that the earlier ones left.
  abbrev pub Succeeded : List Step → W → Type 0
  Succeeded [] w = Unit
  Succeeded (s ∷ l) w = ((run s (after l w)).0 ≡ true) × Succeeded l w

-- If the manager was started, or the process ends with code 0, then the manager was created with the
-- flags' options, the five controllers were set up and the two checks were added, in this order and
-- each without an error, and after them the start came last and once: the code is 0 if it had no
-- error, and 1 if it had one.
pub main_starts_last :
    {W : Type 0} (run : Step → W → Bool × W) (f : Flags) (w : W)
    → (any is_start (main run f w).steps ≡ true) ⊎ ((main run f w).code ≡ some 0)
    → ((main run f w).steps ≡ start ∷ preparation f)
      × Succeeded run (preparation f) w
      × ((main run f w).code ≡ some (if (run start (after run (preparation f) w)).0 then 0 else 1))
unfolding main
main_starts_last run f w h = ground arith
