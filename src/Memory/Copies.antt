-- ===== src/Memory/Copies.antt =====
-- What a deep copy of a task shares with the original (api/v1alpha1/zz_generated.deepcopy.go).
use kai_operator.Base.{ℕ, ◌≤◌, ◌<◌, ◌≡◌, ◌≢◌, refl, Option, none, some, List, [], ◌∷◌, arith, subst}
use kai_operator.Base.Lists.{All}
use kai_operator.Base.Text.{ℤ}
use kai_operator.Memory.{Ref, copy_ref, Library}
use kai_operator.Memory.Rules.{IsDeep, LibraryIsDeep, Within}
use kai_operator.Memory.Inference.{
  LlamaCppSpec, InferenceTask, inference_task_deep_copy_into, inference_task_spec_deep_copy_into,
  llama_cpp_spec_deep_copy_into,
}
use kai_operator.Memory.Inference.Deep.{inference_task, inference_task-IsDeep}
use kai_operator.Memory.DevTask.Deep.{dev_task_list, dev_task_list-IsDeep}
use kai_operator.Memory.Train.Deep.{train_task_list, train_task_list-IsDeep}
use kai_operator.Memory.FineTune.Deep.{fine_tune_task_list, fine_tune_task_list-IsDeep}
use kai_operator.Memory.Eval.Deep.{eval_task_list, eval_task_list-IsDeep}

-- No address is in both lists.
abbrev pub Apart : List ℕ → List ℕ → Type 0
Apart l l' = All (λ p. All (λ q. p ≢ q) l') l

above : (p n : ℕ) (l : List ℕ) → n ≤ p → All (λ q. q < n) l → All (λ q. p ≢ q) l
above p n [] h k = tt
above p n (q ∷ l) h k =
    ((λ e. absurd (omega (arith, subst (λ x. n ≤ x) e h, k.0))), above p n l h k.1)

apart : (n m : ℕ) (l l' : List ℕ) → All (Within n m) l → All (λ q. q < n) l' → Apart l l'
apart n m [] l' h k = tt
apart n m (p ∷ l) l' h k = (above p n l' h.0.0 k, apart n m l l' h.1 k)

-- The pointer `N` of the section for llama.cpp, nil where the section is.
abbrev pub n_of : Option (Ref LlamaCppSpec) → Option (Ref ℤ)
n_of none = none
n_of (some r) = r.content.n

module _ {M L T : Type 0} (l : Library M L T) where
  -- Where the copies of `ObjectMeta`, `ListMeta` and `Time` are deep, the copies of lists of dev,
  -- train, fine-tuning and evaluation tasks are: the addresses in a copy were free before it, and it
  -- stands for the same tasks.
  pub task_lists_copied :
      (h : LibraryIsDeep l)
      → IsDeep (dev_task_list l)
        × IsDeep (train_task_list l)
        × IsDeep (fine_tune_task_list l)
        × IsDeep (eval_task_list l)
  task_lists_copied h = (
    dev_task_list-IsDeep l h,
    train_task_list-IsDeep l h,
    fine_tune_task_list-IsDeep l h,
    eval_task_list-IsDeep l h,
  )

  -- Where the copies of `ObjectMeta` and `Time` are deep, the copy of an inference task stands for the
  -- same task, and, the pointers `N` apart, it shares no address with it.
  pub inference_copy_is_own :
      (h : LibraryIsDeep l) (t : InferenceTask M T) (n : ℕ)
      → All (λ q. q < n) ((inference_task l).addresses t)
      → let (c, _) = inference_task_deep_copy_into l t n in
        Apart ((inference_task l).addresses c) ((inference_task l).addresses t)
        × ((inference_task l).value c ≡ (inference_task l).value t)
  inference_copy_is_own h t n k =
      let deep = inference_task-IsDeep l h in (apart n _ _ _ (deep.owns t n) k, deep.keeps t n)

  -- The copy of an inference task has the pointer `N` of the original, so a write through the one is
  -- read through the other.
  pub n_is_shared :
      (t : InferenceTask M T) (n : ℕ)
      → n_of (inference_task_deep_copy_into l t n).0.spec.llama_cpp ≡ n_of t.spec.llama_cpp
  unfolding inference_task_deep_copy_into inference_task_spec_deep_copy_into
      llama_cpp_spec_deep_copy_into
  n_is_shared t n = same t.spec.llama_cpp _
    where
      same :
          (x : Option (Ref LlamaCppSpec)) (m : ℕ)
          → n_of (copy_ref llama_cpp_spec_deep_copy_into x m).0 ≡ n_of x
      same none m = refl
      same (some r) m = refl
