-- ===== src/InferenceTask/Model.antt =====
-- The model, the engine, the port and the image of an InferenceTask (GetModelPath, GetEngine,
-- GetInferencePort and GetInferenceImage of internal/controller/inference/utils.go), and the name of
-- its objects.
use Prim.Native.Char.{code}
use kai_operator.Base.{ℕ, String, ◌<>◌, Option, none, some, List, ◌==◌, eqb, if◌then◌else◌}
use kai_operator.Base.Text.{ℤ, is_pos}
use kai_operator.Api.InferenceTask.{InferenceTask, VllmSpec, TgiSpec, LlamaCppSpec, get_framework}
use kai_operator.Config.{get_framework_image, get_framework_port}

-- `strings.HasPrefix` and `strings.TrimPrefix` in one: what follows a prefix.
unfoldable pub cut_prefix : String → String → Option String
cut_prefix String.[] s = some s
cut_prefix (String.◌∷◌ p ps) String.[] = none
cut_prefix (String.◌∷◌ p ps) (String.◌∷◌ c s) =
    let rest = cut_prefix ps s in if eqb (code p) (code c) then rest else none

-- `GetModelPath`: the path of the model and its id on the hub.
unfoldable pub get_model_path : InferenceTask → String × String
unfolding cut_prefix
get_model_path t = if t.spec.model == "" then ("", "") else elim (cut_prefix "s3://" t.spec.model) [
  | some path ↦ (path, "")
  | none ↦ elim (cut_prefix "hf://" t.spec.model) [ some id ↦ ("", id) | none ↦ (t.spec.model, "") ]
]

abbrev engine_of : Option VllmSpec → Option TgiSpec → Option LlamaCppSpec → String
engine_of (some _) _ _ = "vllm"
engine_of none (some _) _ = "tgi"
engine_of none none (some _) = "llama.cpp"
engine_of none none none = ""

-- `GetEngine`.
unfoldable pub get_engine : InferenceTask → String
get_engine t =
    if t.spec.engine == "" then engine_of t.spec.vllm t.spec.tgi t.spec.llama_cpp else t.spec.engine

-- `framework := inference.GetFramework(); if framework == "" { framework = GetEngine(inference) }`.
unfoldable pub framework_or_engine : InferenceTask → String
unfolding get_framework get_engine
framework_or_engine t =
    let framework = get_framework t in if framework == "" then get_engine t else framework

-- `fmt.Sprintf("inf-%s-%s", framework, inference.Name)`, the name of the deployment, the service and
-- the route.
unfoldable pub object_name : InferenceTask → String
unfolding framework_or_engine
object_name t = "inf-" <> (framework_or_engine t <> ("-" <> t.meta.name))

-- The port of an engine's section, if there is one above 0.
abbrev own_port : {S : Type 0} → (S → ℤ) → Option S → Option ℤ
own_port port none = none
own_port port (some s) = if is_pos (port s) then some (port s) else none

abbrev first_of : Option ℤ → ℤ → ℤ
first_of none default = default
first_of (some p) default = p

module _ (getenv : List ℕ → String) where
  abbrev default_port : Option VllmSpec → Option TgiSpec → Option LlamaCppSpec → ℤ
  default_port (some _) _ _ = get_framework_port getenv "vllm"
  default_port none (some _) _ = get_framework_port getenv "tgi"
  default_port none none (some _) = get_framework_port getenv "llama.cpp"
  default_port none none none = get_framework_port getenv "vllm"

  -- `GetInferencePort`.
  unfoldable pub get_inference_port : InferenceTask → ℤ
  get_inference_port t = first_of (own_port (λ v. v.port) t.spec.vllm) (
      first_of (own_port (λ g. g.port) t.spec.tgi) (
        first_of (own_port (λ l. l.port) t.spec.llama_cpp)
          (default_port t.spec.vllm t.spec.tgi t.spec.llama_cpp)))

  abbrev image_or : String → String → String
  image_or image framework = if image == "" then get_framework_image getenv framework else image

  abbrev image_of : Option VllmSpec → Option TgiSpec → Option LlamaCppSpec → String
  image_of (some v) _ _ = image_or v.tool.image "vllm"
  image_of none (some g) _ = image_or g.tool.image "tgi"
  image_of none none (some l) = image_or l.tool.image "llama.cpp"
  image_of none none none = "alpine:latest"

  -- `GetInferenceImage`.
  unfoldable pub get_inference_image : InferenceTask → String
  get_inference_image t = image_of t.spec.vllm t.spec.tgi t.spec.llama_cpp
