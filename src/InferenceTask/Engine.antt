-- ===== src/InferenceTask/Engine.antt =====
-- The model path, the engine and the port of an InferenceTask
-- (internal/controller/inference/utils.go).
use Prim.Native.Char.{code}
use Prim.Native.String.append
use text.Mathlib.TextEquality.{Char-path}
use kai_operator.Base.{
  ℕ, String, ◌<>◌, ◌≡◌, ◌≢◌, ◌↔◌, ◌&&◌, is_some, ◌⊎◌, refl, ap, true, false, Option, none, some,
  List, arith, eq_iff, eqb, Bool, not, Bool-cases, inl, inr, ◌==◌, Option-cases, sym, ◌∙◌,
}
use kai_operator.Base.Text.{ℤ}
use kai_operator.Api.InferenceTask.{InferenceTask, get_framework}
use kai_operator.Config.Ports.{IsInt32, port_range}
use kai_operator.InferenceTask.Model.{
  cut_prefix, get_model_path, get_engine, get_inference_port, get_inference_image,
}

-- What follows a prefix, behind the prefix, is the text.
append-cut_prefix : (p s r : String) → cut_prefix p s ≡ some r → s ≡ p <> r
unfolding cut_prefix
append-cut_prefix String.[] s r e = ground (arith, append.nil r)
append-cut_prefix (String.◌∷◌ c p) String.[] r e = ground arith
append-cut_prefix (String.◌∷◌ c p) (String.◌∷◌ d s) r e =
    elim (Bool-cases (eqb (code c) (code d))) [
      | inl h ↦
          let char : c ≡ d = Char-path c d (ground arith) in
          let text : s ≡ p <> r = append-cut_prefix p s r (ground arith) in
          (λ i. String.◌∷◌ (sym char i) (text i)) ∙ sym (append.cons c p r)
      | inr h ↦ ground arith
    ]

eqb_refl : (n : ℕ) → eqb n n ≡ true
eqb_refl n = ground arith

-- What follows a prefix is what was put behind it.
cut_prefix-append : (p s : String) → cut_prefix p (p <> s) ≡ some s
unfolding cut_prefix
cut_prefix-append String.[] s = rw (append.nil s) refl
cut_prefix-append (String.◌∷◌ c p) s =
    rw (append.cons c p s) (rw (eqb_refl (code c)) (cut_prefix-append p s))

-- The first characters of two texts are there and differ.
abbrev differ : String → String → Bool
differ (String.◌∷◌ c p) (String.◌∷◌ d q) = not (eqb (code c) (code d))
differ _ _ = false

cut_prefix-other : (p q s : String) → differ p q ≡ true → cut_prefix p (q <> s) ≡ none
unfolding cut_prefix
cut_prefix-other String.[] q s h = ground arith
cut_prefix-other (String.◌∷◌ c p) String.[] s h = ground arith
cut_prefix-other (String.◌∷◌ c p) (String.◌∷◌ d q) s h = rw (append.cons d q s) (ground arith)

abbrev is_empty : String → Bool
is_empty String.[] = true
is_empty (String.◌∷◌ c s) = false

append-not_empty : (q s : String) → is_empty q ≡ false → ((q <> s) == "") ≡ false
append-not_empty String.[] s h = ground arith
append-not_empty (String.◌∷◌ c q) s h = elim (Bool-cases ((String.◌∷◌ c q <> s) == "")) [
  | inl e ↦
      let f : false ≡ true =
        ap is_empty (sym (append.cons c q s) ∙ (eq_iff (String.◌∷◌ c q <> s) "").0 e) in
      ground arith
  | inr e ↦ e
]

-- The task with another model.
abbrev pub with_model : String → InferenceTask → InferenceTask
with_model m t = record t { spec = record t.spec { model = m } }

model_path_sound :
    (t : InferenceTask)
    → let (path, id) = get_model_path t in
      (t.spec.model ≡ path) ⊎ ((t.spec.model ≡ "s3://" <> path) ⊎ (t.spec.model ≡ "hf://" <> id))
unfolding get_model_path
model_path_sound t = elim (Bool-cases (t.spec.model == "")) [
  | inl e ↦ inl (rw e ((eq_iff t.spec.model "").0 e))
  | inr e ↦ elim (Option-cases (cut_prefix "s3://" t.spec.model)) [
    | inr (p, h) ↦ inr (inl (rw (e, h) (append-cut_prefix "s3://" t.spec.model p h)))
    | inl h ↦ elim (Option-cases (cut_prefix "hf://" t.spec.model)) [
      | inr (p, k) ↦ inr (inr (rw (e, h, k) (append-cut_prefix "hf://" t.spec.model p k)))
      | inl k ↦ inl (rw (e, h, k) refl)
    ]
  ]
]

-- A model in a bucket is found by its path, and one of the hub by its id. Back from what was found,
-- the model of a task is the path, with the prefix of a bucket or without one, or the id with the
-- prefix of the hub.
pub model_path_roundtrip :
    (t : InferenceTask) (p : String)
    → (get_model_path (with_model ("s3://" <> p) t) ≡ (p, ""))
      × (get_model_path (with_model ("hf://" <> p) t) ≡ ("", p))
      × (let (path, id) = get_model_path t in
          (t.spec.model ≡ path)
          ⊎ ((t.spec.model ≡ "s3://" <> path) ⊎ (t.spec.model ≡ "hf://" <> id)))
unfolding get_model_path
model_path_roundtrip t p = (
  rw (append-not_empty "s3://" p refl, cut_prefix-append "s3://" p) refl,
  rw
      (
        append-not_empty "hf://" p refl,
        cut_prefix-other "s3://" "hf://" p refl,
        cut_prefix-append "hf://" p,
      )
      refl,
  model_path_sound t,
)

-- The task without its section for llama.cpp.
abbrev pub without_llama : InferenceTask → InferenceTask
without_llama t = record t { spec = record t.spec { llama_cpp = none } }

-- The sections for TGI and llama.cpp are both set, and the one for vLLM is not.
abbrev pub is_torn : InferenceTask → Bool
is_torn t = not (is_some t.spec.vllm) && is_some t.spec.tgi && is_some t.spec.llama_cpp

tgi_not_llama : ◌≢◌ {A = String} "llama.cpp" "tgi"
tgi_not_llama e = ground (arith, (eq_iff "llama.cpp" "tgi").1 e)

-- What is said of a framework, an engine and whether the sections are torn, where `I` is said of the
-- image.
abbrev Divergence : Type 0 → String → String → Bool → Type 0
Divergence I framework engine torn =
    ((framework ≡ engine) ↔ (torn ≡ false))
    × (((framework ≡ "llama.cpp") × (engine ≡ "tgi") × I) ↔ (torn ≡ true))

same_engine : (I : Type 0) (f : String) → Divergence I f f false
same_engine I f = (
  (λ _. refl, λ _. refl),
  (λ p. let (a, b, _) = p in absurd (tgi_not_llama (sym a ∙ b)), λ h. ground arith),
)

torn_engine : (I : Type 0) → I → Divergence I "llama.cpp" "tgi" true
torn_engine I i =
    ((λ e. absurd (tgi_not_llama e), λ h. ground arith), (λ _. refl, λ _. (refl, refl, i)))

-- For a task that names no engine: the framework by which its objects are named and labelled is the
-- engine of its sections, unless those for TGI and llama.cpp are set and the one for vLLM is not. In
-- that case, and no other, the framework is llama.cpp and the engine TGI, with the image that the
-- task has without the section for llama.cpp.
pub engine_divergence :
    (getenv : List ℕ → String) (t : InferenceTask)
    → t.spec.engine ≡ ""
    → ((get_framework t ≡ get_engine t) ↔ (is_torn t ≡ false))
      × (((get_framework t ≡ "llama.cpp")
            × (get_engine t ≡ "tgi")
            × (get_inference_image getenv t ≡ get_inference_image getenv (without_llama t)))
          ↔ (is_torn t ≡ true))
unfolding get_framework get_engine get_inference_image
engine_divergence getenv t e = elim (Option-cases t.spec.vllm) [
  | inr (v, h) ↦ rw (e, h) (same_engine _ "vllm")
  | inl h ↦ elim (Option-cases t.spec.llama_cpp) [
    | inl k ↦ elim (Option-cases t.spec.tgi) [
      | inl m ↦ rw (e, h, k, m) (same_engine _ "")
      | inr (g, m) ↦ rw (e, h, k, m) (same_engine _ "tgi")
    ]
    | inr (l, k) ↦ elim (Option-cases t.spec.tgi) [
      | inl m ↦ rw (e, h, k, m) (same_engine _ "llama.cpp")
      | inr (g, m) ↦ rw (e, h, k, m) (torn_engine _ refl)
    ]
  ]
]

-- Every port of a section is in the range of an `int32`.
abbrev pub PortIn : {S : Type 0} → (S → ℤ) → Option S → Type 0
PortIn port none = Unit
PortIn port (some s) = IsInt32 (port s)

-- The port of the container and of the service is an `int32`, if those of the sections are.
pub inference_port_range :
    (getenv : List ℕ → String) (t : InferenceTask)
    → PortIn (λ v. v.port) t.spec.vllm
    → PortIn (λ g. g.port) t.spec.tgi
    → PortIn (λ l. l.port) t.spec.llama_cpp
    → IsInt32 (get_inference_port getenv t)
unfolding get_inference_port
inference_port_range getenv t h k l =
    ground (arith, port_range getenv "vllm", port_range getenv "tgi", port_range getenv "llama.cpp")
