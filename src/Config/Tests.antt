-- ===== src/Config/Tests.antt =====
-- Runs of the configuration and an instance of its theorem.
use kai_operator.Base.{
  ℕ, String, Bool, true, false, List, [], ◌∷◌, ◌≡◌, refl, eqb, ◌&&◌, if◌then◌else◌,
}
use kai_operator.Base.Text.{pos, show}
use kai_operator.Config.{
  FrameworkConfig, codes, atoi, get_default_config, override, to_upper_snake_case,
  get_framework_image, get_framework_port,
}
use kai_operator.Config.Decimal.{SetBy, port_from_env}

-- Equality of byte strings.
same : List ℕ → List ℕ → Bool
same [] [] = true
same (x ∷ xs) (y ∷ ys) = let rest = same xs ys in eqb x y && rest
same _ _ = false

-- An environment with an image and a port for vllm.
abbrev getenv : List ℕ → String
getenv name =
    if same name (codes "KAI_DEFAULT_VLLM_PORT")
    then "4294967396"
    else if same name (codes "KAI_DEFAULT_VLLM_IMAGE")
    then "mine:1"
    else ""

all : Unit {0}
unfolding get_default_config override get_framework_port get_framework_image to_upper_snake_case
    atoi same show
all = tt

overridden_port : get_framework_port getenv "vllm" ≡ pos 100
unfolding all
overridden_port = refl

default_port : get_framework_port getenv "jupyter" ≡ pos 8888
unfolding all
default_port = refl

snake : to_upper_snake_case (codes "llama.cpp-serverX2") ≡ codes "LLAMA_CPP_SERVER_X"
unfolding all
snake = refl

-- The same environment by the number.
abbrev vllm_config : FrameworkConfig
vllm_config = record { default_image = "vllm/vllm-openai:nightly-aarch64"; default_port = pos 8000 }

port_from_env_example : SetBy 4294967396 (pos 8000) (get_framework_port getenv "vllm")
port_from_env_example =
    port_from_env getenv "vllm" vllm_config 4294967396 (unfold all in refl) (unfold all in refl)
