-- ===== src/Config.antt =====
-- The images and ports of the frameworks and their overrides from the environment
-- (internal/config/config.go). `os.Getenv` is a parameter: a function from the bytes of a variable's
-- name to its text, empty where it is not set. The configuration is computed once in a process, whose
-- environment does not change, so it is a function of the environment.
pub mod Names
pub mod Ports
pub mod Decimal
mod Tests
use Prim.Native.Char.{code}
use kai_operator.Base.{
  ℕ, zero, suc, ◌+◌, ◌-◌, ◌*◌, ◌%◌, String, Bool, true, false, Option, none, some, List, [], ◌∷◌,
  ◌++◌, ◌==◌, ◌&&◌, ◌||◌, ltb, leb, eqb, if◌then◌else◌,
}
use kai_operator.Base.Text.{ℤ, pos, negsuc}

pub record FrameworkConfig : Type 0 where
  pub default_image : String
  pub default_port : ℤ

abbrev pub Frameworks : Type 0
Frameworks = List (String × FrameworkConfig)

unfoldable pub get_default_config : Frameworks
get_default_config =
    (
      "codeserver",
      record { default_image = "ghcr.io/coder/code-server:latest"; default_port = pos 8443 },
    )
    ∷ (
      "jupyter",
      record { default_image = "jupyter/base-notebook:latest"; default_port = pos 8888 },
    )
    ∷ ("novnc", record { default_image = "novnc/no-vnc:latest"; default_port = pos 6081 })
    ∷ (
      "vllm",
      record { default_image = "vllm/vllm-openai:nightly-aarch64"; default_port = pos 8000 },
    )
    ∷ (
      "tgi",
      record {
        default_image = "ghcr.io/huggingface/text-generation-inference:latest";
        default_port = pos 8080;
      },
    )
    ∷ (
      "llama.cpp",
      record { default_image = "ghcr.io/ggml-org/llama.cpp:server"; default_port = pos 8080 },
    )
    ∷ []

-- The code points of a text, which are its bytes if it is ASCII.
abbrev pub codes : String → List ℕ
codes String.[] = []
codes (String.◌∷◌ c s) = code c ∷ codes s

-- The loop of `toUpperSnakeCase`; `first` tells that the index is 0.
unfoldable pub upper_from : Bool → List ℕ → List ℕ
upper_from first [] = []
upper_from first (b ∷ s) =
    let rest = upper_from false s in
    if eqb b b'-' || eqb b b'.'
    then b'_' ∷ rest
    else if leb b'A' b && leb b b'Z' && (if first then false else true)
    then b'_' ∷ b ∷ rest
    else if leb b'a' b && leb b b'z'
    then (b - (b'a' - b'A')) ∷ rest
    else rest

unfoldable pub to_upper_snake_case : List ℕ → List ℕ
unfolding upper_from
to_upper_snake_case s = upper_from true s

-- The digits of `strconv.Atoi`, most significant first.
unfoldable pub scan : List ℕ → ℕ → Option ℕ
scan [] n = some n
scan (b ∷ s) n =
    let rest = scan s (n * 10 + (b - b'0')) in if leb b'0' b && leb b b'9' then rest else none

-- A text with at least one digit, of at most `max`.
abbrev number : List ℕ → ℕ → Option ℕ
number [] max = none
number (b ∷ s) max = elim (scan (b ∷ s) 0) [
  | none ↦ none
  | some n ↦ if leb n max then some n else none
]

abbrev negate : ℕ → ℤ
negate zero = pos 0
negate (suc n) = negsuc n

-- `strconv.Atoi`: an optional sign and digits, in the range of a 64-bit `int`.
unfoldable pub atoi : List ℕ → Option ℤ
unfolding scan
atoi [] = none
atoi (b ∷ s) =
    if eqb b b'-'
    then elim (number s 9223372036854775808) [ none ↦ none | some n ↦ some (negate n) ]
    else if eqb b b'+'
    then elim (number s 9223372036854775807) [ none ↦ none | some n ↦ some (pos n) ]
    else elim (number (b ∷ s) 9223372036854775807) [ none ↦ none | some n ↦ some (pos n) ]

-- The `int32` with the bits of `n`, for `n` below 2 ^ 32.
abbrev signed : ℕ → ℤ
signed n = if ltb n 2147483648 then pos n else negsuc (4294967295 - n)

-- The conversion `int32(p)`, which keeps the low 32 bits.
unfoldable pub to_int32 : ℤ → ℤ
to_int32 (pos n) = signed (n % 4294967296)
to_int32 (negsuc n) = signed (4294967295 - n % 4294967296)

abbrev image_env : String → List ℕ
image_env framework =
    codes "KAI_DEFAULT_" ++ (to_upper_snake_case (codes framework) ++ codes "_IMAGE")

abbrev port_env : String → List ℕ
port_env framework =
    codes "KAI_DEFAULT_" ++ (to_upper_snake_case (codes framework) ++ codes "_PORT")

abbrev pub find : String → Frameworks → Option FrameworkConfig
find k [] = none
find k ((j, f) ∷ rest) = if j == k then some f else find k rest

-- The image and the port of an entry that was looked up, and those of a missing one.
abbrev pub image_of : Option FrameworkConfig → String
image_of none = ""
image_of (some f) = f.default_image

abbrev pub port_of : Option FrameworkConfig → ℤ
port_of none = pos 0
port_of (some f) = f.default_port

module _ (getenv : List ℕ → String) where
  -- One round of the loop of `getEnvConfig`.
  unfoldable pub override : String → FrameworkConfig → FrameworkConfig
  unfolding to_upper_snake_case atoi to_int32
  override framework f =
      let image = getenv (image_env framework) in
      let port = getenv (port_env framework) in
      record {
        default_image = if image == "" then f.default_image else image;
        default_port =
            if port == ""
            then f.default_port
            else elim (atoi (codes port)) [ none ↦ f.default_port | some p ↦ to_int32 p ];
      }

  abbrev override_all : Frameworks → Frameworks
  override_all [] = []
  override_all ((k, f) ∷ rest) = (k, override k f) ∷ override_all rest

  -- `getEnvConfig`, and `GetConfig`.
  unfoldable pub get_config : Frameworks
  get_config = override_all get_default_config

  unfoldable pub get_framework_image : String → String
  unfolding get_config
  get_framework_image framework = image_of (find framework get_config)

  unfoldable pub get_framework_port : String → ℤ
  unfolding get_config
  get_framework_port framework = port_of (find framework get_config)
