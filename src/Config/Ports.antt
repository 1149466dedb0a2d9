-- ===== src/Config/Ports.antt =====
-- The ports and images of the frameworks (internal/config/config.go).
use kai_operator.Base.{
  ℕ, ◌+◌, ◌<◌, String, Option, none, some, List, [], ◌∷◌, ◌≡◌, ◌≢◌, refl, ap, eq_iff, if◌then◌else◌,
  arith, ◌==◌, Bool-cases, inl, inr,
}
use kai_operator.Base.Text.{ℤ, pos, negsuc}
use kai_operator.Base.Lists.{All}
use kai_operator.Config.{
  FrameworkConfig, Frameworks, get_default_config, codes, atoi, to_int32, override, override_all,
  find, get_config, image_of, port_of, get_framework_image, get_framework_port, port_env, image_env,
}

-- The range of an `int32`.
abbrev pub IsInt32 : ℤ → Type 0
IsInt32 (pos n) = n < 2147483648
IsInt32 (negsuc n) = n < 2147483648

to_int32-IsInt32 : (z : ℤ) → IsInt32 (to_int32 z)
unfolding to_int32
to_int32-IsInt32 (pos n) = ground arith
to_int32-IsInt32 (negsuc n) = ground arith

-- The conversion keeps an `int32`.
to_int32-eq_self : (z : ℤ) → IsInt32 z → to_int32 z ≡ z
unfolding to_int32
to_int32-eq_self (pos n) h = ground arith
to_int32-eq_self (negsuc n) h = ground arith

find-IsInt32 :
    (k : String) (l : Frameworks)
    → All (λ e. IsInt32 e.1.default_port) l
    → IsInt32 (port_of (find k l))
find-IsInt32 k [] h = omega arith
find-IsInt32 k ((j, f) ∷ l) h = elim (Bool-cases (j == k)) [
  | inl e ↦ rw e h.0
  | inr e ↦ rw e (find-IsInt32 k l h.1)
]

defaults : (k : String) → IsInt32 (port_of (find k get_default_config))
unfolding get_default_config
defaults k = find-IsInt32 k get_default_config (omega arith)

module _ (getenv : List ℕ → String) where
  override-IsInt32 :
      (k : String) (f : FrameworkConfig)
      → IsInt32 f.default_port
      → IsInt32 (override getenv k f).default_port
  unfolding override
  override-IsInt32 k f h = elim (Bool-cases (getenv (port_env k) == "")) [
    | inl e ↦ rw e h
    | inr e ↦ rw e (chosen (atoi (codes (getenv (port_env k)))))
  ]
    where
      chosen : (o : Option ℤ) → IsInt32 (elim o [ none ↦ f.default_port | some p ↦ to_int32 p ])
      chosen none = h
      chosen (some p) = to_int32-IsInt32 p

  abbrev overridden : String → Option FrameworkConfig → Option FrameworkConfig
  overridden k none = none
  overridden k (some f) = some (override getenv k f)

  find-override_all :
      (k : String) (l : Frameworks) → find k (override_all getenv l) ≡ overridden k (find k l)
  find-override_all k [] = refl
  find-override_all k ((j, f) ∷ l) = elim (Bool-cases (j == k)) [
    | inl e ↦ rw (e, if◌then◌else◌) (ap (λ i. some (override getenv i f)) ((eq_iff j k).0 e))
    | inr e ↦ rw (e, if◌then◌else◌) (find-override_all k l)
  ]

  -- The port of a framework of the defaults is that of its override.
  pub framework_port :
      (k : String) (f : FrameworkConfig)
      → find k get_default_config ≡ some f
      → get_framework_port getenv k ≡ (override getenv k f).default_port
  unfolding get_framework_port get_config
  framework_port k f e = rw (find-override_all k get_default_config, e) refl

  -- The port of every framework is an `int32`, whatever the environment holds.
  pub port_range : (k : String) → IsInt32 (get_framework_port getenv k)
  unfolding get_framework_port get_config
  port_range k =
      rw (find-override_all k get_default_config) (chosen (find k get_default_config) (defaults k))
    where
      chosen :
          (o : Option FrameworkConfig) → IsInt32 (port_of o) → IsInt32 (port_of (overridden k o))
      chosen none h = h
      chosen (some f) h = override-IsInt32 k f h

  -- The image of a framework that the defaults hold is the text of its variable, or its default if
  -- that is empty; any other framework has the empty image.
  pub image_lem :
      (k : String)
      → get_framework_image getenv k ≡ elim (find k get_default_config) [
        | none ↦ ""
        | some f ↦ if getenv (image_env k) == "" then f.default_image else getenv (image_env k)
      ]
  unfolding get_framework_image get_config
  image_lem k = rw (find-override_all k get_default_config) (chosen (find k get_default_config))
    where
      chosen :
          (o : Option FrameworkConfig)
          → ◌≡◌ {A = String} (image_of (overridden k o)) (elim o [
            | none ↦ ""
            | some f ↦ if getenv (image_env k) == "" then f.default_image else getenv (image_env k)
          ])
      chosen none = refl
      chosen (some f) = unfold override in refl

  -- A port variable that holds a number above the range of `int32` is taken modulo 2 ^ 32.
  pub port_wraps :
      (k : String) (f : FrameworkConfig) (n : ℕ)
      → getenv (port_env k) ≢ ""
      → atoi (codes (getenv (port_env k))) ≡ some (pos (n + 4294967296))
      → n < 2147483648
      → (override getenv k f).default_port ≡ pos n
  unfolding override to_int32
  port_wraps k f n h e lt = ground (arith, eq_iff (getenv (port_env k)) "")
