-- ===== src/Config/Decimal.antt =====
-- The ports that the environment sets by decimal numbers (getEnvConfig and GetFrameworkPort of
-- internal/config/config.go).
use Prim.Native.String.append
use Prim.Native.Char.{Char, code}
use kai_operator.Base.{
  ℕ, zero, suc, ◌+◌, ◌*◌, ◌/◌, ◌%◌, ◌<◌, ◌-◌, ◌≤◌, ◌⊎◌, String, ◌<>◌, none, some, List, [], ◌∷◌,
  ◌≡◌, refl, ap, sym, subst, ◌∙◌, leb, eq_iff, ◌==◌, Bool-cases, inl, inr, false, if◌then◌else◌,
  arith,
}
use kai_operator.Base.Text.{ℤ, pos, negsuc, digit, show_from, show_ℕ, show}
use kai_operator.Config.{
  FrameworkConfig, get_default_config, codes, scan, atoi, to_int32, override, find, port_env,
  get_framework_port,
}
use kai_operator.Config.Ports.{IsInt32, framework_port}

one : (c : Char) (out : String) → codes (String.◌∷◌ c String.[] <> out) ≡ code c ∷ codes out
one c out = ap codes (append.cons c String.[] out ∙ ap (String.◌∷◌ c) (append.nil out))

-- The byte of a digit.
codes-digit : (d : ℕ) (out : String) → d < 10 → codes (digit d <> out) ≡ (48 + d) ∷ codes out
codes-digit zero out h = one "0" out
codes-digit (suc zero) out h = one "1" out
codes-digit (suc (suc zero)) out h = one "2" out
codes-digit (suc (suc (suc zero))) out h = one "3" out
codes-digit (suc (suc (suc (suc zero)))) out h = one "4" out
codes-digit (suc (suc (suc (suc (suc zero))))) out h = one "5" out
codes-digit (suc (suc (suc (suc (suc (suc zero)))))) out h = one "6" out
codes-digit (suc (suc (suc (suc (suc (suc (suc zero))))))) out h = one "7" out
codes-digit (suc (suc (suc (suc (suc (suc (suc (suc zero)))))))) out h = one "8" out
codes-digit (suc (suc (suc (suc (suc (suc (suc (suc (suc zero))))))))) out h = one "9" out
codes-digit (suc (suc (suc (suc (suc (suc (suc (suc (suc (suc d)))))))))) out h =
    absurd (omega arith)

-- A list starts with a digit, and `scan` reads it as it reads `rest` after `n`.
abbrev Reads : List ℕ → ℕ → List ℕ → Type 0
Reads rest n [] = ⊥
Reads rest n (b ∷ s) = (48 ≤ b) × (b ≤ 57) × (scan (b ∷ s) 0 ≡ scan rest n)

scan-digit : (d n : ℕ) (rest : List ℕ) → d < 10 → scan ((48 + d) ∷ rest) n ≡ scan rest (n * 10 + d)
unfolding scan
scan-digit d n rest h =
    let e : n * 10 + (48 + d - 48) ≡ n * 10 + d = omega arith in ground (arith, ap (scan rest) e)

Reads-map :
    (rest rest' : List ℕ) (n n' : ℕ) (l : List ℕ)
    → scan rest n ≡ scan rest' n'
    → Reads rest n l
    → Reads rest' n' l
Reads-map rest rest' n n' [] e h = h
Reads-map rest rest' n n' (b ∷ s) e (low, high, same) = (low, high, same ∙ e)

-- A digit in front of a text is read as the last one of a number.
digit-scan :
    (q n : ℕ) (out : String)
    → n / 10 ≡ q
    → scan (codes (digit (n % 10) <> out)) q ≡ scan (codes out) n
digit-scan q n out e =
    let last : q * 10 + n % 10 ≡ n = omega arith in
    ap (λ l. scan l q) (codes-digit (n % 10) out (omega arith))
    ∙ (scan-digit (n % 10) q (codes out) (omega arith) ∙ ap (scan (codes out)) last)

digit-Reads :
    (n : ℕ) (out : String) → n / 10 ≡ 0 → Reads (codes out) n (codes (digit (n % 10) <> out))
digit-Reads n out e = subst (Reads (codes out) n) (sym (codes-digit (n % 10) out (omega arith))) (
  omega arith,
  omega arith,
  ap (λ l. scan l 0) (sym (codes-digit (n % 10) out (omega arith))) ∙ digit-scan 0 n out e,
)

-- The text of a number, in front of another text.
show_from-Reads :
    (fuel n : ℕ) (out : String) → n < fuel → Reads (codes out) n (codes (show_from fuel n out))
unfolding show_from
show_from-Reads zero n out h = absurd (omega arith)
show_from-Reads (suc fuel) n out h =
    step (λ q below. show_from-Reads fuel q (digit (n % 10) <> out) below) (n / 10) refl
  where
    step :
        ((q : ℕ)
          → q < fuel
          → Reads
              (codes (digit (n % 10) <> out))
              q
              (codes (show_from fuel q (digit (n % 10) <> out))))
        → (q : ℕ) → n / 10 ≡ q
        → Reads (codes out) n (
            codes (elim q [
              | zero ↦ digit (n % 10) <> out
              | suc q' ↦ show_from fuel (suc q') (digit (n % 10) <> out)
            ]))
    step shorter zero e = digit-Reads n out e
    step shorter (suc q) e =
        Reads-map (codes (digit (n % 10) <> out)) (codes out) (suc q) n
          (codes (show_from fuel (suc q) (digit (n % 10) <> out))) (digit-scan (suc q) n out e)
          (shorter (suc q) (omega arith))

show-Reads : (n : ℕ) → Reads [] n (codes (show (pos n)))
unfolding show show_ℕ
show-Reads n = show_from-Reads (suc n) n "" (omega arith)

atoi-Reads :
    (n : ℕ) (l : List ℕ)
    → Reads [] n l
    → atoi l ≡ (if leb n 9223372036854775807 then some (pos n) else none)
unfolding atoi scan
atoi-Reads n [] h = absurd h
atoi-Reads n (b ∷ s) (low, high, same) = ground (arith, same)

show_not_empty : (n : ℕ) → (show (pos n) == "") ≡ false
show_not_empty n = elim (Bool-cases (show (pos n) == "")) [
  | inl e ↦
      let empty : show (pos n) ≡ "" = (eq_iff (show (pos n)) "").0 e in
      absurd (subst (λ x. Reads [] n (codes x)) empty (show-Reads n))
  | inr e ↦ e
]

-- Equal modulo 2 ^ 32.
abbrev pub Wraps : ℤ → ℕ → Type 0
Wraps (pos n) m = n % 4294967296 ≡ m % 4294967296
Wraps (negsuc n) m = (m + (n + 1)) % 4294967296 ≡ 0

to_int32-Wraps : (m : ℕ) → IsInt32 (to_int32 (pos m)) × Wraps (to_int32 (pos m)) m
unfolding to_int32
to_int32-Wraps m = ground arith

-- What a port variable of the number `m` makes of the port `default`.
abbrev pub SetBy : ℕ → ℤ → ℤ → Type 0
SetBy m default port =
    ((m ≤ 9223372036854775807) × IsInt32 port × Wraps port m)
    ⊎ ((9223372036854775807 < m) × (port ≡ default))

module _ (getenv : List ℕ → String) where
  override_port :
      (k : String) (f : FrameworkConfig) (m : ℕ)
      → getenv (port_env k) ≡ show (pos m)
      → SetBy m f.default_port (override getenv k f).default_port
  unfolding override
  override_port k f m e =
      rw (e, show_not_empty m, atoi-Reads m (codes (show (pos m))) (show-Reads m))
        (ground (arith, to_int32-Wraps m))

  -- A port variable that holds in decimal digits a number that is a 64-bit `int` sets the port of a
  -- framework of the defaults to the `int32` that is equal to the number modulo 2 ^ 32. A greater
  -- number leaves the default.
  pub port_from_env :
      (k : String) (f : FrameworkConfig) (m : ℕ)
      → find k get_default_config ≡ some f
      → getenv (port_env k) ≡ show (pos m)
      → SetBy m f.default_port (get_framework_port getenv k)
  port_from_env k f m known e =
      subst (SetBy m f.default_port) (sym (framework_port getenv k f known)) (override_port k f m e)
