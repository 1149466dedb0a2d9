-- ===== src/Config/Names.antt =====
-- The names of the environment variables (toUpperSnakeCase of internal/config/config.go).
use kai_operator.Base.{ℕ, ◌≤◌, Bool, true, false, List, [], ◌∷◌, ◌++◌, ◌≡◌, ◌⊎◌, arith}
use kai_operator.Base.Lists.{All}
use kai_operator.Config.{upper_from, to_upper_snake_case}

-- The bytes of a portable variable's name, digits apart.
abbrev pub IsNameByte : ℕ → Type 0
IsNameByte b = (b ≡ b'_') ⊎ ((b'A' ≤ b) × (b ≤ b'Z'))

upper_from-IsNameByte : (first : Bool) (s : List ℕ) → All IsNameByte (upper_from first s)
unfolding upper_from
upper_from-IsNameByte first [] = tt
upper_from-IsNameByte first (b ∷ s) = ground (arith, upper_from-IsNameByte false s)

-- Whatever the framework's name, its part of a variable's name is made of capital letters and
-- underscores.
pub to_upper_snake_case-IsNameByte : (s : List ℕ) → All IsNameByte (to_upper_snake_case s)
unfolding to_upper_snake_case
to_upper_snake_case-IsNameByte s = upper_from-IsNameByte true s

upper_from-drop_digit :
    (first : Bool) (s t : List ℕ) (a d : ℕ)
    → b'0' ≤ d
    → d ≤ b'9'
    → upper_from first (a ∷ s ++ d ∷ t) ≡ upper_from first (a ∷ s ++ t)
unfolding upper_from
upper_from-drop_digit first [] t a d h k = ground arith
upper_from-drop_digit first (b ∷ s) t a d h k =
    ground (arith, upper_from-drop_digit false s t b d h k)

-- A digit behind the first byte of a framework's name has no effect on the variable's name, so two
-- names that differ in a digit share their variables.
pub digits_ignored :
    (s t : List ℕ) (a d : ℕ)
    → b'0' ≤ d
    → d ≤ b'9'
    → to_upper_snake_case (a ∷ s ++ d ∷ t) ≡ to_upper_snake_case (a ∷ s ++ t)
unfolding to_upper_snake_case
digits_ignored s t a d h k = upper_from-drop_digit true s t a d h k
