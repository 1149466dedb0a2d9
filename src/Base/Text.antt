-- ===== src/Base/Text.antt =====
-- `fmt.Sprintf("%d", n)` of an `int32`, and the integers that it prints.
use Prim.Native.Nat.{ℕ, zero, suc, ◌/◌, ◌%◌, compare, Ordering}
use Prim.Native.String.{String, ◌++◌ as ◌<>◌}
use mathlib.Core.Bool.{Bool, true, false}

-- An `int32`; `negsuc n` is -(n + 1).
pub data ℤ : Type 0 where
  pos : ℕ → ℤ
  negsuc : ℕ → ℤ

abbrev pub is_pos : ℤ → Bool
is_pos (pos zero) = false
is_pos (pos (suc n)) = true
is_pos (negsuc n) = false

-- The test `z == n` against a constant.
abbrev pub is_int : ℕ → ℤ → Bool
is_int n (pos m) = elim (compare m n) [ Ordering.eq ↦ true | _ ↦ false ]
is_int n (negsuc m) = false

abbrev pub digit : ℕ → String
digit zero = "0"
digit (suc zero) = "1"
digit (suc (suc zero)) = "2"
digit (suc (suc (suc zero))) = "3"
digit (suc (suc (suc (suc zero)))) = "4"
digit (suc (suc (suc (suc (suc zero))))) = "5"
digit (suc (suc (suc (suc (suc (suc zero)))))) = "6"
digit (suc (suc (suc (suc (suc (suc (suc zero))))))) = "7"
digit (suc (suc (suc (suc (suc (suc (suc (suc zero)))))))) = "8"
digit _ = "9"

-- The digits of `n` in front of `out`; the fuel is at least the number of digits.
unfoldable pub show_from : ℕ → ℕ → String → String
show_from zero n out = out
show_from (suc fuel) n out = elim (n / 10) [
  | zero ↦ digit (n % 10) <> out
  | suc q ↦ show_from fuel (suc q) (digit (n % 10) <> out)
]

unfoldable pub show_ℕ : ℕ → String
unfolding show_from
show_ℕ n = show_from (suc n) n ""

unfoldable pub show : ℤ → String
unfolding show_ℕ
show (pos n) = show_ℕ n
show (negsuc n) = "-" <> show_ℕ (suc n)
