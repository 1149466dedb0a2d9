-- ===== src/Client/Fallible.antt =====
-- Chains of pure code that may return an error or panic.
use kai_operator.Client.{Result, ok, err, panic}

infixl 5 ◌>>=◌
abbrev pub ◌>>=◌ : {A B : Type 0} → Result A → (A → Result B) → Result B
ok a >>= f = f a
err e >>= f = err e
panic p >>= f = panic p
