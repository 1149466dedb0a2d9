-- ===== src/Client/Sure.antt =====
-- Actions that return no error, one rule for each way to build an action.
use kai_operator.Base.{◌≡◌, refl, Option, none, some, Bool, true, false, if◌then◌else◌}
use kai_operator.Client.{Error, Result, ok, err, panic, Run, Action, pure, choose, on, ◌>>=◌}

abbrev pub is_err : {A : Type 0} → Result A → Bool
is_err (ok _) = false
is_err (err _) = true
is_err (panic _) = false

-- The action returns no error, whatever the run.
pub record Sure {W A : Type 0} (m : Action W A) : Type 0 where
  pub at : (s : Run W) → is_err (m s).0 ≡ false

module _ {W : Type 0} where
  pub Sure-pure : {A : Type 0} (a : A) → Sure (pure {W = W} a)
  Sure-pure a = record { at = λ s. refl }

  pub Sure-on :
      {A B : Type 0} (m : Action W A) (f : A → Action W B) (g : Error → Action W B)
      → ((a : A) → Sure (f a))
      → ((e : Error) → Sure (g e))
      → Sure (on m f g)
  Sure-on {A} {B} m f g hf hg = record { at = λ s. step (m s).0 (m s).1 }
    where
      step : (r : Result A) (t : Run W) → is_err (on (λ _. (r, t)) f g t).0 ≡ false
      step (ok a) t = (hf a).at t
      step (err e) t = (hg e).at t
      step (panic x) t = refl

  pub Sure-bind :
      {A B : Type 0} (m : Action W A) (f : A → Action W B)
      → Sure m
      → ((a : A) → Sure (f a))
      → Sure (m >>= f)
  Sure-bind {A} {B} m f hm hf = record { at = λ s. step (m s).0 (m s).1 (hm.at s) }
    where
      step :
          (r : Result A) (t : Run W) → is_err r ≡ false → is_err (((λ _. (r, t)) >>= f) t).0 ≡ false
      step (ok a) t h = (hf a).at t
      step (err e) t h = h
      step (panic x) t h = refl

  pub Sure-if :
      {A : Type 0} (b : Bool) (m n : Action W A) → Sure m → Sure n → Sure (if b then m else n)
  Sure-if true m n hm hn = hm
  Sure-if false m n hm hn = hn

  pub Sure-choose :
      {A B : Type 0} (o : Option A) (f : A → Action W B) (m : Action W B)
      → ((a : A) → Sure (f a))
      → Sure m
      → Sure (choose o f m)
  Sure-choose none f m hf hm = hm
  Sure-choose (some a) f m hf hm = hf a

pub ruleset sure_rules = (Sure-pure, Sure-on, Sure-bind, Sure-if, Sure-choose)
