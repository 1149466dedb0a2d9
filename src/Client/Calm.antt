-- ===== src/Client/Calm.antt =====
-- Actions that do not panic, one rule for each way to build an action.
use kai_operator.Base.{◌≡◌, refl, Option, none, some, Bool, true, false, if◌then◌else◌, arith}
use kai_operator.Api.Meta.{Key}
use kai_operator.Client.{
  Error, Result, ok, err, panic, Resource, Run, Action, pure, fail, choose, on, ◌>>=◌,
}
use kai_operator.Client.Calls.{Object, get}
use kai_operator.Client.Sure.{is_err}

abbrev pub is_panic : {A : Type 0} → Result A → Bool
is_panic (ok _) = false
is_panic (err _) = false
is_panic (panic _) = true

abbrev pub is_ok : {A : Type 0} → Result A → Bool
is_ok (ok _) = true
is_ok (err _) = false
is_ok (panic _) = false

-- What is neither an error nor a panic is a value.
pub is_ok-both :
    {A : Type 0} (r : Result A) → is_err r ≡ false → is_panic r ≡ false → is_ok r ≡ true
is_ok-both (ok a) e p = refl
is_ok-both (err x) e p = ground arith
is_ok-both (panic x) e p = ground arith

pub is_ok-each :
    {A : Type 0} (r : Result A) → is_ok r ≡ true → (is_err r ≡ false) × (is_panic r ≡ false)
is_ok-each (ok a) h = (refl, refl)
is_ok-each (err x) h = ground arith
is_ok-each (panic x) h = ground arith

-- The reads of a resource give an object or an error.
abbrev pub Answers : {W A : Type 0} → Resource W A → Type 0
Answers {W} r = (k : Key) (w : W) → is_panic (r.get k w).0 ≡ false

-- The action does not panic, whatever the run.
pub record Calm {W A : Type 0} (m : Action W A) : Type 0 where
  pub at : (s : Run W) → is_panic (m s).0 ≡ false

module _ {W : Type 0} where
  pub Calm-pure : {A : Type 0} (a : A) → Calm (pure {W = W} a)
  Calm-pure a = record { at = λ s. refl }

  pub Calm-fail : {A : Type 0} (e : Error) → Calm (fail {W = W} {A = A} e)
  Calm-fail e = record { at = λ s. refl }

  pub Calm-on :
      {A B : Type 0} (m : Action W A) (f : A → Action W B) (g : Error → Action W B)
      → Calm m
      → ((a : A) → Calm (f a))
      → ((e : Error) → Calm (g e))
      → Calm (on m f g)
  Calm-on {A} {B} m f g hm hf hg = record { at = λ s. step (m s).0 (m s).1 (hm.at s) }
    where
      step :
          (r : Result A) (t : Run W)
          → is_panic r ≡ false
          → is_panic (on (λ _. (r, t)) f g t).0 ≡ false
      step (ok a) t h = (hf a).at t
      step (err e) t h = (hg e).at t
      step (panic x) t h = h

  pub Calm-bind :
      {A B : Type 0} (m : Action W A) (f : A → Action W B)
      → Calm m
      → ((a : A) → Calm (f a))
      → Calm (m >>= f)
  Calm-bind {A} {B} m f hm hf = record { at = λ s. step (m s).0 (m s).1 (hm.at s) }
    where
      step :
          (r : Result A) (t : Run W)
          → is_panic r ≡ false
          → is_panic (((λ _. (r, t)) >>= f) t).0 ≡ false
      step (ok a) t h = (hf a).at t
      step (err e) t h = refl
      step (panic x) t h = h

  pub Calm-if :
      {A : Type 0} (b : Bool) (m n : Action W A) → Calm m → Calm n → Calm (if b then m else n)
  Calm-if true m n hm hn = hm
  Calm-if false m n hm hn = hn

  pub Calm-choose :
      {A B : Type 0} (o : Option A) (f : A → Action W B) (m : Action W B)
      → ((a : A) → Calm (f a))
      → Calm m
      → Calm (choose o f m)
  Calm-choose none f m hf hm = hm
  Calm-choose (some a) f m hf hm = hf a

  pub Calm-get :
      {A : Type 0} ⦃o : Object A⦄ (r : Resource W A) (k : Key) → Answers r → Calm (get r k)
  unfolding get
  Calm-get r k h = record { at = λ s. h k s.world }

pub ruleset calm_rules = (Calm-pure, Calm-fail, Calm-on, Calm-bind, Calm-if, Calm-choose, Calm-get)
