-- ===== src/Client/Kept.antt =====
-- Actions that keep the order of calls: where every call so far that passes `p` came after one that
-- passes `q`, so does every call after the action. One rule for each way to build an action; a call
-- that passes `q` when it succeeds frees what follows it.
use kai_operator.Base.{◌≡◌, refl, Bool, true, false, if◌then◌else◌, List, ◌∷◌, arith}
use kai_operator.Base.Lists.{any}
use kai_operator.Api.Meta.{Key, key_of}
use kai_operator.Client.{
  Error, Result, ok, err, panic, Resource, Status, Event, got, created, status_updated, Run, Action,
  pure, fail, lift, on, ◌>>=◌,
}
use kai_operator.Client.Calls.{
  Object, Task, get, create, update_status, deployment_object, service_object,
}
use kai_operator.Client.Order.{After}
use kai_operator.Client.Settles.{Settles}

pub record Kept {W A : Type 0} (p q : Event → Bool) (m : Action W A) : Type 0 where
  pub at : (s : Run W) → After p q s.log → After p q (m s).1.log

-- A success of the action is a call that passes `q`.
abbrev pub Makes : {W A : Type 0} → (Event → Bool) → Action W A → Type 0
Makes {W} {A} q m = (s : Run W) (a : A) → (m s).0 ≡ ok a → any q (m s).1.log ≡ true

-- A call that does not pass `p` keeps the order.
keep :
    (p q : Event → Bool) (e : Event) (l : List Event)
    → p e ≡ false
    → After p q l
    → After p q (e ∷ l)
keep p q e l h k = ((λ y. ground arith), k)

module _ {W : Type 0} {p q : Event → Bool} where
  pub Kept-pure : {A : Type 0} (a : A) → Kept p q (pure {W = W} a)
  Kept-pure a = record { at = λ s h. h }

  pub Kept-fail : {A : Type 0} (e : Error) → Kept p q (fail {W = W} {A = A} e)
  Kept-fail e = record { at = λ s h. h }

  pub Kept-lift : {A : Type 0} (r : Result A) → Kept p q (lift {W = W} r)
  Kept-lift r = record { at = λ s h. h }

  pub Kept-on :
      {A B : Type 0} (m : Action W A) (f : A → Action W B) (g : Error → Action W B)
      → Kept p q m
      → ((a : A) → Kept p q (f a))
      → ((e : Error) → Kept p q (g e))
      → Kept p q (on m f g)
  Kept-on {A} {B} m f g hm hf hg = record { at = λ s h. step (m s).0 (m s).1 (hm.at s h) }
    where
      step : (r : Result A) (t : Run W) → After p q t.log → After p q (on (λ _. (r, t)) f g t).1.log
      step (ok a) t k = (hf a).at t k
      step (err e) t k = (hg e).at t k
      step (panic x) t k = k

  -- After a call that passes `q`, whatever follows keeps the order.
  pub Kept-guard :
      {A B : Type 0} (m : Action W A) (f : A → Action W B) (g : Error → Action W B)
      → Kept p q m
      → Makes q m
      → ((a : A) → Settles p q (f a))
      → ((e : Error) → Kept p q (g e))
      → Kept p q (on m f g)
  Kept-guard {A} {B} m f g hm made hf hg = record {
    at = λ s h. step (m s).0 (m s).1 (hm.at s h) (made s);
  }
    where
      step :
          (r : Result A) (t : Run W)
          → After p q t.log
          → ((a : A) → r ≡ ok a → any q t.log ≡ true)
          → After p q (on (λ _. (r, t)) f g t).1.log
      step (ok a) t k made = ((hf a).at t (made a refl, k)).1
      step (err e) t k made = (hg e).at t k
      step (panic x) t k made = k

  pub Kept-bind :
      {A B : Type 0} (m : Action W A) (f : A → Action W B)
      → Kept p q m
      → ((a : A) → Kept p q (f a))
      → Kept p q (m >>= f)
  Kept-bind {A} {B} m f hm hf = record { at = λ s h. step (m s).0 (m s).1 (hm.at s h) }
    where
      step :
          (r : Result A) (t : Run W) → After p q t.log → After p q (((λ _. (r, t)) >>= f) t).1.log
      step (ok a) t k = (hf a).at t k
      step (err e) t k = k
      step (panic x) t k = k

  -- What follows a value that was computed may use what it is.
  pub Kept-lift_on :
      {A B : Type 0} (r : Result A) (f : A → Action W B) (g : Error → Action W B)
      → ((a : A) → r ≡ ok a → Kept p q (f a))
      → ((e : Error) → Kept p q (g e))
      → Kept p q (on (lift r) f g)
  Kept-lift_on (ok a) f g hf hg = record { at = λ s h. (hf a refl).at s h }
  Kept-lift_on (err e) f g hf hg = record { at = λ s h. (hg e).at s h }
  Kept-lift_on (panic x) f g hf hg = record { at = λ s h. h }

  pub Kept-lift_bind :
      {A B : Type 0} (r : Result A) (f : A → Action W B)
      → ((a : A) → r ≡ ok a → Kept p q (f a))
      → Kept p q (lift r >>= f)
  Kept-lift_bind (ok a) f hf = record { at = λ s h. (hf a refl).at s h }
  Kept-lift_bind (err e) f hf = record { at = λ s h. h }
  Kept-lift_bind (panic x) f hf = record { at = λ s h. h }

  pub Kept-if :
      {A : Type 0} (b : Bool) (m n : Action W A)
      → Kept p q m
      → Kept p q n
      → Kept p q (if b then m else n)
  Kept-if true m n hm hn = hm
  Kept-if false m n hm hn = hn

  -- The rules of the calls that do not pass `p`.
  module _ {A : Type 0} ⦃o : Object A⦄ (r : Resource W A) where
    pub Kept-get : (k : Key) → ((x : Status) → p (got o.kind k x) ≡ false) → Kept p q (get r k)
    unfolding get
    Kept-get k h = record { at = λ s l. keep p q _ s.log (h _) l }

    pub Kept-create :
        (a : A) → ((x : Status) → p (created o.kind (o.meta a) x) ≡ false) → Kept p q (create r a)
    unfolding create
    Kept-create a h = record { at = λ s l. keep p q _ s.log (h _) l }

  pub Kept-update_status :
      {A : Type 0} ⦃t : Task A⦄ (r : Resource W A) (a : A)
      → ((x : Status)
          → p (status_updated t.object.kind (key_of (t.object.meta a)) (t.status a) x) ≡ false)
      → Kept p q (update_status r a)
  unfolding update_status
  Kept-update_status r a h = record { at = λ s l. keep p q _ s.log (h _) l }

pub ruleset kept_rules = (
  Kept-pure, Kept-fail, Kept-lift, Kept-on, Kept-bind, Kept-if, Kept-get, Kept-create,
  Kept-update_status,
)
