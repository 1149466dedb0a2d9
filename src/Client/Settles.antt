-- ===== src/Client/Settles.antt =====
-- The order of calls in an action that is put together from others: once a call that passes `q` was
-- made, whatever follows keeps the order `After p q`.
use kai_operator.Base.{
  ◌≡◌, refl, String, Bool, true, false, Option, none, some, if◌then◌else◌, List, ◌∷◌, arith,
}
use kai_operator.Base.Labels.{Labels}
use kai_operator.Base.Lists.{any}
use kai_operator.Api.Meta.{Key}
use kai_operator.Client.{
  Error, Result, ok, err, panic, Resource, Client, Event, Run, Action, pure, fail, lift, choose, on,
  ◌>>=◌,
}
use kai_operator.Client.Calls.{
  Object, Task, get, create, update, update_status, delete, list_pods, list_routes,
}
use kai_operator.Client.Order.{After}

-- A call that passes `q` was made, and the order is kept.
abbrev pub Settled : (Event → Bool) → (Event → Bool) → List Event → Type 0
Settled p q l = (any q l ≡ true) × After p q l

-- The action keeps that.
pub record Settles {W A : Type 0} (p q : Event → Bool) (m : Action W A) : Type 0 where
  pub at : (s : Run W) → Settled p q s.log → Settled p q (m s).1.log

any-more : (q : Event → Bool) (e : Event) (l : List Event) → any q l ≡ true → any q (e ∷ l) ≡ true
any-more q e l h = ground arith

more : (p q : Event → Bool) (e : Event) (l : List Event) → Settled p q l → Settled p q (e ∷ l)
more p q e l h = (any-more q e l h.0, (λ _. h.0, h.1))

-- From the run `s`, the action keeps the order, and it succeeds only if it made a call that
-- passes `q`.
pub record Reaches {W A : Type 0} (p q : Event → Bool) (m : Action W A) (s : Run W) : Type 0 where
  pub order : After p q (m s).1.log
  pub made : (a : A) → (m s).0 ≡ ok a → any q (m s).1.log ≡ true

module _ {W : Type 0} {p q : Event → Bool} where
  pub Settles-pure : {A : Type 0} (a : A) → Settles p q (pure {W = W} a)
  Settles-pure a = record { at = λ s h. h }

  pub Settles-fail : {A : Type 0} (e : Error) → Settles p q (fail {W = W} {A = A} e)
  Settles-fail e = record { at = λ s h. h }

  pub Settles-lift : {A : Type 0} (r : Result A) → Settles p q (lift {W = W} r)
  Settles-lift r = record { at = λ s h. h }

  pub Settles-on :
      {A B : Type 0} (m : Action W A) (f : A → Action W B) (g : Error → Action W B)
      → Settles p q m
      → ((a : A) → Settles p q (f a))
      → ((e : Error) → Settles p q (g e))
      → Settles p q (on m f g)
  Settles-on {A} {B} m f g hm hf hg = record { at = λ s h. step (m s).0 (m s).1 (hm.at s h) }
    where
      step :
          (r : Result A) (t : Run W)
          → Settled p q t.log
          → Settled p q (on (λ _. (r, t)) f g t).1.log
      step (ok a) t k = (hf a).at t k
      step (err e) t k = (hg e).at t k
      step (panic x) t k = k

  pub Settles-bind :
      {A B : Type 0} (m : Action W A) (f : A → Action W B)
      → Settles p q m
      → ((a : A) → Settles p q (f a))
      → Settles p q (m >>= f)
  Settles-bind {A} {B} m f hm hf = record { at = λ s h. step (m s).0 (m s).1 (hm.at s h) }
    where
      step :
          (r : Result A) (t : Run W)
          → Settled p q t.log
          → Settled p q (((λ _. (r, t)) >>= f) t).1.log
      step (ok a) t k = (hf a).at t k
      step (err e) t k = k
      step (panic x) t k = k

  pub Settles-if :
      {A : Type 0} (b : Bool) (m n : Action W A)
      → Settles p q m
      → Settles p q n
      → Settles p q (if b then m else n)
  Settles-if true m n hm hn = hm
  Settles-if false m n hm hn = hn

  pub Settles-choose :
      {A B : Type 0} (x : Option A) (f : A → Action W B) (m : Action W B)
      → ((a : A) → Settles p q (f a))
      → Settles p q m
      → Settles p q (choose x f m)
  Settles-choose none f m hf hm = hm
  Settles-choose (some a) f m hf hm = hf a

  -- The rules of the calls, which ask for nothing.
  module _ {A : Type 0} ⦃o : Object A⦄ (r : Resource W A) where
    pub Settles-get : (k : Key) → Settles p q (get r k)
    unfolding get
    Settles-get k = record { at = λ s h. more p q _ s.log h }

    pub Settles-create : (a : A) → Settles p q (create r a)
    unfolding create
    Settles-create a = record { at = λ s h. more p q _ s.log h }

    pub Settles-update : (a : A) → Settles p q (update r a)
    unfolding update
    Settles-update a = record { at = λ s h. more p q _ s.log h }

    pub Settles-delete : (a : A) → Settles p q (delete r a)
    unfolding delete
    Settles-delete a = record { at = λ s h. more p q _ s.log h }

  pub Settles-update_status :
      {A : Type 0} ⦃t : Task A⦄ (r : Resource W A) (a : A) → Settles p q (update_status r a)
  unfolding update_status
  Settles-update_status r a = record { at = λ s h. more p q _ s.log h }

  pub Settles-list_pods :
      (c : Client W) (ns : String) (labels : Labels) → Settles p q (list_pods c ns labels)
  unfolding list_pods
  Settles-list_pods c ns labels = record { at = λ s h. more p q _ s.log h }

  pub Settles-list_routes :
      (c : Client W) (ns : String) (labels : Labels) → Settles p q (list_routes c ns labels)
  unfolding list_routes
  Settles-list_routes c ns labels = record { at = λ s h. more p q _ s.log h }

  pub Reaches-bind :
      {A B : Type 0} (m : Action W A) (f : A → Action W B) (s : Run W)
      → Reaches p q m s
      → ((a : A) → Settles p q (f a))
      → Reaches p q (m >>= f) s
  Reaches-bind {A} {B} m f s hm hf =
      let (order, made) = step (m s).0 (m s).1 hm.order hm.made in
      record { order = order; made = made }
    where
      step :
          (r : Result A) (t : Run W)
          → After p q t.log
          → ((a : A) → r ≡ ok a → any q t.log ≡ true)
          → let (x, u) = ((λ _. (r, t)) >>= f) s in
            After p q u.log × ((b : B) → x ≡ ok b → any q u.log ≡ true)
      step (ok a) t k h = let after = (hf a).at t (h a refl, k) in (after.1, λ _ _. after.0)
      step (err e) t k h = (k, λ b x. ground arith)
      step (panic y) t k h = (k, λ b x. ground arith)

pub ruleset settles_rules = (
  Settles-pure, Settles-fail, Settles-lift, Settles-on, Settles-bind, Settles-if, Settles-choose,
  Settles-get, Settles-create, Settles-update_status, Settles-update, Settles-delete,
  Settles-list_routes, Settles-list_pods,
)
