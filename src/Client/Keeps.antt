-- ===== src/Client/Keeps.antt =====
-- A property of every call that an action makes, one rule for each way to build an action.
use kai_operator.Base.{◌≡◌, refl, Option, none, some, String, Bool, true, false, if◌then◌else◌}
use kai_operator.Base.Labels.{Labels}
use kai_operator.Base.Lists.{All}
use kai_operator.Base.Text.{ℤ}
use kai_operator.Api.Meta.{Key, key_of}
use kai_operator.Client.{
  Error, Result, ok, err, panic, Resource, Client, Kind, Status, Event, got, listed, created,
  updated, status_updated, deleted, spawned, Run, Action, pure, fail, lift, choose, on, ◌>>=◌,
}
use kai_operator.Client.Calls.{
  Object, Task, get, create, update, update_status, delete, list_pods, list_routes, spawn, now,
}

-- Every call of `m` has the property `P`.
pub record Emits {W A : Type 0} (P : Event → Type 0) (m : Action W A) : Type 0 where
  pub at : (s : Run W) → All P s.log → All P (m s).1.log

module _ {W : Type 0} {P : Event → Type 0} where
  pub Emits-pure : {A : Type 0} (a : A) → Emits P (pure {W = W} a)
  Emits-pure a = record { at = λ s h. h }

  pub Emits-fail : {A : Type 0} (e : Error) → Emits P (fail {W = W} {A = A} e)
  Emits-fail e = record { at = λ s h. h }

  pub Emits-lift : {A : Type 0} (r : Result A) → Emits P (lift {W = W} r)
  Emits-lift r = record { at = λ s h. h }

  pub Emits-on :
      {A B : Type 0} (m : Action W A) (f : A → Action W B) (g : Error → Action W B)
      → Emits P m
      → ((a : A) → Emits P (f a))
      → ((e : Error) → Emits P (g e))
      → Emits P (on m f g)
  Emits-on {A} {B} m f g hm hf hg = record { at = λ s h. step (m s).0 (m s).1 (hm.at s h) }
    where
      step : (r : Result A) (t : Run W) → All P t.log → All P (on (λ _. (r, t)) f g t).1.log
      step (ok a) t k = (hf a).at t k
      step (err e) t k = (hg e).at t k
      step (panic p) t k = k

  pub Emits-bind :
      {A B : Type 0} (m : Action W A) (f : A → Action W B)
      → Emits P m
      → ((a : A) → Emits P (f a))
      → Emits P (m >>= f)
  Emits-bind {A} {B} m f hm hf = record { at = λ s h. step (m s).0 (m s).1 (hm.at s h) }
    where
      step : (r : Result A) (t : Run W) → All P t.log → All P (((λ _. (r, t)) >>= f) t).1.log
      step (ok a) t k = (hf a).at t k
      step (err e) t k = k
      step (panic p) t k = k

  -- The rest may use that the first action returned its value.
  pub Emits-bind_ok :
      {A B : Type 0} (m : Action W A) (f : A → Action W B)
      → Emits P m
      → ((s : Run W) (a : A) → (m s).0 ≡ ok a → Emits P (f a))
      → Emits P (m >>= f)
  Emits-bind_ok {A} {B} m f hm hf = record { at = λ s h. step (m s).0 (m s).1 (hm.at s h) (hf s) }
    where
      step :
          (r : Result A) (t : Run W)
          → All P t.log
          → ((a : A) → r ≡ ok a → Emits P (f a))
          → All P (((λ _. (r, t)) >>= f) t).1.log
      step (ok a) t k h = (h a refl).at t k
      step (err e) t k h = k
      step (panic p) t k h = k

  pub Emits-if :
      {A : Type 0} (b : Bool) (m n : Action W A)
      → Emits P m
      → Emits P n
      → Emits P (if b then m else n)
  Emits-if true m n hm hn = hm
  Emits-if false m n hm hn = hn

  pub Emits-choose :
      {A B : Type 0} (o : Option A) (f : A → Action W B) (m : Action W B)
      → ((a : A) → Emits P (f a))
      → Emits P m
      → Emits P (choose o f m)
  Emits-choose none f m hf hm = hm
  Emits-choose (some a) f m hf hm = hf a

  -- The rules of the calls.
  module _ {A : Type 0} ⦃o : Object A⦄ (r : Resource W A) where
    pub Emits-get : (k : Key) → ((x : Status) → P (got o.kind k x)) → Emits P (get r k)
    unfolding get
    Emits-get k h = record { at = λ s l. (h _, l) }

    pub Emits-create :
        (a : A) → ((x : Status) → P (created o.kind (o.meta a) x)) → Emits P (create r a)
    unfolding create
    Emits-create a h = record { at = λ s l. (h _, l) }

    pub Emits-update :
        (a : A) → ((x : Status) → P (updated o.kind (o.meta a) x)) → Emits P (update r a)
    unfolding update
    Emits-update a h = record { at = λ s l. (h _, l) }

    pub Emits-delete :
        (a : A) → ((x : Status) → P (deleted o.kind (key_of (o.meta a)) x)) → Emits P (delete r a)
    unfolding delete
    Emits-delete a h = record { at = λ s l. (h _, l) }

  pub Emits-update_status :
      {A : Type 0} ⦃t : Task A⦄ (r : Resource W A) (a : A)
      → ((x : Status) → P (status_updated t.object.kind (key_of (t.object.meta a)) (t.status a) x))
      → Emits P (update_status r a)
  unfolding update_status
  Emits-update_status r a h = record { at = λ s l. (h _, l) }

  pub Emits-list_pods :
      (c : Client W) (ns : String) (labels : Labels)
      → ((x : Status) → P (listed Kind.pod ns labels x))
      → Emits P (list_pods c ns labels)
  unfolding list_pods
  Emits-list_pods c ns labels h = record { at = λ s l. (h _, l) }

  pub Emits-list_routes :
      (c : Client W) (ns : String) (labels : Labels)
      → ((x : Status) → P (listed Kind.http_route ns labels x))
      → Emits P (list_routes c ns labels)
  unfolding list_routes
  Emits-list_routes c ns labels h = record { at = λ s l. (h _, l) }

  pub Emits-now : (c : Client W) → Emits P (now c)
  unfolding now
  Emits-now c = record { at = λ s h. h }

  pub Emits-spawn :
      {A : Type 0} ⦃o : Object A⦄ (a : A) (ttl : ℤ)
      → P (spawned o.kind (key_of (o.meta a)) ttl)
      → Emits P (spawn {W = W} a ttl)
  unfolding spawn
  Emits-spawn a ttl h = record { at = λ s l. (h, l) }

pub ruleset emits_rules =
    (Emits-pure, Emits-fail, Emits-lift, Emits-on, Emits-bind, Emits-if, Emits-choose, Emits-now)

pub ruleset emits_calls = (
  Emits-get, Emits-create, Emits-update, Emits-delete, Emits-update_status, Emits-list_pods,
  Emits-list_routes,
)
