-- ===== src/Client/Wakes.antt =====
-- Actions that end without asking for another reconciliation only if the server took a write, one rule
-- for each way to build an action.
use kai_operator.Base.{◌≡◌, Bool, true, false, Option, none, some, if◌then◌else◌, arith}
use kai_operator.Base.Lists.{any}
use kai_operator.Client.{
  Error, Result, ok, err, panic, Resource, Kind, success, Event, updated, status_updated, Run,
  Action, fail, choose, on, ◌>>=◌, ◌>>◌,
}
use kai_operator.Client.Calls.{Object, Task, update, update_status}
use kai_operator.Reconcile.{Requeue, done, again}

abbrev pub is_task : Kind → Bool
is_task Kind.dev_task = true
is_task Kind.inference_task = true
is_task Kind.train_task = true
is_task Kind.fine_tune_task = true
is_task Kind.eval_task = true
is_task _ = false

-- The server took a write of a task, or of its status.
abbrev pub is_stored : Event → Bool
is_stored (updated k _ success) = is_task k
is_stored (status_updated k _ _ success) = is_task k
is_stored _ = false

pub record Wakes {W : Type 0} (m : Action W Requeue) : Type 0 where
  pub at : (s : Run W) → (m s).0 ≡ ok none → any is_stored (m s).1.log ≡ true

module _ {W : Type 0} where
  pub Wakes-again : Wakes (again {W = W})
  Wakes-again = record { at = λ s e. ground arith }

  pub Wakes-fail : (e : Error) → Wakes (fail {W = W} e)
  Wakes-fail e = record { at = λ s h. ground arith }

  pub Wakes-on :
      {A : Type 0} (m : Action W A) (f : A → Action W Requeue) (g : Error → Action W Requeue)
      → ((a : A) → Wakes (f a))
      → ((e : Error) → Wakes (g e))
      → Wakes (on m f g)
  Wakes-on {A} m f g hf hg = record { at = λ s. step (m s).0 (m s).1 }
    where
      step :
          (r : Result A) (t : Run W)
          → let (x, u) = on (λ _. (r, t)) f g t in x ≡ ok none → any is_stored u.log ≡ true
      step (ok a) t e = (hf a).at t e
      step (err x) t e = (hg x).at t e
      step (panic x) t e = ground arith

  pub Wakes-bind :
      {A : Type 0} (m : Action W A) (f : A → Action W Requeue)
      → ((a : A) → Wakes (f a))
      → Wakes (m >>= f)
  Wakes-bind {A} m f hf = record { at = λ s. step (m s).0 (m s).1 }
    where
      step :
          (r : Result A) (t : Run W)
          → let (x, u) = ((λ _. (r, t)) >>= f) t in x ≡ ok none → any is_stored u.log ≡ true
      step (ok a) t e = (hf a).at t e
      step (err x) t e = ground arith
      step (panic x) t e = ground arith

  pub Wakes-if :
      (b : Bool) (m n : Action W Requeue) → Wakes m → Wakes n → Wakes (if b then m else n)
  Wakes-if true m n hm hn = hm
  Wakes-if false m n hm hn = hn

  pub Wakes-choose :
      {A : Type 0} (x : Option A) (f : A → Action W Requeue) (m : Action W Requeue)
      → ((a : A) → Wakes (f a))
      → Wakes m
      → Wakes (choose x f m)
  Wakes-choose none f m hf hm = hm
  Wakes-choose (some a) f m hf hm = hf a

  -- A handler that ends after a write.
  pub Wakes-update :
      {A : Type 0} ⦃o : Object A⦄ (r : Resource W A) (a : A)
      → is_task o.kind ≡ true
      → Wakes (update r a >> done)
  unfolding update
  Wakes-update r a h = record { at = λ s e. ground arith }

  pub Wakes-update_status :
      {A : Type 0} ⦃t : Task A⦄ (r : Resource W A) (a : A)
      → is_task t.object.kind ≡ true
      → Wakes (update_status r a >> done)
  unfolding update_status
  Wakes-update_status r a h = record { at = λ s e. ground arith }

pub ruleset wakes_rules = (
  Wakes-update_status, Wakes-update, Wakes-again, Wakes-fail, Wakes-on, Wakes-bind, Wakes-if,
  Wakes-choose,
)
