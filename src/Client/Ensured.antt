-- ===== src/Client/Ensured.antt =====
-- The order of calls around a deployment that is read, and created if there is none, before a
-- handler goes on (the creating phases of internal/controller/inference/inference_phases.go and
-- internal/controller/devtask/devtask_phases.go).
use kai_operator.Base.{◌≡◌, refl, Bool, true, false, if◌then◌else◌, List, [], ◌∷◌, arith, eq_iff}
use kai_operator.Base.Lists.{All, any}
use kai_operator.Api.Meta.{Key, ObjectMeta, key_of}
use kai_operator.Api.Kube.{Deployment}
use kai_operator.Api.Task.{
  TaskPhase, unset, pending, creating, running, completed, failed, terminating, other,
}
use kai_operator.Client.{
  Error, Result, ok, err, panic, Resource, Client, is_not_found, Kind, success, Event, got, listed,
  created, updated, status_updated, deleted, patched, deleted_all, spawned, Run, run_at, Action,
  fail, on, ◌>>=◌,
}
use kai_operator.Client.Calls.{get, create, deployment_object}
use kai_operator.Client.Keeps.{Emits}
use kai_operator.Client.Writes.{WritesOf, of_task}
use kai_operator.Client.Order.{After, same_key}
use kai_operator.Client.Settles.{Settles}
use kai_operator.Client.Kept.{Kept, Makes, Kept-fail, Kept-guard, Kept-if, Kept-get, Kept-create}

abbrev pub is_running : TaskPhase → Bool
is_running running = true
is_running _ = false

-- A status with the phase running that is written.
abbrev pub is_running_write : Event → Bool
is_running_write (status_updated _ _ status _) = is_running status.phase
is_running_write _ = false

-- A deployment that was found at a key, or created under it.
abbrev pub has_deployment : Key → Event → Bool
has_deployment k (got Kind.deployment j success) = same_key k j
has_deployment k (created Kind.deployment m success) = same_key k (key_of m)
has_deployment k _ = false

-- The controller reference is recorded on the object, under the name and the namespace that it has.
abbrev pub KeepsKey : {W : Type 0} → Client W → Type 0
KeepsKey c =
    (owner m m' : ObjectMeta) → c.set_controller_reference owner m ≡ ok m' → key_of m' ≡ key_of m

module _ {W : Type 0} (r : Resource W Deployment) where
  get-Makes : (k : Key) → Makes (has_deployment k) (get r k)
  unfolding get
  get-Makes k s a e = ground (arith, eq_iff k.name k.name, eq_iff k.namespace k.namespace)

  create-Makes :
      (k : Key) (d : Deployment) → key_of d.meta ≡ k → Makes (has_deployment k) (create r d)
  unfolding create
  create-Makes k d h s a e = ground (
    arith,
    eq_iff d.meta.name d.meta.name,
    eq_iff d.meta.namespace d.meta.namespace,
    eq_iff k.name d.meta.name,
    eq_iff k.namespace d.meta.namespace,
  )

  -- What follows a deployment that was found may write the phase running.
  pub found-Kept :
      {B : Type 0} (k : Key) (f : Deployment → Action W B) (g : Error → Action W B)
      → ((a : Deployment) → Settles is_running_write (has_deployment k) (f a))
      → ((e : Error) → Kept is_running_write (has_deployment k) (g e))
      → Kept is_running_write (has_deployment k) (on (get r k) f g)
  found-Kept k f g hf hg = Kept-guard (get r k) f g (Kept-get r k (λ _. refl)) (get-Makes k) hf hg

  -- So may what follows one that was found or created.
  pub ensured-Kept :
      {B : Type 0} (k : Key) (d : Deployment) (f : Deployment → Action W B) (g : Error → Action W B)
      → key_of d.meta ≡ k
      → ((a : Deployment) → Settles is_running_write (has_deployment k) (f a))
      → ((e : Error) → Kept is_running_write (has_deployment k) (g e))
      → Kept is_running_write
          (has_deployment k)
          (on (get r k) f (λ e. if is_not_found e then on (create r d) f g else fail e))
  ensured-Kept k d f g h hf hg = found-Kept k f _ hf (λ e.
      Kept-if (is_not_found e) (on (create r d) f g) (fail e)
        (Kept-guard (create r d) f g (Kept-create r d (λ _. refl)) (create-Makes k d h) hf hg)
        (Kept-fail e))

-- A write of a phase that is never running.
quiet :
    (ks : List Kind) (Q : TaskPhase → Type 0) (e : Event)
    → (Q running → ⊥)
    → WritesOf ks Q e
    → is_running_write e ≡ false
quiet ks Q (got _ _ _) never h = refl
quiet ks Q (listed _ _ _ _) never h = refl
quiet ks Q (created _ _ _) never h = refl
quiet ks Q (updated _ _ _) never h = refl
quiet ks Q (deleted _ _ _) never h = refl
quiet ks Q (patched _ _ _) never h = refl
quiet ks Q (deleted_all _ _ _) never h = refl
quiet ks Q (spawned _ _ _) never h = refl
quiet ks Q (status_updated k _ status _) never h = step status.phase (of_task k _ h)
  where
    step : (p : TaskPhase) → Q p → is_running p ≡ false
    step unset h = refl
    step pending h = refl
    step creating h = refl
    step running h = absurd (never h)
    step completed h = refl
    step failed h = refl
    step terminating h = refl
    step (other _) h = refl

quiet-After :
    (ks : List Kind) (Q : TaskPhase → Type 0) (q : Event → Bool) (l : List Event)
    → (Q running → ⊥)
    → All (WritesOf ks Q) l
    → After is_running_write q l
quiet-After ks Q q [] never h = tt
quiet-After ks Q q (e ∷ l) never h =
    let same = quiet ks Q e never h.0 in ((λ y. ground arith), quiet-After ks Q q l never h.1)

-- From a world, with no call made, the action keeps the order.
pub record Starts {W A : Type 0} (p q : Event → Bool) (w : W) (m : Action W A) : Type 0 where
  pub at : After p q (m (run_at w)).1.log

pub Starts-if :
    {W A : Type 0} {p q : Event → Bool} {w : W} (b : Bool) (m n : Action W A)
    → Starts p q w m
    → Starts p q w n
    → Starts p q w (if b then m else n)
Starts-if true m n hm hn = hm
Starts-if false m n hm hn = hn

pub Starts-Kept :
    {W A : Type 0} {p q : Event → Bool} {w : W} {m : Action W A} → Kept p q m → Starts p q w m
Starts-Kept {w = w} h = record { at = h.at (run_at w) tt }

module _ {W : Type 0} (ks : List Kind) (Q : TaskPhase → Type 0) (never : Q running → ⊥)
    {q : Event → Bool} {w : W} where
  -- An action that never writes the phase running.
  pub Starts-quiet :
      {A : Type 0} {m : Action W A} → Emits (WritesOf ks Q) m → Starts is_running_write q w m
  Starts-quiet hm = record { at = quiet-After ks Q q _ never (hm.at (run_at w) tt) }

  -- It may come first.
  pub Starts-quiet_bind :
      {A B : Type 0} (m : Action W A) (f : A → Action W B)
      → Emits (WritesOf ks Q) m
      → ((a : A) → Kept is_running_write q (f a))
      → Starts is_running_write q w (m >>= f)
  Starts-quiet_bind {A} {B} m f hm hf = record {
    at = step (m (run_at w)).0 (m (run_at w)).1 (Starts-quiet hm).at;
  }
    where
      step :
          (r : Result A) (t : Run W)
          → After is_running_write q t.log
          → After is_running_write q (((λ _. (r, t)) >>= f) t).1.log
      step (ok a) t k = (hf a).at t k
      step (err e) t k = k
      step (panic x) t k = k

-- What follows a read that failed, with no call made before it, must never write the phase running.
pub Starts-found :
    {W B : Type 0} (ks : List Kind) (Q : TaskPhase → Type 0) (never : Q running → ⊥) {w : W}
    (r : Resource W Deployment) (k : Key) (f : Deployment → Action W B) (g : Error → Action W B)
    → ((a : Deployment) → Settles is_running_write (has_deployment k) (f a))
    → ((e : Error) → Emits (WritesOf ks Q) (g e))
    → Starts is_running_write (has_deployment k) w (on (get r k) f g)
unfolding get
Starts-found {W} {B} ks Q never {w = w} r k f g hf hg = record {
  at =
      step (get r k (run_at w)).0 (get r k (run_at w)).1 (get-Makes r k (run_at w)) ((λ h. h), tt)
        (tt, tt);
}
  where
    step :
        (x : Result Deployment) (t : Run W)
        → ((a : Deployment) → x ≡ ok a → any (has_deployment k) t.log ≡ true)
        → After is_running_write (has_deployment k) t.log
        → All (WritesOf ks Q) t.log
        → After is_running_write (has_deployment k) (on (λ _. (x, t)) f g t).1.log
    step (ok a) t made order all = ((hf a).at t (made a refl, order)).1
    step (err e) t made order all = quiet-After ks Q _ _ never ((hg e).at t all)
    step (panic y) t made order all = order
