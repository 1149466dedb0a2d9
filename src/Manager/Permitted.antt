-- ===== src/Manager/Permitted.antt =====
-- The calls of the controllers, and what the role of the operator permits (the rbac markers and the
-- SetupWithManager of each reconciler).
use kai_operator.Base.{◌≡◌, refl, true, String, List, [], ◌∷◌}
use kai_operator.Base.Labels.{Labels}
use kai_operator.Base.Text.{ℤ}
use kai_operator.Base.Lists.{All}
use kai_operator.Api.Meta.{Key, ObjectMeta}
use kai_operator.Api.Task.{TaskStatus}
use kai_operator.Client.{
  Kind, run_at, Status, Event, got, listed, created, updated, status_updated, deleted, patched,
  deleted_all, spawned,
}
use kai_operator.Client.Writes.{AnyPhase, IsOneOf, IsUpdated, OfTask, WritesOf}
use kai_operator.Host.{System}
use kai_operator.Utilities.{reconcile_train_task}
use kai_operator.DevTask.Controller as DevTask
use kai_operator.DevTask.Calls.{dev_reconcile-Writes}
use kai_operator.InferenceTask.Controller as InferenceTask
use kai_operator.InferenceTask.Calls.{inference_reconcile-Writes}
use kai_operator.FineTuneTask.Controller as FineTuneTask
use kai_operator.FineTuneTask.Calls.{tuning_reconcile-Writes}
use kai_operator.EvalTask.Controller as EvalTask
use kai_operator.EvalTask.Calls.{eval_reconcile-Writes}
use kai_operator.Manager.{
  Setup, dev_task_setup, train_task_setup, fine_tune_task_setup, eval_task_setup,
  inference_task_setup,
}
use kai_operator.Manager.Role.{permitted}

-- The role permits the call; what it creates or deletes is of a kind that the controller owns, what
-- it updates is a task or a route, and the statuses that it writes and the deletions that it
-- schedules are those of tasks.
abbrev pub IsWithin : Setup → Event → Type 0
IsWithin s e = (permitted e ≡ true) × WritesOf s.owns AnyPhase e

got_permitted : (k : Kind) (key : Key) (x : Status) → permitted (got k key x) ≡ true
unfolding permitted
got_permitted Kind.dev_task key x = refl
got_permitted Kind.inference_task key x = refl
got_permitted Kind.train_task key x = refl
got_permitted Kind.fine_tune_task key x = refl
got_permitted Kind.eval_task key x = refl
got_permitted Kind.deployment key x = refl
got_permitted Kind.service key x = refl
got_permitted Kind.job key x = refl
got_permitted Kind.pod key x = refl
got_permitted Kind.http_route key x = refl
got_permitted Kind.gateway key x = refl

listed_permitted :
    (k : Kind) (ns : String) (labels : Labels) (x : Status)
    → permitted (listed k ns labels x) ≡ true
unfolding permitted
listed_permitted Kind.dev_task ns labels x = refl
listed_permitted Kind.inference_task ns labels x = refl
listed_permitted Kind.train_task ns labels x = refl
listed_permitted Kind.fine_tune_task ns labels x = refl
listed_permitted Kind.eval_task ns labels x = refl
listed_permitted Kind.deployment ns labels x = refl
listed_permitted Kind.service ns labels x = refl
listed_permitted Kind.job ns labels x = refl
listed_permitted Kind.pod ns labels x = refl
listed_permitted Kind.http_route ns labels x = refl
listed_permitted Kind.gateway ns labels x = refl

updated_permitted :
    (k : Kind) (m : ObjectMeta) (x : Status) → IsUpdated k → permitted (updated k m x) ≡ true
unfolding permitted
updated_permitted Kind.http_route m x h = refl
updated_permitted Kind.dev_task m x h = refl
updated_permitted Kind.inference_task m x h = refl
updated_permitted Kind.train_task m x h = refl
updated_permitted Kind.fine_tune_task m x h = refl
updated_permitted Kind.eval_task m x h = refl
updated_permitted _ m x h = absurd h

status_permitted :
    (k : Kind) (key : Key) (status : TaskStatus) (x : Status)
    → OfTask k Unit
    → permitted (status_updated k key status x) ≡ true
unfolding permitted
status_permitted Kind.dev_task key status x h = refl
status_permitted Kind.inference_task key status x h = refl
status_permitted Kind.train_task key status x h = refl
status_permitted Kind.fine_tune_task key status x h = refl
status_permitted Kind.eval_task key status x h = refl
status_permitted _ key status x h = absurd h

spawned_permitted :
    (k : Kind) (key : Key) (ttl : ℤ) → OfTask k Unit → permitted (spawned k key ttl) ≡ true
unfolding permitted
spawned_permitted Kind.dev_task key ttl h = refl
spawned_permitted Kind.inference_task key ttl h = refl
spawned_permitted Kind.train_task key ttl h = refl
spawned_permitted Kind.fine_tune_task key ttl h = refl
spawned_permitted Kind.eval_task key ttl h = refl
spawned_permitted _ key ttl h = absurd h

module _ (ks : List Kind) (no_gateway : IsOneOf ks Kind.gateway → ⊥) where
  created_permitted :
      (k : Kind) (m : ObjectMeta) (x : Status) → IsOneOf ks k → permitted (created k m x) ≡ true
  unfolding permitted
  created_permitted Kind.gateway m x h = absurd (no_gateway h)
  created_permitted _ m x h = refl

  deleted_permitted :
      (k : Kind) (key : Key) (x : Status) → IsOneOf ks k → permitted (deleted k key x) ≡ true
  unfolding permitted
  deleted_permitted Kind.gateway key x h = absurd (no_gateway h)
  deleted_permitted _ key x h = refl

  call_permitted : (e : Event) → WritesOf ks AnyPhase e → permitted e ≡ true
  call_permitted (got k key x) h = got_permitted k key x
  call_permitted (listed k ns labels x) h = listed_permitted k ns labels x
  call_permitted (created k m x) h = created_permitted k m x h
  call_permitted (updated k m x) h = updated_permitted k m x h
  call_permitted (status_updated k key status x) h = status_permitted k key status x h
  call_permitted (deleted k key x) h = deleted_permitted k key x h
  call_permitted (spawned k key ttl) h = spawned_permitted k key ttl h
  call_permitted (patched _ _ _) h = absurd h
  call_permitted (deleted_all _ _ _) h = absurd h

all-IsWithin :
    (s : Setup) (l : List Event)
    → (IsOneOf s.owns Kind.gateway → ⊥)
    → All (WritesOf s.owns AnyPhase) l
    → All (IsWithin s) l
all-IsWithin s [] never h = tt
all-IsWithin s (e ∷ l) never (h, rest) =
    ((call_permitted s.owns never e h, h), all-IsWithin s l never rest)

-- Whatever the server answers, every call of a reconciliation by one of the five controllers is
-- permitted by the role of the operator; what it creates or deletes is of a kind that the controller
-- is set up to own, what it updates is a task or a route, and the statuses that it writes and the
-- deletions that it schedules are those of tasks.
pub controllers_permitted :
    {W : Type 0} (o : System W) (key : Key) (w : W)
    → All (IsWithin dev_task_setup) (DevTask.reconcile o key (run_at w)).1.log
      × All (IsWithin inference_task_setup) (InferenceTask.reconcile o key (run_at w)).1.log
      × All (IsWithin fine_tune_task_setup) (FineTuneTask.reconcile o.client key (run_at w)).1.log
      × All (IsWithin eval_task_setup) (EvalTask.reconcile o.client key (run_at w)).1.log
      × All (IsWithin train_task_setup) (reconcile_train_task {W = W} key (run_at w)).1.log
unfolding reconcile_train_task
controllers_permitted o key w = (
  all-IsWithin dev_task_setup _ (λ h. h) (dev_reconcile-Writes o key w),
  all-IsWithin inference_task_setup _ (λ h. h) (inference_reconcile-Writes o key w),
  all-IsWithin fine_tune_task_setup _ (λ h. h) (tuning_reconcile-Writes o.client key w),
  all-IsWithin eval_task_setup _ (λ h. h) (eval_reconcile-Writes o.client key w),
  tt,
)
