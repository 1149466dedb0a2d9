-- ===== src/Client.antt =====
-- What the operator uses of the API server (`client.Client` of controller-runtime), and the monad of
-- its methods. None of that library is under the repository, so the server is a parameter: a record
-- of functions on a world `W` of which nothing is assumed. Other clients may act between two calls:
-- each call gives the world that the next call finds.
pub mod Calls
pub mod Calm
pub mod Ensured
pub mod Fallible
pub mod Keeps
pub mod Kept
pub mod Order
pub mod Settles
pub mod Sure
pub mod Wakes
pub mod Writes
pub mod Rounds
use kai_operator.Base.{◌≡◌, String, Bool, Option, none, some, List, [], ◌∷◌}
use kai_operator.Base.Labels.{Labels}
use kai_operator.Base.Text.{ℤ}
use kai_operator.Api.Meta.{Key, ObjectMeta, Time}
use kai_operator.Api.Kube.{Deployment, Service, Job, Pod, HttpRoute, Gateway}
use kai_operator.Api.Task.{TaskStatus}
use kai_operator.Api.DevTask.{DevTask}
use kai_operator.Api.InferenceTask.{InferenceTask}
use kai_operator.Api.TrainTask.{TrainTask}
use kai_operator.Api.FineTuneTask.{FineTuneTask}
use kai_operator.Api.EvalTask.{EvalTask}

-- The reasons that the code tells apart, by `IsNotFound` and `IsAlreadyExists`.
pub data Reason : Type 0 where
  not_found already_exists other_reason : Reason

-- A Go `error`; `text` is what `Error()` returns.
pub record Error : Type 0 where
  pub reason : Reason
  pub text : String

abbrev pub is_not_found : Error → Bool
is_not_found e = elim e.reason [ not_found ↦ Bool.true | _ ↦ Bool.false ]

abbrev pub is_already_exists : Error → Bool
is_already_exists e = elim e.reason [ already_exists ↦ Bool.true | _ ↦ Bool.false ]

-- A result `(value, error)`; a panic goes past every handler.
pub data Result (A : Type 0) : Type 0 where
  ok : A → Result A
  err : Error → Result A
  panic : String → Result A

-- The calls on one kind of object. A write gives back the object as the server stored it, which the
-- client library copies over the caller's. `list` and `delete_all` take a namespace, the empty one for
-- all of them, and `patch` takes the text of the patch.
pub record Resource (W A : Type 0) : Type 0 where
  pub get : Key → W → Result A × W
  pub create : A → W → Result A × W
  pub update : A → W → Result A × W
  pub update_status : A → W → Result A × W
  pub delete : Key → W → Result (Unit {0}) × W
  pub list : String → W → Result (List A) × W
  pub delete_all : String → W → Result (Unit {0}) × W
  pub patch : A → String → W → Result A × W

-- `set_controller_reference owner meta` gives the metadata with the owner recorded, and
-- `is_quantity` tells the texts that `resource.ParseQuantity` accepts.
pub record Client (W : Type 0) : Type 0 where
  pub dev_tasks : Resource W DevTask
  pub inference_tasks : Resource W InferenceTask
  pub train_tasks : Resource W TrainTask
  pub fine_tune_tasks : Resource W FineTuneTask
  pub eval_tasks : Resource W EvalTask
  pub deployments : Resource W Deployment
  pub services : Resource W Service
  pub jobs : Resource W Job
  pub http_routes : Resource W HttpRoute
  pub gateways : Resource W Gateway
  pub list_pods : String → Labels → W → Result (List Pod) × W
  pub list_routes : String → Labels → W → Result (List HttpRoute) × W
  pub now : W → Time
  pub set_controller_reference : ObjectMeta → ObjectMeta → Result ObjectMeta
  pub contains_finalizer : ObjectMeta → String → Bool
  pub add_finalizer : ObjectMeta → String → ObjectMeta
  pub remove_finalizer : ObjectMeta → String → ObjectMeta
  pub is_quantity : String → Bool

pub data Kind : Type 0 where
  dev_task inference_task train_task fine_tune_task eval_task : Kind
  deployment service job pod http_route gateway : Kind

-- How a call ended: no error, or the reason of the error.
pub data Status : Type 0 where
  success : Status
  failure : Reason → Status
  panicked : Status

abbrev pub status_of : {A : Type 0} → Result A → Status
status_of (ok _) = success
status_of (err e) = failure e.reason
status_of (panic _) = panicked

-- A call that was made, with what was sent and how it ended. `spawned` is the start of a goroutine
-- that sleeps for a number of seconds and then deletes the object.
pub data Event : Type 0 where
  got : Kind → Key → Status → Event
  listed : Kind → String → Labels → Status → Event
  created : Kind → ObjectMeta → Status → Event
  updated : Kind → ObjectMeta → Status → Event
  status_updated : Kind → Key → TaskStatus → Status → Event
  deleted : Kind → Key → Status → Event
  patched : Kind → ObjectMeta → Status → Event
  deleted_all : Kind → String → Status → Event
  spawned : Kind → Key → ℤ → Event

-- The world and the calls made so far, the newest first.
pub record Run (W : Type 0) : Type 0 where
  pub world : W
  pub log : List Event

-- A method that calls the server and may fail.
abbrev pub Action : Type 0 → Type 0 → Type 0
Action W A = Run W → Result A × Run W

module _ {W : Type 0} where
  abbrev pub pure : {A : Type 0} → A → Action W A
  pure a s = (ok a, s)

  abbrev pub fail : {A : Type 0} → Error → Action W A
  fail e s = (err e, s)

  abbrev pub lift : {A : Type 0} → Result A → Action W A
  lift r s = (r, s)

  -- `if err != nil { return err }`
  infixl 5 ◌>>=◌ ◌>>◌
  abbrev pub ◌>>=◌ : {A B : Type 0} → Action W A → (A → Action W B) → Action W B
  ◌>>=◌ m f s =
      let (r, t) = m s in elim r [ ok a ↦ f a t | err e ↦ (err e, t) | panic p ↦ (panic p, t) ]

  abbrev pub ◌>>◌ : {A B : Type 0} → Action W A → Action W B → Action W B
  m >> k = m >>= λ _. k

  -- `if err != nil { … } else { … }`, where the caller goes on after an error too.
  abbrev pub on : {A B : Type 0} → Action W A → (A → Action W B) → (Error → Action W B) → Action W B
  on m f g s = let (r, t) = m s in elim r [ ok a ↦ f a t | err e ↦ g e t | panic p ↦ (panic p, t) ]

  -- A test for nil: what to do with the value, and without.
  abbrev pub choose : {A B : Type 0} → Option A → (A → Action W B) → Action W B → Action W B
  choose none f m = m
  choose (some a) f m = f a

  -- A method that succeeds goes on with its value.
  pub on-eq-ok :
      {A B : Type 0} (m : Action W A) (f : A → Action W B) (g : Error → Action W B) (s : Run W)
      (a : A)
      → (m s).0 ≡ ok a
      → on m f g s ≡ f a (m s).1
  on-eq-ok m f g s a e = rw (e, on)

-- A run that starts in a world, with no call made.
abbrev pub run_at : {W : Type 0} → W → Run W
run_at w = record { world = w; log = [] }
