-- ===== src/Fake.antt =====
-- A small API server on lists of objects, for tests and instances of the theorems.
use kai_operator.Base.{
  String, Bool, true, false, Option, none, some, List, [], ◌∷◌, ◌==◌, ◌&&◌, ◌||◌, if◌then◌else◌,
}
use kai_operator.Base.Labels.{selects}
use kai_operator.Base.Lists.{any}
use kai_operator.Api.Meta.{Key, ObjectMeta, key_of}
use kai_operator.Api.Kube.{Deployment, Service, Job, Pod, HttpRoute, Gateway}
use kai_operator.Api.DevTask.{DevTask}
use kai_operator.Api.InferenceTask.{InferenceTask}
use kai_operator.Api.TrainTask.{TrainTask}
use kai_operator.Api.FineTuneTask.{FineTuneTask}
use kai_operator.Api.EvalTask.{EvalTask}
use kai_operator.Client.{Error, not_found, already_exists, ok, err, Resource, Client}
use kai_operator.Client.Order.{same_key}

pub record World : Type 0 where
  pub dev_tasks : List DevTask
  pub inference_tasks : List InferenceTask
  pub train_tasks : List TrainTask
  pub fine_tune_tasks : List FineTuneTask
  pub eval_tasks : List EvalTask
  pub deployments : List Deployment
  pub services : List Service
  pub jobs : List Job
  pub http_routes : List HttpRoute
  pub gateways : List Gateway
  pub pods : List Pod

abbrev pub empty : World
empty = record {
  dev_tasks = [];
  inference_tasks = [];
  train_tasks = [];
  fine_tune_tasks = [];
  eval_tasks = [];
  deployments = [];
  services = [];
  jobs = [];
  http_routes = [];
  gateways = [];
  pods = [];
}

module _ {A : Type 0} (meta : A → ObjectMeta) where
  abbrev at : Key → A → Bool
  at k a = same_key (key_of (meta a)) k

  abbrev find : Key → List A → Option A
  find k [] = none
  find k (a ∷ l) = if at k a then some a else find k l

  abbrev store : A → List A → List A
  store a [] = []
  store a (b ∷ l) = (if at (key_of (meta a)) b then a else b) ∷ store a l

  abbrev drop : Key → List A → List A
  drop k [] = []
  drop k (a ∷ l) = let rest = drop k l in if at k a then rest else a ∷ rest

  abbrev is_inside : String → A → Bool
  is_inside ns a = ns == "" || (meta a).namespace == ns

  abbrev inside : String → List A → List A
  inside ns [] = []
  inside ns (a ∷ l) = let rest = inside ns l in if is_inside ns a then a ∷ rest else rest

  abbrev outside : String → List A → List A
  outside ns [] = []
  outside ns (a ∷ l) = let rest = outside ns l in if is_inside ns a then rest else a ∷ rest

  abbrev missing : Error
  missing = record { reason = not_found; text = "not found" }

  -- An object is found by its key, a second one of the same key is refused.
  abbrev pub resource : (World → List A) → (World → List A → World) → Resource World A
  resource items put = record {
    get = λ k w. (elim (find k (items w)) [ none ↦ err missing | some a ↦ ok a ], w);
    create = λ a w. elim (find (key_of (meta a)) (items w)) [
      | none ↦ (ok a, put w (a ∷ items w))
      | some _ ↦ (err (record { reason = already_exists; text = "already exists" }), w)
    ];
    update = λ a w. elim (find (key_of (meta a)) (items w)) [
      | none ↦ (err missing, w)
      | some _ ↦ (ok a, put w (store a (items w)))
    ];
    update_status = λ a w. elim (find (key_of (meta a)) (items w)) [
      | none ↦ (err missing, w)
      | some _ ↦ (ok a, put w (store a (items w)))
    ];
    delete = λ k w. elim (find k (items w)) [
      | none ↦ (err missing, w)
      | some _ ↦ (ok tt, put w (drop k (items w)))
    ];
    list = λ ns w. (ok (inside ns (items w)), w);
    delete_all = λ ns w. (ok tt, put w (outside ns (items w)));
    patch = λ a text w. elim (find (key_of (meta a)) (items w)) [
      | none ↦ (err missing, w)
      | some b ↦ (ok b, w)
    ];
  }

abbrev without : String → List String → List String
without f [] = []
without f (g ∷ l) = let rest = without f l in if g == f then rest else g ∷ rest

abbrev selected : {A : Type 0} → (A → Bool) → List A → List A
selected p [] = []
selected p (a ∷ l) = let rest = selected p l in if p a then a ∷ rest else rest

abbrev pub server : Client World
server = record {
  dev_tasks = resource (λ t. t.meta) (λ w. w.dev_tasks) (λ w l. record w { dev_tasks = l });
  inference_tasks =
      resource (λ t. t.meta) (λ w. w.inference_tasks) (λ w l. record w { inference_tasks = l });
  train_tasks = resource (λ t. t.meta) (λ w. w.train_tasks) (λ w l. record w { train_tasks = l });
  fine_tune_tasks =
      resource (λ t. t.meta) (λ w. w.fine_tune_tasks) (λ w l. record w { fine_tune_tasks = l });
  eval_tasks = resource (λ t. t.meta) (λ w. w.eval_tasks) (λ w l. record w { eval_tasks = l });
  deployments = resource (λ t. t.meta) (λ w. w.deployments) (λ w l. record w { deployments = l });
  services = resource (λ t. t.meta) (λ w. w.services) (λ w l. record w { services = l });
  jobs = resource (λ t. t.meta) (λ w. w.jobs) (λ w l. record w { jobs = l });
  http_routes = resource (λ t. t.meta) (λ w. w.http_routes) (λ w l. record w { http_routes = l });
  gateways = resource (λ t. t.meta) (λ w. w.gateways) (λ w l. record w { gateways = l });
  list_pods = λ ns labels w.
      (ok (selected (λ p. (p.meta.namespace == ns) && selects labels p.meta.labels) w.pods), w);
  list_routes = λ ns labels w. (
    ok (selected (λ r. (r.meta.namespace == ns) && selects labels r.meta.labels) w.http_routes),
    w,
  );
  now = λ w. 7;
  set_controller_reference = λ owner m. ok (record m { controller = some (key_of owner) });
  contains_finalizer = λ m f. any (λ g. g == f) m.finalizers;
  add_finalizer = λ m f. record m { finalizers = f ∷ m.finalizers };
  remove_finalizer = λ m f. record m { finalizers = without f m.finalizers };
  is_quantity = λ t. if t == "" then false else true;
}
