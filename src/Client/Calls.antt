-- ===== src/Client/Calls.antt =====
-- The calls of the API server, each recorded in the log of the run.
use kai_operator.Base.{String, List, ◌∷◌}
use kai_operator.Base.Labels.{Labels}
use kai_operator.Base.Text.{ℤ}
use kai_operator.Api.Meta.{Key, ObjectMeta, Time, key_of}
use kai_operator.Api.Kube.{Deployment, Service, Job, Pod, HttpRoute, Gateway}
use kai_operator.Api.Task.{TaskStatus}
use kai_operator.Api.DevTask.{DevTask}
use kai_operator.Api.InferenceTask.{InferenceTask}
use kai_operator.Api.TrainTask.{TrainTask}
use kai_operator.Api.FineTuneTask.{FineTuneTask}
use kai_operator.Api.EvalTask.{EvalTask}
use kai_operator.Client.{
  Result, ok, Resource, Client, Kind, status_of, got, listed, created, updated, status_updated,
  deleted, patched, deleted_all, spawned, Event, Action,
}

-- The kind of an object and its metadata (`client.Object`).
pub record Object (A : Type 0) : Type 0 where
  pub kind : Kind
  pub meta : A → ObjectMeta

-- A task kind, with its status.
pub record Task (A : Type 0) : Type 0 where
  pub object : Object A
  pub status : A → TaskStatus

instance abbrev pub deployment_object : Object Deployment
deployment_object = record { kind = Kind.deployment; meta = λ d. d.meta }

instance abbrev pub service_object : Object Service
service_object = record { kind = Kind.service; meta = λ s. s.meta }

instance abbrev pub job_object : Object Job
job_object = record { kind = Kind.job; meta = λ j. j.meta }

instance abbrev pub http_route_object : Object HttpRoute
http_route_object = record { kind = Kind.http_route; meta = λ r. r.meta }

instance abbrev pub gateway_object : Object Gateway
gateway_object = record { kind = Kind.gateway; meta = λ g. g.meta }

instance abbrev pub dev_task_object : Object DevTask
dev_task_object = record { kind = Kind.dev_task; meta = λ t. t.meta }

instance abbrev pub inference_task_object : Object InferenceTask
inference_task_object = record { kind = Kind.inference_task; meta = λ t. t.meta }

instance abbrev pub train_task_object : Object TrainTask
train_task_object = record { kind = Kind.train_task; meta = λ t. t.meta }

instance abbrev pub fine_tune_task_object : Object FineTuneTask
fine_tune_task_object = record { kind = Kind.fine_tune_task; meta = λ t. t.meta }

instance abbrev pub eval_task_object : Object EvalTask
eval_task_object = record { kind = Kind.eval_task; meta = λ t. t.meta }

instance abbrev pub dev_task_task : Task DevTask
dev_task_task = record { object = dev_task_object; status = λ t. t.status }

instance abbrev pub inference_task_task : Task InferenceTask
inference_task_task = record { object = inference_task_object; status = λ t. t.status }

instance abbrev pub train_task_task : Task TrainTask
train_task_task = record { object = train_task_object; status = λ t. t.status }

instance abbrev pub fine_tune_task_task : Task FineTuneTask
fine_tune_task_task = record { object = fine_tune_task_object; status = λ t. t.status }

instance abbrev pub eval_task_task : Task EvalTask
eval_task_task = record { object = eval_task_object; status = λ t. t.status }

module _ {W : Type 0} where
  -- Make a call and record it.
  abbrev pub call : {A : Type 0} → (Result A → Event) → (W → Result A × W) → Action W A
  call event f s = let (r, w) = f s.world in (r, record { world = w; log = event r ∷ s.log })

  unfoldable pub get : {A : Type 0} ⦃o : Object A⦄ → Resource W A → Key → Action W A
  get ⦃o⦄ r k = call (λ x. got o.kind k (status_of x)) (r.get k)

  unfoldable pub create : {A : Type 0} ⦃o : Object A⦄ → Resource W A → A → Action W A
  create ⦃o⦄ r a = call (λ x. created o.kind (o.meta a) (status_of x)) (r.create a)

  unfoldable pub update : {A : Type 0} ⦃o : Object A⦄ → Resource W A → A → Action W A
  update ⦃o⦄ r a = call (λ x. updated o.kind (o.meta a) (status_of x)) (r.update a)

  unfoldable pub update_status : {A : Type 0} ⦃t : Task A⦄ → Resource W A → A → Action W A
  update_status ⦃t⦄ r a =
      call (λ x. status_updated t.object.kind (key_of (t.object.meta a)) (t.status a) (status_of x))
        (r.update_status a)

  unfoldable pub delete : {A : Type 0} ⦃o : Object A⦄ → Resource W A → A → Action W (Unit {0})
  delete ⦃o⦄ r a =
      call (λ x. deleted o.kind (key_of (o.meta a)) (status_of x)) (r.delete (key_of (o.meta a)))

  -- A deletion by name, of an object that was not read.
  unfoldable pub delete_key : {A : Type 0} ⦃o : Object A⦄ → Resource W A → Key → Action W (Unit {0})
  delete_key ⦃o⦄ r k = call (λ x. deleted o.kind k (status_of x)) (r.delete k)

  unfoldable pub list : {A : Type 0} ⦃o : Object A⦄ → Resource W A → String → Action W (List A)
  list ⦃o⦄ r ns = call (λ x. listed o.kind ns List.[] (status_of x)) (r.list ns)

  unfoldable pub delete_all :
      {A : Type 0} ⦃o : Object A⦄ → Resource W A → String → Action W (Unit {0})
  delete_all ⦃o⦄ r ns = call (λ x. deleted_all o.kind ns (status_of x)) (r.delete_all ns)

  unfoldable pub patch : {A : Type 0} ⦃o : Object A⦄ → Resource W A → A → String → Action W A
  patch ⦃o⦄ r a text = call (λ x. patched o.kind (o.meta a) (status_of x)) (r.patch a text)

  unfoldable pub list_pods : Client W → String → Labels → Action W (List Pod)
  list_pods c ns labels =
      call (λ x. listed Kind.pod ns labels (status_of x)) (c.list_pods ns labels)

  unfoldable pub list_routes : Client W → String → Labels → Action W (List HttpRoute)
  list_routes c ns labels =
      call (λ x. listed Kind.http_route ns labels (status_of x)) (c.list_routes ns labels)

  -- `go func() { time.Sleep(ttl); r.Delete(task) }()`.
  unfoldable pub spawn : {A : Type 0} ⦃o : Object A⦄ → A → ℤ → Action W (Unit {0})
  spawn ⦃o⦄ a ttl s = (ok tt, record s { log = spawned o.kind (key_of (o.meta a)) ttl ∷ s.log })

  unfoldable pub now : Client W → Action W Time
  now c s = (ok (c.now s.world), s)

-- One name for the calls, for the lines that open them all.
unfoldable pub calls : Unit {0}
unfolding get create update update_status delete delete_key list delete_all patch list_pods
    list_routes spawn now
calls = tt
