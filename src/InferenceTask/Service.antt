-- ===== src/InferenceTask/Service.antt =====
-- The Service of an InferenceTask (ensureService and deleteService of
-- internal/controller/inference/inference_helpers.go, and the methods that call them, in
-- inference_phases.go).
use kai_operator.Base.{String, [], ◌∷◌, if◌then◌else◌}
use kai_operator.Base.Labels.{Labels}
use kai_operator.Base.Text.{ℤ, pos}
use kai_operator.Api.Meta.{Key, new_meta}
use kai_operator.Api.Kube.{Service}
use kai_operator.Api.InferenceTask.{InferenceTask}
use kai_operator.Client.{is_not_found, Action, pure, lift, on, ◌>>=◌, ◌>>◌}
use kai_operator.Client.Calls.{get, create, delete, service_object}
use kai_operator.Host.{System}
use kai_operator.Reconcile.{unless_not_found}
use kai_operator.InferenceTask.Model.{framework_or_engine, object_name, get_inference_port}

-- `getServiceName`.
unfoldable pub get_service_name : InferenceTask → String
unfolding object_name
get_service_name t = object_name t

-- The labels of the service, which are its selector as well.
unfoldable pub service_labels : InferenceTask → Labels
unfolding framework_or_engine
service_labels t =
    ("kai.io/inference", t.meta.name)
    ∷ ("kai.io/task-type", "inference")
    ∷ ("framework", framework_or_engine t)
    ∷ []

-- The service that `ensureService` builds; it sets no target port, whose zero stands for the port.
unfoldable pub build_service : String → String → ℤ → Labels → Service
build_service name namespace port labels = record {
  meta = new_meta name namespace labels;
  selector = labels;
  ports =
      record {
        name = "http";
        port = port;
        target_port = pos 0;
        node_port = pos 0;
        protocol = "TCP";
      }
      ∷ [];
  service_type = "ClusterIP";
  ingress = [];
}

abbrev pub service_key : InferenceTask → Key
service_key t = record { name = object_name t; namespace = t.meta.namespace }

module _ {W : Type 0} (o : System W) where
  -- An error of the read that is not `NotFound` counts as a service that is there.
  unfoldable pub ensure_service : InferenceTask → String → String → ℤ → Labels → Action W (Unit {0})
  unfolding build_service
  ensure_service t name namespace port labels = do
    let svc = build_service name namespace port labels
    meta ← lift (o.client.set_controller_reference t.meta svc.meta)
    on (get o.client.services (record { name = name; namespace = namespace })) (λ _. pure tt)
        λ e.
          if is_not_found e
          then create o.client.services (record svc { meta = meta }) >> pure tt
          else pure tt

  -- The method `ensureService` of the reconciler.
  unfoldable pub ensure_task_service : InferenceTask → Action W (Unit {0})
  unfolding ensure_service object_name get_inference_port service_labels
  ensure_task_service t =
      ensure_service t (object_name t) t.meta.namespace (get_inference_port o.getenv t)
        (service_labels t)

  unfoldable pub delete_service : Key → Action W (Unit {0})
  delete_service key =
      on (get o.client.services key)
        (λ svc. on (delete o.client.services svc) (λ _. pure tt) (unless_not_found tt))
        (λ _. pure tt)

  unfoldable pub cleanup_service : InferenceTask → Action W (Unit {0})
  unfolding delete_service object_name
  cleanup_service t = delete_service (service_key t)
