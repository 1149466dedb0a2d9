-- ===== src/InferenceTask/Route.antt =====
-- The HTTPRoute of an InferenceTask (ensureHTTPRoute, cleanupHTTPRoute and buildHTTPRoute of
-- internal/controller/inference/inference_helpers.go).
use kai_operator.Base.{String, [], ◌∷◌, if◌then◌else◌, not}
use kai_operator.Base.Text.{ℤ}
use kai_operator.Api.Meta.{Key, key_of, new_meta}
use kai_operator.Api.Kube.{HttpRoute}
use kai_operator.Api.InferenceTask.{
  InferenceTask, needs_external_routing, get_gateway_name, get_gateway_namespace, get_route_path,
}
use kai_operator.Client.{is_not_found, Action, pure, lift, on, ◌>>=◌, ◌>>◌}
use kai_operator.Client.Calls.{get, create, update, delete, http_route_object}
use kai_operator.Host.{System}
use kai_operator.Reconcile.{unless_not_found}
use kai_operator.InferenceTask.Model.{framework_or_engine, object_name}

abbrev pub route_finalizer : String
route_finalizer = "kai.io/inference-route"

unfoldable pub build_http_route : InferenceTask → String → ℤ → HttpRoute
unfolding framework_or_engine object_name get_gateway_name get_gateway_namespace get_route_path
build_http_route t service port = record {
  meta = new_meta (object_name t) t.meta.namespace (
      ("app.kubernetes.io/name", "kai")
      ∷ ("app.kubernetes.io/managed-by", "kai-operator")
      ∷ ("kai.io/inference", t.meta.name)
      ∷ ("framework", framework_or_engine t)
      ∷ []);
  hostnames = [];
  parents =
      record {
        group = "gateway.networking.k8s.io";
        kind = "Gateway";
        name = get_gateway_name t;
        namespace = get_gateway_namespace t;
      }
      ∷ [];
  rules =
      record {
        path_type = "PathPrefix";
        path = get_route_path t;
        rewrites = "/" ∷ [];
        backends = record { group = ""; kind = "Service"; name = service; port = port } ∷ [];
      }
      ∷ [];
}

abbrev pub route_key : InferenceTask → Key
route_key t = record { name = object_name t; namespace = t.meta.namespace }

module _ {W : Type 0} (o : System W) where
  -- An error of the read that is not `NotFound` counts as a route that is there.
  unfoldable pub ensure_http_route : InferenceTask → String → ℤ → Action W (Unit {0})
  unfolding build_http_route needs_external_routing
  ensure_http_route t service port = if not (needs_external_routing t) then pure tt else do
    let route = build_http_route t service port
    meta ← lift (o.client.set_controller_reference t.meta route.meta)
    on (get o.client.http_routes (key_of route.meta)) (λ _. pure tt)
        λ e.
          if is_not_found e
          then create o.client.http_routes (record route { meta = meta }) >> pure tt
          else pure tt

  -- `err != nil && !errors.IsNotFound(err)` ends the update, any other outcome goes on; the route is
  -- then the one that the server stored, or the one that was sent.
  unfoldable pub drop_route_finalizer : HttpRoute → Action W HttpRoute
  drop_route_finalizer route =
      let dropped = record route { meta = o.client.remove_finalizer route.meta route_finalizer } in
      if o.client.contains_finalizer route.meta route_finalizer
      then on (update o.client.http_routes dropped) pure (unless_not_found dropped)
      else pure route

  unfoldable pub delete_route : HttpRoute → Action W (Unit {0})
  unfolding drop_route_finalizer
  delete_route route = do
    r ← drop_route_finalizer route
    on (delete o.client.http_routes r) (λ _. pure tt) (unless_not_found tt)

  unfoldable pub cleanup_http_route : InferenceTask → Action W (Unit {0})
  unfolding delete_route object_name
  cleanup_http_route t = on (get o.client.http_routes (route_key t)) delete_route (λ _. pure tt)
