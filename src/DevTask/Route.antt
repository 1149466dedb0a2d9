-- ===== src/DevTask/Route.antt =====
-- The HTTPRoute of a DevTask (internal/controller/devtask/route_builder.go).
use kai_operator.Base.{String, ◌<>◌, List, [], ◌∷◌, ◌==◌, ◌||◌, if◌then◌else◌, not}
use kai_operator.Base.Text.{ℤ}
use kai_operator.Api.Meta.{Key, ObjectMeta, new_meta}
use kai_operator.Api.Kube.{RouteRule, HttpRoute}
use kai_operator.Api.DevTask.{DevTask}
use kai_operator.Client.{is_not_found, is_already_exists, Action, pure, fail, lift, on, ◌>>=◌, ◌>>◌}
use kai_operator.Client.Calls.{get, create, update, delete, list_routes, http_route_object}
use kai_operator.Host.{System}
use kai_operator.Reconcile.{unless_not_found}
use kai_operator.DevTask.Framework.{
  get_framework, get_route_name, get_service_name_for_task, get_service_port_for_task,
}
use kai_operator.DevTask.Gateway.{
  needs_external_routing, get_gateway_name, get_gateway_namespace, get_route_path, get_hostnames,
}

abbrev pub route_finalizer : String
route_finalizer = "kai.io/route"

-- A rule that sends a path prefix to the service.
abbrev prefix_rule : String → List String → String → ℤ → RouteRule
prefix_rule path rewrites service port = record {
  path_type = "PathPrefix";
  path = path;
  rewrites = rewrites;
  backends = record { group = ""; kind = "Service"; name = service; port = port } ∷ [];
}

unfoldable pub build_http_route : DevTask → String → ℤ → HttpRoute
unfolding get_framework get_route_name get_gateway_name get_gateway_namespace get_route_path
    get_hostnames
build_http_route t service port =
    let framework = get_framework t in
    let path = get_route_path t in
    record {
      meta = new_meta (get_route_name t) t.meta.namespace (
          ("app.kubernetes.io/name", "kai")
          ∷ ("app.kubernetes.io/managed-by", "kai-operator")
          ∷ ("kai.io/devtask", t.meta.name)
          ∷ ("framework", framework)
          ∷ []);
      hostnames = get_hostnames t;
      parents =
          record {
            group = "gateway.networking.k8s.io";
            kind = "Gateway";
            name = get_gateway_name t;
            namespace = get_gateway_namespace t;
          }
          ∷ [];
      rules =
          prefix_rule path
            (if framework == "codeserver" || framework == "novnc" then "/" ∷ [] else []) service
            port
          ∷ (if framework == "novnc"
              then prefix_rule (path <> "websockify") ("/" ∷ []) service port ∷ []
              else []);
    }

abbrev pub route_key : DevTask → Key
route_key t = record { name = get_route_name t; namespace = t.meta.namespace }

-- `route` with its owner and its finalizer.
abbrev finalized : {W : Type 0} → System W → ObjectMeta → HttpRoute → HttpRoute
finalized o meta route = record route { meta = o.client.add_finalizer meta route_finalizer }

module _ {W : Type 0} (o : System W) where
  -- An error of the read that is not `NotFound` counts as a route that is there.
  unfoldable pub create_http_route : DevTask → String → ℤ → Action W (Unit {0})
  unfolding build_http_route needs_external_routing get_route_name
  create_http_route t service port =
      let route = build_http_route t service port in
      if not (needs_external_routing t) then pure tt else do
        meta ← lift (o.client.set_controller_reference t.meta route.meta)
        on (get o.client.http_routes (route_key t)) (λ _. pure tt)
            λ e.
              if is_not_found e
              then create o.client.http_routes (finalized o meta route) >> pure tt
              else pure tt

  unfoldable pub ensure_http_route : DevTask → Action W (Unit {0})
  unfolding build_http_route needs_external_routing get_route_name get_service_name_for_task
      get_service_port_for_task
  ensure_http_route t =
      let route =
        build_http_route t (get_service_name_for_task t) (get_service_port_for_task o.getenv t) in
      if not (needs_external_routing t)
      then pure tt
      else on (get o.client.http_routes (route_key t)) (λ _. pure tt)
          λ _. do
            meta ← lift (o.client.set_controller_reference t.meta route.meta)
            on (create o.client.http_routes (finalized o meta route)) (λ _. pure tt)
                λ e. if is_already_exists e then pure tt else fail e

  -- `err != nil && !errors.IsNotFound(err)` ends the update of a route, any other outcome goes on; the
  -- route is then the one that the server stored, or the one that was sent.
  unfoldable pub drop_route_finalizer : HttpRoute → Action W HttpRoute
  drop_route_finalizer route =
      let dropped = record route { meta = o.client.remove_finalizer route.meta route_finalizer } in
      if o.client.contains_finalizer route.meta route_finalizer
      then on (update o.client.http_routes dropped) pure (unless_not_found dropped)
      else pure route

  unfoldable pub delete_route : HttpRoute → Action W (Unit {0})
  unfolding drop_route_finalizer
  delete_route route = do
    r ← drop_route_finalizer route
    on (delete o.client.http_routes r) (λ _. pure tt) (unless_not_found tt)

  unfoldable pub delete_routes : List HttpRoute → Action W (Unit {0})
  unfolding delete_route
  delete_routes [] = pure tt
  delete_routes (r ∷ rest) = delete_route r >> delete_routes rest

  unfoldable pub cleanup_http_route : DevTask → Action W (Unit {0})
  unfolding delete_routes get_route_name
  cleanup_http_route t = do
    on (get o.client.http_routes (route_key t)) delete_route (λ _. pure tt)
    on (list_routes o.client t.meta.namespace (("kai.io/devtask", t.meta.name) ∷ [])) delete_routes
        (λ _. pure tt)
