-- ===== src/DevTask/Quiet.antt =====
-- The parts of the DevTask controller that write no status: the address of the gateway, the service
-- and the route (gateway_builder.go, route_builder.go and deployment_builder.go under
-- internal/controller/devtask).
use kai_operator.Base.{String, List, [], ◌∷◌}
use kai_operator.Base.Labels.{Labels}
use kai_operator.Base.Text.{ℤ}
use kai_operator.Api.Meta.{ObjectMeta}
use kai_operator.Api.Kube.{HttpRoute}
use kai_operator.Api.Task.{TaskPhase}
use kai_operator.Api.DevTask.{DevTask}
use kai_operator.DevTask.Writes.{Writes}
use kai_operator.Client.Keeps.{Emits, Emits-pure, Emits-bind, emits_rules, emits_calls}
use kai_operator.Host.{System}
use kai_operator.Builder.{ensure_service}
use kai_operator.DevTask.Gateway.{
  get_traefik_node_port, get_gateway_host_ip, get_traefik_service_ip, get_traefik_service_port,
  get_host_and_port_fallback, get_listener, without_node_port, get_gateway_address_and_port,
}
use kai_operator.DevTask.Url.{get_external_url_with_gateway_ip}
use kai_operator.DevTask.Route.{
  create_http_route, ensure_http_route, drop_route_finalizer, delete_route, delete_routes,
  cleanup_http_route,
}
use kai_operator.DevTask.Deployment
use kai_operator.DevTask.Deployment.{cleanup_service}

module _ {W : Type 0} (o : System W) (Q : TaskPhase → Type 0) where
  get_traefik_node_port-Writes : (ns : String) → Emits (Writes Q) (get_traefik_node_port o ns)
  unfolding get_traefik_node_port
  get_traefik_node_port-Writes ns = search (emits_rules, emits_calls, tt) depth 9

  get_gateway_host_ip-Writes : (name ns : String) → Emits (Writes Q) (get_gateway_host_ip o name ns)
  unfolding get_gateway_host_ip
  get_gateway_host_ip-Writes name ns = search (emits_rules, emits_calls, tt) depth 9

  get_traefik_service_ip-Writes :
      (name ns : String) → Emits (Writes Q) (get_traefik_service_ip o name ns)
  unfolding get_traefik_service_ip
  get_traefik_service_ip-Writes name ns = search (emits_rules, emits_calls, tt) depth 9

  get_traefik_service_port-Writes :
      (name ns : String) → Emits (Writes Q) (get_traefik_service_port o name ns)
  unfolding get_traefik_service_port
  get_traefik_service_port-Writes name ns = search (emits_rules, emits_calls, tt) depth 9

  fallback-Writes : (ns : String) → Emits (Writes Q) (get_host_and_port_fallback o ns)
  unfolding get_host_and_port_fallback
  fallback-Writes ns =
      search (emits_rules, get_traefik_service_port-Writes, get_traefik_service_ip-Writes) depth 9

  get_listener-Writes : (ip name ns : String) → Emits (Writes Q) (get_listener o ip name ns)
  unfolding get_listener
  get_listener-Writes ip name ns = search (emits_rules, emits_calls, fallback-Writes, tt) depth 9

  without_node_port-Writes : (name ns : String) → Emits (Writes Q) (without_node_port o name ns)
  unfolding without_node_port
  without_node_port-Writes name ns =
      search (emits_rules, get_gateway_host_ip-Writes, get_listener-Writes, fallback-Writes) depth 9

  address-Writes : (t : DevTask) → Emits (Writes Q) (get_gateway_address_and_port o t)
  unfolding get_gateway_address_and_port
  address-Writes t =
      search
        (
          emits_rules, get_traefik_node_port-Writes, get_gateway_host_ip-Writes,
          without_node_port-Writes,
        )
        depth 9

  pub url-Writes : (t : DevTask) → Emits (Writes Q) (get_external_url_with_gateway_ip o t)
  unfolding get_external_url_with_gateway_ip
  url-Writes t = search (emits_rules, address-Writes) depth 9

  builder_service-Writes :
      (owner : ObjectMeta) (name ns : String) (port : ℤ) (labels : Labels)
      → Emits (Writes Q) (ensure_service o.client owner name ns port labels)
  unfolding ensure_service
  builder_service-Writes owner name ns port labels = search (emits_rules, emits_calls, tt) depth 12

  pub service-Writes : (t : DevTask) → Emits (Writes Q) (Deployment.create_service o t)
  unfolding Deployment.create_service
  service-Writes t = builder_service-Writes _ _ _ _ _

  pub cleanup_service-Writes : (t : DevTask) → Emits (Writes Q) (cleanup_service o t)
  unfolding cleanup_service
  cleanup_service-Writes t = search (emits_rules, emits_calls, tt) depth 9

  pub create_route-Writes :
      (t : DevTask) (name : String) (port : ℤ) → Emits (Writes Q) (create_http_route o t name port)
  unfolding create_http_route
  create_route-Writes t name port = search (emits_rules, emits_calls, tt) depth 12

  pub ensure_route-Writes : (t : DevTask) → Emits (Writes Q) (ensure_http_route o t)
  unfolding ensure_http_route
  ensure_route-Writes t = search (emits_rules, emits_calls, tt) depth 12

  drop_route_finalizer-Writes : (r : HttpRoute) → Emits (Writes Q) (drop_route_finalizer o r)
  unfolding drop_route_finalizer
  drop_route_finalizer-Writes r = search (emits_rules, emits_calls, tt) depth 9

  delete_route-Writes : (r : HttpRoute) → Emits (Writes Q) (delete_route o r)
  unfolding delete_route
  delete_route-Writes r = search (emits_rules, emits_calls, drop_route_finalizer-Writes, tt) depth 9

  delete_routes-Writes : (rs : List HttpRoute) → Emits (Writes Q) (delete_routes o rs)
  unfolding delete_routes
  delete_routes-Writes [] = Emits-pure _
  delete_routes-Writes (r ∷ rs) =
      Emits-bind _ _ (delete_route-Writes r) (λ _. delete_routes-Writes rs)

  pub cleanup_route-Writes : (t : DevTask) → Emits (Writes Q) (cleanup_http_route o t)
  unfolding cleanup_http_route
  cleanup_route-Writes t =
      search (emits_rules, emits_calls, delete_route-Writes, delete_routes-Writes, tt) depth 9
