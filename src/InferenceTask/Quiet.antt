-- ===== src/InferenceTask/Quiet.antt =====
-- The parts of the InferenceTask controller that write no status: the address of the gateway, the
-- service, the route and the deletion of the objects (inference_helpers.go and inference_phases.go
-- under internal/controller/inference).
use kai_operator.Base.{String}
use kai_operator.Base.Labels.{Labels}
use kai_operator.Base.Text.{ℤ}
use kai_operator.Api.Meta.{Key}
use kai_operator.Api.Kube.{HttpRoute}
use kai_operator.Api.Task.{TaskPhase}
use kai_operator.Api.InferenceTask.{InferenceTask}
use kai_operator.InferenceTask.Writes.{Writes}
use kai_operator.Client.Keeps.{Emits, emits_rules, emits_calls}
use kai_operator.Host.{System}
use kai_operator.InferenceTask.Gateway.{
  get_traefik_node_port_inference, get_host_ip, get_service_port, get_listener_port,
  get_gateway_address_and_port, get_external_url,
}
use kai_operator.InferenceTask.Service.{
  ensure_service, ensure_task_service, delete_service, cleanup_service,
}
use kai_operator.InferenceTask.Route.{
  ensure_http_route, drop_route_finalizer, delete_route, cleanup_http_route,
}
use kai_operator.InferenceTask.Controller.{ensure_route, delete_deployment, cleanup_resources}

module _ {W : Type 0} (o : System W) (Q : TaskPhase → Type 0) where
  host_ip-Writes : (name ns : String) → Emits (Writes Q) (get_host_ip o name ns)
  unfolding get_host_ip
  host_ip-Writes name ns = search (emits_rules, emits_calls, tt) depth 12

  node_port-Writes : (ns : String) → Emits (Writes Q) (get_traefik_node_port_inference o ns)
  unfolding get_traefik_node_port_inference
  node_port-Writes ns = search (emits_rules, emits_calls, tt) depth 12

  service_port-Writes : (ns : String) → Emits (Writes Q) (get_service_port o ns)
  unfolding get_service_port
  service_port-Writes ns = search (emits_rules, emits_calls, tt) depth 12

  listener_port-Writes : (name ns : String) → Emits (Writes Q) (get_listener_port o name ns)
  unfolding get_listener_port
  listener_port-Writes name ns = search (emits_rules, emits_calls, service_port-Writes, tt) depth 12

  address-Writes : (name ns : String) → Emits (Writes Q) (get_gateway_address_and_port o name ns)
  unfolding get_gateway_address_and_port
  address-Writes name ns =
      search (emits_rules, host_ip-Writes, node_port-Writes, listener_port-Writes) depth 12

  pub url-Writes : (t : InferenceTask) → Emits (Writes Q) (get_external_url o t)
  unfolding get_external_url
  url-Writes t = search (emits_rules, address-Writes) depth 9

  ensure_service-Writes :
      (t : InferenceTask) (name ns : String) (port : ℤ) (labels : Labels)
      → Emits (Writes Q) (ensure_service o t name ns port labels)
  unfolding ensure_service
  ensure_service-Writes t name ns port labels = search (emits_rules, emits_calls, tt) depth 12

  pub service-Writes : (t : InferenceTask) → Emits (Writes Q) (ensure_task_service o t)
  unfolding ensure_task_service
  service-Writes t = ensure_service-Writes t _ _ _ _

  ensure_http_route-Writes :
      (t : InferenceTask) (name : String) (port : ℤ)
      → Emits (Writes Q) (ensure_http_route o t name port)
  unfolding ensure_http_route
  ensure_http_route-Writes t name port = search (emits_rules, emits_calls, tt) depth 12

  pub route-Writes : (t : InferenceTask) → Emits (Writes Q) (ensure_route o t)
  unfolding ensure_route
  route-Writes t = search (emits_rules, ensure_http_route-Writes) depth 9

  delete_service-Writes : (k : Key) → Emits (Writes Q) (delete_service o k)
  unfolding delete_service
  delete_service-Writes k = search (emits_rules, emits_calls, tt) depth 12

  delete_deployment-Writes : (k : Key) → Emits (Writes Q) (delete_deployment o k)
  unfolding delete_deployment
  delete_deployment-Writes k = search (emits_rules, emits_calls, tt) depth 12

  delete_route-Writes : (r : HttpRoute) → Emits (Writes Q) (delete_route o r)
  unfolding delete_route drop_route_finalizer
  delete_route-Writes r = search (emits_rules, emits_calls, tt) depth 20

  cleanup_route-Writes : (t : InferenceTask) → Emits (Writes Q) (cleanup_http_route o t)
  unfolding cleanup_http_route
  cleanup_route-Writes t = search (emits_rules, emits_calls, delete_route-Writes, tt) depth 12

  pub cleanup-Writes : (t : InferenceTask) → Emits (Writes Q) (cleanup_resources o t)
  unfolding cleanup_resources cleanup_service
  cleanup-Writes t =
      search (emits_rules, delete_deployment-Writes, delete_service-Writes, cleanup_route-Writes)
        depth 12
