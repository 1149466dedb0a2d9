-- ===== src/DevTask/Settling.antt =====
-- The parts of the DevTask controller after the deployment is there, with respect to the order of calls
-- (devtask_phases.go, gateway_builder.go, route_builder.go and deployment_builder.go under
-- internal/controller/devtask).
use kai_operator.Base.{Bool, String, List, [], ◌∷◌}
use kai_operator.Base.Labels.{Labels}
use kai_operator.Base.Text.{ℤ}
use kai_operator.Api.Meta.{ObjectMeta}
use kai_operator.Api.Kube.{Pod, PodPhase, Deployment}
use kai_operator.Api.DevTask.{DevTask}
use kai_operator.Client.{Event, Action}
use kai_operator.Client.Calls.{dev_task_object, deployment_object, dev_task_task}
use kai_operator.Client.Settles.{Settles, Settles-choose, settles_rules}
use kai_operator.Host.{System}
use kai_operator.Reconcile.{Requeue}
use kai_operator.Builder.{ensure_service}
use kai_operator.DevTask.State.{fatal_reason}
use kai_operator.DevTask.Deployment.{create_service}
use kai_operator.DevTask.Gateway.{
  get_traefik_node_port, get_gateway_host_ip, get_traefik_service_ip, get_traefik_service_port,
  get_host_and_port_fallback, get_listener, without_node_port, get_gateway_address_and_port,
}
use kai_operator.DevTask.Url.{get_external_url_with_gateway_ip}
use kai_operator.DevTask.Route.{create_http_route, ensure_http_route}
use kai_operator.DevTask.Controller.{
  update_status_and_return, url_or_fallback, create_routing, finish_creating, check_phase,
  check_pods, keep_running,
}

module _ {W : Type 0} (o : System W) {p q : Event → Bool} where
  get_host_and_port_fallback-Settles : (ns : String) → Settles p q (get_host_and_port_fallback o ns)
  unfolding get_host_and_port_fallback get_traefik_service_port get_traefik_service_ip
  get_host_and_port_fallback-Settles ns = search settles_rules depth 14

  get_listener-Settles : (ip name ns : String) → Settles p q (get_listener o ip name ns)
  unfolding get_listener
  get_listener-Settles ip name ns =
      search (settles_rules, get_host_and_port_fallback-Settles) depth 14

  without_node_port-Settles : (name ns : String) → Settles p q (without_node_port o name ns)
  unfolding without_node_port get_gateway_host_ip
  without_node_port-Settles name ns =
      search (settles_rules, get_listener-Settles, get_host_and_port_fallback-Settles) depth 14

  address-Settles : (t : DevTask) → Settles p q (get_gateway_address_and_port o t)
  unfolding get_gateway_address_and_port get_traefik_node_port get_gateway_host_ip
  address-Settles t = search (settles_rules, without_node_port-Settles) depth 14

  url-Settles : (t : DevTask) → Settles p q (url_or_fallback o t)
  unfolding url_or_fallback get_external_url_with_gateway_ip
  url-Settles t = search (settles_rules, address-Settles) depth 14

  builder_service-Settles :
      (owner : ObjectMeta) (name ns : String) (port : ℤ) (labels : Labels)
      → Settles p q (ensure_service o.client owner name ns port labels)
  unfolding ensure_service
  builder_service-Settles owner name ns port labels = search settles_rules depth 14

  service-Settles : (t : DevTask) → Settles p q (create_service o t)
  unfolding create_service
  service-Settles t = builder_service-Settles _ _ _ _ _

  create_route-Settles :
      (t : DevTask) (name : String) (port : ℤ) → Settles p q (create_http_route o t name port)
  unfolding create_http_route
  create_route-Settles t name port = search settles_rules depth 14

  route-Settles : (t : DevTask) → Settles p q (ensure_http_route o t)
  unfolding ensure_http_route
  route-Settles t = search settles_rules depth 14

  routing-Settles : (t : DevTask) → Settles p q (create_routing o t)
  unfolding create_routing
  routing-Settles t = search (settles_rules, create_route-Settles, url-Settles) depth 14

  pub finish-Settles : (t : DevTask) → Settles p q (finish_creating o t)
  unfolding finish_creating
  finish-Settles t = search (settles_rules, service-Settles, routing-Settles) depth 14

  phase-Settles :
      (x : PodPhase) (reason : String) (t : DevTask) (next : DevTask → Action W Requeue)
      → ((t' : DevTask) → Settles p q (next t'))
      → Settles p q (check_phase o x reason t next)
  unfolding check_phase update_status_and_return
  phase-Settles PodPhase.pending reason t next h = search (settles_rules, h)
  phase-Settles PodPhase.running reason t next h = search (settles_rules, h)
  phase-Settles PodPhase.succeeded reason t next h = search settles_rules
  phase-Settles PodPhase.failed reason t next h = search settles_rules
  phase-Settles PodPhase.unknown reason t next h = search settles_rules
  phase-Settles (PodPhase.other _) reason t next h = h t

  pub pods-Settles :
      (ps : List Pod) (t : DevTask) (rest : DevTask → Action W Requeue)
      → ((t' : DevTask) → Settles p q (rest t'))
      → Settles p q (check_pods o ps t rest)
  unfolding check_pods update_status_and_return
  pods-Settles [] t rest h = h t
  pods-Settles (x ∷ xs) t rest h =
      Settles-choose (fatal_reason x.waiting) _ _ (λ _. search settles_rules)
        (phase-Settles x.phase x.reason t _ (λ t'. pods-Settles xs t' rest h))

  pub keep-Settles : (d : Deployment) (t : DevTask) → Settles p q (keep_running o d t)
  unfolding keep_running update_status_and_return
  keep-Settles d t = search (settles_rules, service-Settles, route-Settles, url-Settles) depth 16
