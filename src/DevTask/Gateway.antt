-- ===== src/DevTask/Gateway.antt =====
-- Routing and the address of the gateway (internal/controller/devtask/gateway_builder.go).
use Prim.Native.Char.{code}
use kai_operator.Base.{
  String, ◌<>◌, Bool, true, false, not, Option, none, some, List, [], ◌∷◌, ◌==◌, ◌&&◌, eqb,
  if◌then◌else◌,
}
use kai_operator.Base.Text.{ℤ, pos, is_pos, is_int}
use kai_operator.Api.Meta.{Key}
use kai_operator.Api.Kube.{ServicePort, Ingress, Listener}
use kai_operator.Api.Task.{RoutingSpec, or_else, text_or}
use kai_operator.Api.DevTask.{DevTask, set_routing}
use kai_operator.Client.{Error, other_reason, ok, Action, pure, fail, lift, choose, on, ◌>>=◌}
use kai_operator.Client.Calls.{get, service_object, gateway_object}
use kai_operator.Host.{System}
use kai_operator.Host.Address.{get_colima_host_ip}
use kai_operator.DevTask.Framework.{get_framework}

-- One `if` of `NeedsExternalRouting` for a tool that is set.
abbrev pub is_enabled : Option RoutingSpec → Bool
is_enabled none = true
is_enabled (some routing) = routing.enabled

-- `NeedsExternalRouting`.
unfoldable pub needs_external_routing : DevTask → Bool
needs_external_routing t = elim t.spec.code_server [
  | some code_server ↦ is_enabled code_server.tool.routing
  | none ↦ elim t.spec.jupyter [
    | some jupyter ↦ is_enabled jupyter.tool.routing
    | none ↦ elim t.spec.no_vnc [ some no_vnc ↦ is_enabled no_vnc.tool.routing | none ↦ false ]
  ]
]

-- `GetRoutingConfig`.
unfoldable pub get_routing_config : DevTask → Option RoutingSpec
get_routing_config t = set_routing t.spec

-- `GetGatewayName`.
unfoldable pub get_gateway_name : DevTask → String
unfolding get_routing_config
get_gateway_name t = text_or (get_routing_config t) (λ c. c.gateway_name) "traefik-gateway"

-- `GetGatewayNamespace`.
unfoldable pub get_gateway_namespace : DevTask → String
unfolding get_routing_config
get_gateway_namespace t = text_or (get_routing_config t) (λ c. c.gateway_namespace) "default"

-- `GetRoutePath`.
unfoldable pub get_route_path : DevTask → String
unfolding get_routing_config get_framework
get_route_path t =
    text_or (get_routing_config t) (λ c. c.path_prefix)
      ("/" <> (get_framework t <> ("/" <> (t.meta.name <> "/"))))

-- `GetHostnames`; the empty list is nil.
unfoldable pub get_hostnames : DevTask → List String
unfolding get_routing_config
get_hostnames t = elim (get_routing_config t) [ none ↦ [] | some c ↦ c.hostnames ]

-- `strings.Cut(text, "/")`: what stands before the first slash.
unfoldable pub before_slash : String → String
before_slash String.[] = ""
before_slash (String.◌∷◌ c s) =
    let rest = before_slash s in if eqb (code c) b'/' then "" else String.◌∷◌ c rest

abbrev pub error : String → Error
error text = record { reason = other_reason; text = text }

abbrev traefik : String → Key
traefik namespace = record { name = "traefik"; namespace = namespace }

-- The first port of a service with a node port.
abbrev pub first_node_port : List ServicePort → Option ℤ
first_node_port [] = none
first_node_port (p ∷ rest) = if is_int 0 p.node_port then first_node_port rest else some p.node_port

-- The two loops over the TCP ports of a service.
abbrev pub tcp_node_port : List ServicePort → Option ℤ
tcp_node_port [] = none
tcp_node_port (p ∷ rest) =
    if p.protocol == "TCP" && not (is_int 0 p.node_port)
    then some p.node_port
    else tcp_node_port rest

abbrev pub tcp_port : List ServicePort → Option ℤ
tcp_port [] = none
tcp_port (p ∷ rest) = if p.protocol == "TCP" then some p.port else tcp_port rest

-- The first listener for HTTP.
abbrev pub http_port : List Listener → Option ℤ
http_port [] = none
http_port (l ∷ rest) = if l.protocol == "HTTP" then some l.port else http_port rest

-- The first address of a gateway.
abbrev pub first_address : List String → Option String
first_address [] = none
first_address (a ∷ _) = some a

abbrev ingress_ip : List Ingress → Option String
ingress_ip [] = none
ingress_ip (i ∷ _) =
    if i.ip == "" then if i.hostname == "" then none else some i.hostname else some i.ip

module _ {W : Type 0} (o : System W) where
  unfoldable pub get_traefik_node_port : String → Action W ℤ
  get_traefik_node_port namespace = do
    svc ← get o.client.services (traefik namespace)
    choose (first_node_port svc.ports) pure (fail (error "no NodePort found for traefik service"))

  unfoldable pub get_gateway_host_ip : String → String → Action W String
  get_gateway_host_ip name namespace = do
    gateway ← get o.client.gateways (record { name = name; namespace = namespace })
    choose (first_address gateway.addresses) pure
        (fail (error ("no address found for gateway " <> (namespace <> ("/" <> name)))))

  unfoldable pub get_traefik_service_ip : String → String → Action W String
  get_traefik_service_ip name namespace = do
    svc ← get o.client.services (record { name = name; namespace = namespace })
    choose (ingress_ip svc.ingress) pure
        (fail (error ("no external IP found for service " <> (namespace <> ("/" <> name)))))

  unfoldable pub get_traefik_service_port : String → String → Action W ℤ
  get_traefik_service_port name namespace = do
    svc ← get o.client.services (record { name = name; namespace = namespace })
    choose (or_else (tcp_node_port svc.ports) (tcp_port svc.ports)) pure
        (fail (error ("no port found for service " <> (namespace <> ("/" <> name)))))

  -- `GetColimaHostIP` with a port, and its error.
  unfoldable pub own_address : ℤ → Action W (String × ℤ)
  unfolding get_colima_host_ip
  own_address port =
      on (lift (get_colima_host_ip o.host)) (λ ip. pure (ip, port))
        (λ e. fail (error ("failed to get host IP: " <> e.text)))

  unfoldable pub get_host_and_port_fallback : String → Action W (String × ℤ)
  unfolding get_traefik_service_port get_traefik_service_ip own_address
  get_host_and_port_fallback namespace =
      on (get_traefik_service_port "traefik" namespace)
        (λ port.
          on (get_traefik_service_ip "traefik" namespace) (λ ip. pure (ip, port))
            (λ _. own_address port))
        (λ _. own_address (pos 80))

  -- The gateway's own port, for a gateway with an address.
  unfoldable pub get_listener : String → String → String → Action W (String × ℤ)
  unfolding get_host_and_port_fallback
  get_listener ip name namespace =
      if ip == ""
      then get_host_and_port_fallback namespace
      else on (get o.client.gateways (record { name = name; namespace = namespace }))
          (λ gateway.
            choose (http_port gateway.listeners) (λ p. pure (ip, p))
              (get_host_and_port_fallback namespace))
          (λ _. get_host_and_port_fallback namespace)

  -- The second half of `GetGatewayAddressAndPort`, where there is no node port.
  unfoldable pub without_node_port : String → String → Action W (String × ℤ)
  unfolding get_gateway_host_ip get_listener
  without_node_port name namespace =
      on (get_gateway_host_ip name namespace) (λ ip. get_listener ip name namespace)
        (λ _. get_host_and_port_fallback namespace)

  -- `hostIP, _ = GetColimaHostIP()`, the text only.
  abbrev colima : String
  colima = elim (get_colima_host_ip o.host) [ ok ip ↦ ip | _ ↦ "" ]

  abbrev or_colima : String → String
  or_colima ip = if ip == "" then colima else ip

  unfoldable pub get_gateway_address_and_port : DevTask → Action W (String × ℤ)
  unfolding get_traefik_node_port without_node_port get_gateway_name get_gateway_namespace
  get_gateway_address_and_port t =
      let name = get_gateway_name t in
      let namespace = before_slash (get_gateway_namespace t) in
      on (get_traefik_node_port namespace)
        (λ port.
          if is_pos port
          then on (get_gateway_host_ip name namespace) (λ ip. pure (or_colima ip, port))
              (λ _. pure (colima, port))
          else without_node_port name namespace)
        (λ _. without_node_port name namespace)
