-- ===== src/InferenceTask/Gateway.antt =====
-- The external URL of an InferenceTask and the address of the gateway (getExternalURL and
-- getGatewayAddressAndPort of internal/controller/inference/inference_helpers.go, and what they call).
use kai_operator.Base.{
  String, ◌<>◌, not, Option, none, some, List, [], ◌∷◌, ◌==◌, ◌||◌, if◌then◌else◌,
}
use kai_operator.Base.Text.{ℤ, pos, is_pos, is_int, show}
use kai_operator.Api.Meta.{Key}
use kai_operator.Api.Kube.{ServicePort, Ingress}
use kai_operator.Api.InferenceTask.{
  InferenceTask, needs_external_routing, get_gateway_name, get_gateway_namespace, get_route_path,
}
use kai_operator.Client.{Error, other_reason, Action, pure, fail, choose, on, ◌>>=◌}
use kai_operator.Client.Calls.{get, service_object, gateway_object}
use kai_operator.Host.{System}
use kai_operator.Host.Address.{get_default_host_ip}
use kai_operator.DevTask.Gateway.{first_node_port, http_port, first_address}

abbrev error : String → Error
error text = record { reason = other_reason; text = text }

abbrev traefik : String → Key
traefik namespace = record { name = "traefik"; namespace = namespace }

-- The port of the first TCP port of a service: its node port, or its own.
unfoldable pub tcp_port : List ServicePort → Option ℤ
tcp_port [] = none
tcp_port (p ∷ rest) =
    if p.protocol == "TCP"
    then some (if is_int 0 p.node_port then p.port else p.node_port)
    else tcp_port rest

-- The first port of a service that is 80 or 443.
unfoldable pub web_port : List ServicePort → Option ℤ
web_port [] = none
web_port (p ∷ rest) = if is_int 80 p.port || is_int 443 p.port then some p.port else web_port rest

-- The address of the first ingress: its IP or its host name.
abbrev ingress_address : List Ingress → Option String
ingress_address [] = none
ingress_address (i ∷ _) =
    if i.ip == "" then if i.hostname == "" then none else some i.hostname else some i.ip

module _ {W : Type 0} (o : System W) where
  -- `getTraefikNodePortInference`.
  unfoldable pub get_traefik_node_port_inference : String → Action W ℤ
  get_traefik_node_port_inference namespace = do
    svc ← get o.client.services (traefik namespace)
    choose (first_node_port svc.ports) pure (fail (error "no NodePort found for traefik service"))

  -- `getGatewayHostIPInference`.
  unfoldable pub get_gateway_host_ip_inference : String → String → Action W String
  get_gateway_host_ip_inference name namespace = do
    gateway ← get o.client.gateways (record { name = name; namespace = namespace })
    choose (first_address gateway.addresses) pure
        (fail (error ("no address found for gateway " <> (namespace <> ("/" <> name)))))

  unfoldable pub get_traefik_service_ip : String → String → Action W String
  get_traefik_service_ip name namespace = do
    svc ← get o.client.services (record { name = name; namespace = namespace })
    choose (ingress_address svc.ingress) pure
        (fail (error ("no external IP found for service " <> (namespace <> ("/" <> name)))))

  unfoldable pub get_traefik_service_port : String → String → Action W ℤ
  unfolding tcp_port
  get_traefik_service_port name namespace = do
    svc ← get o.client.services (record { name = name; namespace = namespace })
    choose (tcp_port svc.ports) pure
        (fail (error ("no port found for service " <> (namespace <> ("/" <> name)))))

  -- `getHostAndPortFallbackInference`, which nothing calls.
  unfoldable pub get_host_and_port_fallback_inference : String → String → Action W (String × ℤ)
  unfolding get_traefik_service_port get_traefik_service_ip
  get_host_and_port_fallback_inference name namespace =
      on (get_traefik_service_port name namespace)
        (λ port.
          on (get_traefik_service_ip name namespace) (λ ip. pure (ip, port))
            (λ _. pure (get_default_host_ip o.host, port)))
        (λ _. pure (get_default_host_ip o.host, pos 80))

  -- The address of the gateway, or that of the host.
  unfoldable pub get_host_ip : String → String → Action W String
  unfolding get_gateway_host_ip_inference
  get_host_ip name namespace =
      on (get_gateway_host_ip_inference name namespace)
        (λ ip. pure (if ip == "" then get_default_host_ip o.host else ip))
        (λ _. pure (get_default_host_ip o.host))

  -- The port of the traefik service, or 80.
  unfoldable pub get_service_port : String → Action W ℤ
  unfolding web_port
  get_service_port namespace =
      on (get o.client.services (traefik namespace))
        (λ svc. choose (web_port svc.ports) pure (pure (pos 80))) (λ _. pure (pos 80))

  -- The port of the gateway's first HTTP listener, or that of the traefik service.
  unfoldable pub get_listener_port : String → String → Action W ℤ
  unfolding get_service_port
  get_listener_port name namespace =
      on (get o.client.gateways (record { name = name; namespace = namespace }))
        (λ gateway. choose (http_port gateway.listeners) pure (get_service_port namespace))
        (λ _. get_service_port namespace)

  -- `getGatewayAddressAndPort`, which does not use the routing.
  unfoldable pub get_gateway_address_and_port : String → String → Action W (String × ℤ)
  unfolding get_host_ip get_traefik_node_port_inference get_listener_port
  get_gateway_address_and_port name namespace = do
    ip ← get_host_ip name namespace
    port ←
        on (get_traefik_node_port_inference namespace)
          (λ p. if is_pos p then pure p else get_listener_port name namespace)
          (λ _. get_listener_port name namespace)
    pure (ip, port)

  -- The URL for an address of the gateway.
  unfoldable pub address_url : String → ℤ → String → String
  address_url ip port path =
      (if is_int 443 port then "https" else "http")
      <> ("://"
          <> (ip
              <> (if is_int 80 port || is_int 443 port then path else ":" <> (show port <> path))))

  -- `getExternalURL`.
  unfoldable pub get_external_url : InferenceTask → Action W String
  unfolding get_gateway_address_and_port address_url needs_external_routing get_gateway_name
      get_gateway_namespace get_route_path
  get_external_url t =
      let name = get_gateway_name t in
      let namespace = get_gateway_namespace t in
      let path = get_route_path t in
      if not (needs_external_routing t)
      then pure ""
      else on (get_gateway_address_and_port name namespace)
          (λ address. pure (address_url address.0 address.1 path))
          (λ _. pure ("http://" <> (name <> ("." <> (namespace <> (".svc" <> path))))))
