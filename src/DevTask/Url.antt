-- ===== src/DevTask/Url.antt =====
-- The external URL of a DevTask (GetExternalURL and GetExternalURLWithGatewayIP of
-- internal/controller/devtask/gateway_builder.go).
use kai_operator.Base.{String, ◌<>◌, Option, none, some, [], ◌∷◌, ◌==◌, ◌||◌, if◌then◌else◌}
use kai_operator.Base.Text.{ℤ, pos, is_pos, is_int, show}
use kai_operator.Api.Task.{RoutingSpec, text_or}
use kai_operator.Api.DevTask.{DevTask}
use kai_operator.Client.{Action, pure, choose, ◌>>=◌}
use kai_operator.Host.{System}
use kai_operator.DevTask.Gateway.{
  needs_external_routing, get_routing_config, get_route_path, get_gateway_address_and_port,
}

-- `fmt.Sprintf("%s://%s%s", …)`, and the form with a port.
abbrev pub plain : String → String → String → String
plain scheme host path = scheme <> ("://" <> (host <> path))

abbrev pub with_port : String → String → ℤ → String → String
with_port scheme host port path = scheme <> ("://" <> (host <> (":" <> (show port <> path))))

abbrev scheme_of : ℤ → String
scheme_of port = if is_int 443 port then "https" else "http"

-- The branch of the first hostname.
unfoldable pub hostname_url : String → ℤ → String → String
hostname_url host port path =
    if is_int 0 port || is_int 80 port
    then plain (scheme_of port) host path
    else with_port (scheme_of port) host port path

-- The branch of the external host.
unfoldable pub external_host_url : String → ℤ → String → String
external_host_url host given path =
    let port = if is_int 0 given then pos 80 else given in
    if is_int 80 port || is_int 443 port
    then plain (scheme_of port) host path
    else with_port (scheme_of port) host port path

-- The first two branches of `GetExternalURL`: the hostnames and the external host.
unfoldable pub configured_url : Option RoutingSpec → String → Option String
unfolding hostname_url external_host_url
configured_url none path = none
configured_url (some cfg) path = elim cfg.hostnames [
  | host ∷ _ ↦ some (hostname_url host cfg.external_port path)
  | [] ↦
      if cfg.external_host == ""
      then none
      else some (external_host_url cfg.external_host cfg.external_port path)
]

abbrev gateway_port_of : Option RoutingSpec → ℤ
gateway_port_of none = pos 80
gateway_port_of (some cfg) = if is_pos cfg.gateway_port then cfg.gateway_port else pos 80

-- `GetExternalURL`.
unfoldable pub get_external_url : DevTask → String
unfolding configured_url needs_external_routing get_routing_config get_route_path
get_external_url t =
    let cfg = get_routing_config t in
    let path = get_route_path t in
    if needs_external_routing t
    then elim (configured_url cfg path) [
      | some url ↦ url
      | none ↦
          let host =
            text_or cfg (λ c. c.gateway_name) "traefik-gateway"
            <> ("." <> (text_or cfg (λ c. c.gateway_namespace) "default" <> ".svc")) in
          let port = gateway_port_of cfg in
          if is_int 80 port then plain "http" host path else with_port "http" host port path
    ]
    else ""

-- The branch of the gateway's address.
unfoldable pub gateway_url : String → ℤ → String → String
gateway_url ip port path =
    if is_int 80 port then plain "http" ip path else with_port "http" ip port path

-- The same branches as `GetExternalURLWithGatewayIP` has them.
unfoldable pub settled_by_routing : Option RoutingSpec → String → Option String
settled_by_routing none path = none
settled_by_routing (some cfg) path = elim cfg.hostnames [
  | host ∷ _ ↦
      let port = cfg.external_port in
      let scheme = if is_int 443 port then "https" else "http" in
      some (
        if is_int 0 port || is_int 80 port
        then plain scheme host path
        else with_port scheme host port path)
  | [] ↦
      let port = if is_int 0 cfg.external_port then pos 80 else cfg.external_port in
      let scheme = if is_int 443 port then "https" else "http" in
      if cfg.external_host == ""
      then none
      else some (
          if is_int 80 port || is_int 443 port
          then plain scheme cfg.external_host path
          else with_port scheme cfg.external_host port path)
]

-- `GetExternalURLWithGatewayIP`.
unfoldable pub get_external_url_with_gateway_ip :
    {W : Type 0} → System W → DevTask → Action W String
unfolding settled_by_routing needs_external_routing get_routing_config get_route_path
    get_gateway_address_and_port gateway_url
get_external_url_with_gateway_ip o t =
    let path = get_route_path t in
    if needs_external_routing t
    then choose (settled_by_routing (get_routing_config t) path) pure (
        get_gateway_address_and_port o t >>= λ address. pure (gateway_url address.0 address.1 path))
    else pure ""
