-- ===== src/DevTask/Reachable.antt =====
-- The errors of the computation of an external URL (GetGatewayAddressAndPort and
-- GetExternalURLWithGatewayIP of internal/controller/devtask/gateway_builder.go).
use kai_operator.Base.{◌≡◌, refl, String, ◌<>◌, true}
use kai_operator.Base.Text.{ℤ}
use kai_operator.Api.DevTask.{DevTask}
use kai_operator.Client.{Result, ok, err, panic, Run, pure, fail, lift, on}
use kai_operator.Client.Calls.{service_object, gateway_object}
use kai_operator.Client.Sure.{Sure, sure_rules}
use kai_operator.Client.Calm.{Calm, calm_rules, Answers, is_ok, is_ok-both, is_ok-each}
use kai_operator.Host.{System}
use kai_operator.Host.Address.{get_colima_host_ip}
use kai_operator.Host.Choice.{IsSourcedResult, host_ip_source}
use kai_operator.DevTask.Gateway.{
  get_traefik_node_port, get_gateway_host_ip, get_traefik_service_ip, get_traefik_service_port,
  error, own_address, get_host_and_port_fallback, get_listener, without_node_port,
  get_gateway_address_and_port,
}
use kai_operator.DevTask.Url.{get_external_url_with_gateway_ip}

module _ {W : Type 0} (o : System W) where
  -- The host's own address is found.
  own_address-is_ok : (port : ℤ) (s : Run W) → is_ok (own_address o port s).0 ≡ true
  unfolding own_address
  own_address-is_ok port s = step (get_colima_host_ip o.host) (host_ip_source o.host)
    where
      step :
          (r : Result String)
          → IsSourcedResult o.host r
          → is_ok {A = String × ℤ}
              (on
                (lift r)
                (λ ip. pure (ip, port))
                (λ e. fail (error ("failed to get host IP: " <> e.text)))
                s).0
            ≡ true
      step (ok ip) h = refl
      step (err e) h = absurd h
      step (panic x) h = absurd h

  own_address-Sure : (port : ℤ) → Sure (own_address o port)
  own_address-Sure port = record { at = λ s. (is_ok-each _ (own_address-is_ok port s)).0 }

  fallback-Sure : (ns : String) → Sure (get_host_and_port_fallback o ns)
  unfolding get_host_and_port_fallback
  fallback-Sure ns = search (sure_rules, own_address-Sure) depth 9

  listener-Sure : (ip name ns : String) → Sure (get_listener o ip name ns)
  unfolding get_listener
  listener-Sure ip name ns = search (sure_rules, fallback-Sure) depth 9

  without-Sure : (name ns : String) → Sure (without_node_port o name ns)
  unfolding without_node_port
  without-Sure name ns = search (sure_rules, fallback-Sure, listener-Sure) depth 9

  address-Sure : (t : DevTask) → Sure (get_gateway_address_and_port o t)
  unfolding get_gateway_address_and_port
  address-Sure t = search (sure_rules, without-Sure) depth 9

  url-Sure : (t : DevTask) → Sure (get_external_url_with_gateway_ip o t)
  unfolding get_external_url_with_gateway_ip
  url-Sure t = search (sure_rules, address-Sure) depth 9

  own_address-Calm : (port : ℤ) → Calm (own_address o port)
  own_address-Calm port = record { at = λ s. (is_ok-each _ (own_address-is_ok port s)).1 }

  module _ (services : Answers o.client.services) (gateways : Answers o.client.gateways) where
    node_port-Calm : (ns : String) → Calm (get_traefik_node_port o ns)
    unfolding get_traefik_node_port
    node_port-Calm ns = search (calm_rules, services) depth 9

    host_ip-Calm : (name ns : String) → Calm (get_gateway_host_ip o name ns)
    unfolding get_gateway_host_ip
    host_ip-Calm name ns = search (calm_rules, gateways) depth 9

    service_ip-Calm : (name ns : String) → Calm (get_traefik_service_ip o name ns)
    unfolding get_traefik_service_ip
    service_ip-Calm name ns = search (calm_rules, services) depth 9

    service_port-Calm : (name ns : String) → Calm (get_traefik_service_port o name ns)
    unfolding get_traefik_service_port
    service_port-Calm name ns = search (calm_rules, services) depth 9

    fallback-Calm : (ns : String) → Calm (get_host_and_port_fallback o ns)
    unfolding get_host_and_port_fallback
    fallback-Calm ns =
        search (calm_rules, service_port-Calm, service_ip-Calm, own_address-Calm) depth 9

    listener-Calm : (ip name ns : String) → Calm (get_listener o ip name ns)
    unfolding get_listener
    listener-Calm ip name ns = search (calm_rules, gateways, fallback-Calm) depth 9

    without-Calm : (name ns : String) → Calm (without_node_port o name ns)
    unfolding without_node_port
    without-Calm name ns = search (calm_rules, host_ip-Calm, fallback-Calm, listener-Calm) depth 9

    address-Calm : (t : DevTask) → Calm (get_gateway_address_and_port o t)
    unfolding get_gateway_address_and_port
    address-Calm t = search (calm_rules, node_port-Calm, host_ip-Calm, without-Calm) depth 9

    url-Calm : (t : DevTask) → Calm (get_external_url_with_gateway_ip o t)
    unfolding get_external_url_with_gateway_ip
    url-Calm t = search (calm_rules, address-Calm) depth 9

    -- Where a read of a service or a gateway gives an object or an error, whichever it is, the
    -- computation of the URL of a task returns one without an error.
    pub external_url_never_fails :
        (t : DevTask) (s : Run W) → is_ok (get_external_url_with_gateway_ip o t s).0 ≡ true
    external_url_never_fails t s = is_ok-both _ ((url-Sure t).at s) ((url-Calm t).at s)
