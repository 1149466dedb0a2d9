-- ===== src/DevTask/Routing.antt =====
-- The paths and the URLs of a DevTask (internal/controller/devtask/gateway_builder.go) and those of
-- its API type (api/v1alpha1/devtask_types.go).
use text.Mathlib.TextLemmas.{append_assoc}
use kai_operator.Base.{
  sym, subst, not, ◌&&◌, ℕ, Bool, ◌||◌, is_some, eq_iff, Bool-cases, inl, inr, ◌==◌, String, ◌<>◌,
  ◌≡◌, ◌≢◌, ◌⊎◌, refl, true, false, none, some, Option, List, [], ◌∷◌, arith, if◌then◌else◌,
}
use kai_operator.Base.Text.{ℤ, is_pos, is_int, show}
use kai_operator.Base.Lists.{All}
use kai_operator.Config.Ports.{IsInt32, port_range}
use kai_operator.Api.Task.{RoutingSpec, text_or, or_else, routing_enabled}
use kai_operator.Api.DevTask
use kai_operator.Api.DevTask.{DevTask, CodeServerSpec, JupyterSpec, NoVncSpec}
use kai_operator.Client.{ok, Run}
use kai_operator.Host.{System}
use kai_operator.DevTask.Framework.{
  get_framework, get_service_port_for_task, get_tool_spec_and_image, default_ports, port_at,
}
use kai_operator.DevTask.Gateway.{
  get_gateway_namespace, needs_external_routing, get_routing_config, get_route_path,
}
use kai_operator.DevTask.Url.{
  configured_url, settled_by_routing, get_external_url, get_external_url_with_gateway_ip,
}

-- The path prefix of a routing, empty if none is set.
abbrev pub prefix_of : Option RoutingSpec → String
prefix_of c = text_or c (λ r. r.path_prefix) ""

choice :
    (x y : Option RoutingSpec) (d : String)
    → prefix_of y ≡ ""
    → (prefix_of x ≡ ""
        → text_or x (λ r. r.path_prefix) (d <> "/")
          ≡ text_or (or_else x y) (λ r. r.path_prefix) d <> "/")
      × (prefix_of x ≢ ""
          → text_or x (λ r. r.path_prefix) (d <> "/")
            ≡ text_or (or_else x y) (λ r. r.path_prefix) d)
choice none none d h = (λ _. refl, λ k. absurd (k refl))
choice none (some c) d h = (λ _. ground (arith, eq_iff c.path_prefix ""), λ k. absurd (k refl))
choice (some c) y d h =
    (λ k. ground (arith, eq_iff c.path_prefix ""), λ k. ground (arith, eq_iff c.path_prefix ""))

enabled_prefix : (b : Bool) → prefix_of (if b then some (routing_enabled true) else none) ≡ ""
enabled_prefix true = refl
enabled_prefix false = refl

-- A routing that leaves a text to its default is as good as none.
default_choice :
    (x y : Option RoutingSpec) (f : RoutingSpec → String) (d : String)
    → text_or y f d ≡ d
    → text_or x f d ≡ text_or (or_else x y) f d
default_choice none y f d h = sym h
default_choice (some c) y f d h = refl

enabled_namespace :
    (b : Bool)
    → text_or (if b then some (routing_enabled true) else none) (λ c. c.gateway_namespace) "default"
      ≡ "default"
enabled_namespace true = refl
enabled_namespace false = refl

kept : (x y : Option RoutingSpec) (c : RoutingSpec) → x ≡ some c → or_else x y ≡ some c
kept none y c e = ground arith
kept (some x) y c e = e

routed_agrees : (t : DevTask) → needs_external_routing t ≡ DevTask.needs_external_routing t
unfolding needs_external_routing DevTask.needs_external_routing
routed_agrees t = ground arith

-- The controller and the API type agree on the framework of a task, on whether it is routed, on a
-- routing that one of its tools gives, and on the namespace of the gateway.
pub routing_agrees :
    (t : DevTask)
    → (get_framework t ≡ DevTask.get_framework t)
      × (needs_external_routing t ≡ DevTask.needs_external_routing t)
      × ((c : RoutingSpec) → get_routing_config t ≡ some c → DevTask.get_routing_config t ≡ some c)
      × (get_gateway_namespace t ≡ DevTask.get_gateway_namespace t)
unfolding get_framework DevTask.get_framework needs_external_routing DevTask.needs_external_routing
    get_routing_config DevTask.get_routing_config get_gateway_namespace
    DevTask.get_gateway_namespace
routing_agrees t =
    let set = is_some t.spec.code_server || is_some t.spec.jupyter || is_some t.spec.no_vnc in
    (
      refl,
      routed_agrees t,
      kept (get_routing_config t) _,
      default_choice (get_routing_config t) _ (λ c. c.gateway_namespace) "default"
          (enabled_namespace set),
    )

append_slash :
    (f n : String) → ("/" <> (f <> ("/" <> n))) <> "/" ≡ "/" <> (f <> ("/" <> (n <> "/")))
append_slash f n = simp append_assoc

-- A path prefix is the route path of the controller and of the API type alike; without one, the
-- controller's path has a slash at the end that the API's has not.
pub route_path_divergence :
    (t : DevTask)
    → (prefix_of (get_routing_config t) ≡ "" → get_route_path t ≡ DevTask.get_route_path t <> "/")
      × (prefix_of (get_routing_config t) ≢ "" → get_route_path t ≡ DevTask.get_route_path t)
unfolding get_routing_config get_route_path DevTask.get_route_path DevTask.get_routing_config
route_path_divergence t =
    let d = "/" <> (get_framework t <> ("/" <> t.meta.name)) in
    subst
      (λ e.
        (prefix_of (get_routing_config t) ≡ ""
          → text_or (get_routing_config t) (λ r. r.path_prefix) e ≡ DevTask.get_route_path t <> "/")
        × (prefix_of (get_routing_config t) ≢ ""
            → text_or (get_routing_config t) (λ r. r.path_prefix) e ≡ DevTask.get_route_path t))
      (append_slash (get_framework t) t.meta.name)
      (choice (get_routing_config t) _ d (
        enabled_prefix
          (is_some t.spec.code_server || is_some t.spec.jupyter || is_some t.spec.no_vnc)))

-- The host that a routing names: its first hostname, or its external host if it has none.
abbrev pub Names : RoutingSpec → String → Type 0
Names cfg host =
    ((hs : List String) × (cfg.hostnames ≡ host ∷ hs))
    ⊎ ((cfg.hostnames ≡ []) × (cfg.external_host ≡ host) × (host ≢ ""))

abbrev is_filled : List String → Bool
is_filled [] = false
is_filled _ = true

-- The URL at a host: https at port 443, and the port unless it is 0 or 80, or 443 with no hostnames.
abbrev pub url_at : RoutingSpec → String → String → String
url_at cfg host path =
    let port = cfg.external_port in
    let bare =
      is_int 0 port || is_int 80 port || (not (is_filled cfg.hostnames) && is_int 443 port) in
    (if is_int 443 port then "https" else "http")
    <> ("://" <> (host <> (if bare then path else ":" <> (show port <> path))))

configured_url_lem :
    (cfg : RoutingSpec) (host path : String)
    → Names cfg host
    → configured_url (some cfg) path ≡ some (url_at cfg host path)
unfolding configured_url
configured_url_lem cfg host path (inl (hs, h)) = rw h (ground arith)
configured_url_lem cfg host path (inr (none_set, h, named)) =
    rw (none_set, h) (ground (arith, eq_iff host ""))

settled_by_routing_lem :
    (cfg : RoutingSpec) (host path : String)
    → Names cfg host
    → settled_by_routing (some cfg) path ≡ some (url_at cfg host path)
unfolding settled_by_routing
settled_by_routing_lem cfg host path (inl (hs, h)) = rw h (ground arith)
settled_by_routing_lem cfg host path (inr (none_set, h, named)) =
    rw (none_set, h) (ground (arith, eq_iff host ""))

module _ {W : Type 0} (o : System W) where
  decided :
      (t : DevTask) (url : String) (s : Run W)
      → needs_external_routing t ≡ true
      → configured_url (get_routing_config t) (get_route_path t) ≡ some url
      → settled_by_routing (get_routing_config t) (get_route_path t) ≡ some url
      → (get_external_url t ≡ url) × (get_external_url_with_gateway_ip o t s ≡ (ok url, s))
  unfolding get_external_url_with_gateway_ip get_external_url
  decided t url s routed e e' = (ground arith, ground arith)

  -- A routed task whose routing has a hostname, or an external host and no hostname, gets the URL at
  -- that host from both functions that compute it, and from the second without a call: https at port
  -- 443 and http else, the host, the port unless it is 0 or 80, or 443 with no hostname, and the path.
  pub configured_urls_agree :
      (t : DevTask) (cfg : RoutingSpec) (host : String) (s : Run W)
      → needs_external_routing t ≡ true
      → get_routing_config t ≡ some cfg
      → Names cfg host
      → (get_external_url t ≡ url_at cfg host (get_route_path t))
        × (get_external_url_with_gateway_ip o t s ≡ (ok (url_at cfg host (get_route_path t)), s))
  configured_urls_agree t cfg host s routed set named =
      let path = get_route_path t in
      decided t (url_at cfg host path) s routed
        (subst (λ c. configured_url c path ≡ some (url_at cfg host path)) (sym set)
          (configured_url_lem cfg host path named))
        (subst (λ c. settled_by_routing c path ≡ some (url_at cfg host path)) (sym set)
          (settled_by_routing_lem cfg host path named))

module _ (getenv : List ℕ → String) where
  port_at-IsInt32 :
      (k : String) (l : List (String × ℤ)) → All (λ e. IsInt32 e.1) l → IsInt32 (port_at getenv k l)
  port_at-IsInt32 k [] h = omega arith
  port_at-IsInt32 k ((j, p) ∷ l) h = elim (Bool-cases (j == k)) [
    | inl e ↦ rw e h.0
    | inr e ↦ rw e (port_at-IsInt32 k l h.1)
  ]

  default_ports-IsInt32 : All (λ e. IsInt32 e.1) (default_ports getenv)
  unfolding default_ports
  default_ports-IsInt32 =
      let port = port_range getenv in
      (
        port "codeserver",
        (port "jupyter", (port "novnc", (port "vllm", (port "tgi", (port "llama.cpp", tt))))),
      )

  -- The service port of a task is an `int32` if the port in its spec is one.
  pub service_port_range :
      (t : DevTask)
      → IsInt32 (get_tool_spec_and_image getenv t).0.port
      → IsInt32 (get_service_port_for_task getenv t)
  unfolding get_service_port_for_task
  service_port_range t h =
      let configured = (get_tool_spec_and_image getenv t).0.port in
      elim (Bool-cases (is_pos configured)) [
        | inl e ↦ rw e h
        | inr e ↦
            rw e (port_at-IsInt32 (get_framework t) (default_ports getenv) default_ports-IsInt32)
      ]
