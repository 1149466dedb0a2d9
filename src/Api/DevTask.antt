-- ===== src/Api/DevTask.antt =====
-- The DevTask kind and its methods (api/v1alpha1/devtask_types.go).
use kai_operator.Base.{
  String, ◌<>◌, Bool, true, false, Option, none, some, List, ◌||◌, if◌then◌else◌, is_some,
}
use kai_operator.Base.Text.{ℤ}
use kai_operator.Api.Meta.{ObjectMeta}
use kai_operator.Api.Task.{
  is_routed, routing_of, or_else, text_or, RoutingSpec, ResourceSpec, VolumeSpec, DataSourceSpec,
  BaseToolSpec, TaskStatus, routing_enabled,
}
use kai_operator.Api.InferenceTask.{VllmSpec}

pub record CodeServerSpec : Type 0 where
  pub tool : BaseToolSpec
  pub password : Option String
  pub workspace : String

pub record JupyterSpec : Type 0 where
  pub tool : BaseToolSpec
  pub notebook_dir : String

pub record NoVncSpec : Type 0 where
  pub tool : BaseToolSpec
  pub display : String
  pub password : String

pub record DevTaskSpec : Type 0 where
  pub resources : Option ResourceSpec
  pub volumes : List VolumeSpec
  pub data_sources : List DataSourceSpec
  pub run_after : List String
  pub ttl_seconds : Option ℤ
  pub code_server : Option CodeServerSpec
  pub jupyter : Option JupyterSpec
  pub no_vnc : Option NoVncSpec
  pub vllm : Option VllmSpec

pub record DevTask : Type 0 where
  pub meta : ObjectMeta
  pub spec : DevTaskSpec
  pub status : TaskStatus

abbrev framework_of : Option CodeServerSpec → Option JupyterSpec → Option NoVncSpec → String
framework_of (some _) _ _ = "codeserver"
framework_of none (some _) _ = "jupyter"
framework_of none none (some _) = "novnc"
framework_of none none none = ""

-- `(*DevTask).GetFramework`.
unfoldable pub get_framework : DevTask → String
get_framework t = framework_of t.spec.code_server t.spec.jupyter t.spec.no_vnc

abbrev pub routed_of : Option CodeServerSpec → Option JupyterSpec → Option NoVncSpec → Bool
routed_of (some s) _ _ = is_routed s.tool
routed_of none (some s) _ = is_routed s.tool
routed_of none none (some s) = is_routed s.tool
routed_of none none none = false

-- `(*DevTask).NeedsExternalRouting`.
unfoldable pub needs_external_routing : DevTask → Bool
needs_external_routing t = routed_of t.spec.code_server t.spec.jupyter t.spec.no_vnc

-- The routing that the three tools of a DevTask give, the first that is set.
abbrev pub set_routing : DevTaskSpec → Option RoutingSpec
set_routing s =
    or_else (routing_of (λ c. c.tool) s.code_server)
      (or_else (routing_of (λ j. j.tool) s.jupyter) (routing_of (λ n. n.tool) s.no_vnc))

-- `(*DevTask).GetRoutingConfig`.
unfoldable pub get_routing_config : DevTask → Option RoutingSpec
get_routing_config t = or_else (set_routing t.spec) (
    if is_some t.spec.code_server || is_some t.spec.jupyter || is_some t.spec.no_vnc
    then some (routing_enabled true)
    else none)

-- `(*DevTask).GetGatewayNamespace`.
unfoldable pub get_gateway_namespace : DevTask → String
unfolding get_routing_config
get_gateway_namespace t = text_or (get_routing_config t) (λ cfg. cfg.gateway_namespace) "default"

-- `(*DevTask).GetRoutePath`.
unfoldable pub get_route_path : DevTask → String
unfolding get_routing_config get_framework
get_route_path t =
    text_or (get_routing_config t) (λ cfg. cfg.path_prefix)
      ("/" <> (get_framework t <> ("/" <> t.meta.name)))

-- `(*DevTask).GetExternalURL`.
unfoldable pub get_external_url : DevTask → String
unfolding needs_external_routing get_routing_config get_route_path
get_external_url t =
    let cfg = get_routing_config t in
    if needs_external_routing t
    then "http://"
      <> (text_or cfg (λ c. c.gateway_name) "traefik-gateway"
          <> ("."
              <> (text_or cfg (λ c. c.gateway_namespace) "default"
                  <> (".svc" <> get_route_path t))))
    else ""
