-- ===== src/DevTask/Framework.antt =====
-- Frameworks, ports and names of a DevTask (framework_utils.go, constants.go and the names of
-- deployment_builder.go, all under internal/controller/devtask).
use kai_operator.Base.{ℕ, String, ◌<>◌, Option, none, some, List, [], ◌∷◌, ◌==◌, if◌then◌else◌}
use kai_operator.Base.Text.{ℤ, pos, is_pos}
use kai_operator.Api.Task.{BaseToolSpec, no_tool}
use kai_operator.Api.DevTask.{DevTask, CodeServerSpec, JupyterSpec, NoVncSpec}
use kai_operator.Config.{get_framework_image, get_framework_port}

abbrev pub finalizer_name : String
finalizer_name = "devtask.kai.io/finalizer"

abbrev framework_of : Option CodeServerSpec → Option JupyterSpec → Option NoVncSpec → String
framework_of (some _) _ _ = "codeserver"
framework_of none (some _) _ = "jupyter"
framework_of none none (some _) = "novnc"
framework_of none none none = ""

-- `GetFramework`.
unfoldable pub get_framework : DevTask → String
get_framework t = framework_of t.spec.code_server t.spec.jupyter t.spec.no_vnc

module _ (getenv : List ℕ → String) where
  -- `GetImageByFramework`, which does not look at the version.
  unfoldable pub get_image_by_framework : String → String → String
  get_image_by_framework framework version = get_framework_image getenv framework

  abbrev tool_and_image :
      String → Option CodeServerSpec → Option JupyterSpec → Option NoVncSpec → BaseToolSpec × String
  tool_and_image f (some s) _ _ = (s.tool, get_image_by_framework f s.tool.version)
  tool_and_image f none (some s) _ = (s.tool, get_image_by_framework f s.tool.version)
  tool_and_image f none none (some s) = (s.tool, get_image_by_framework f s.tool.version)
  tool_and_image f none none none = (no_tool, "alpine:latest")

  -- `GetToolSpecAndImage`.
  unfoldable pub get_tool_spec_and_image : DevTask → BaseToolSpec × String
  unfolding get_framework get_image_by_framework
  get_tool_spec_and_image t =
      tool_and_image (get_framework t) t.spec.code_server t.spec.jupyter t.spec.no_vnc

  -- `DefaultPorts`.
  unfoldable pub default_ports : List (String × ℤ)
  default_ports =
      ("codeserver", get_framework_port getenv "codeserver")
      ∷ ("jupyter", get_framework_port getenv "jupyter")
      ∷ ("novnc", get_framework_port getenv "novnc")
      ∷ ("vllm", get_framework_port getenv "vllm")
      ∷ ("tgi", get_framework_port getenv "tgi")
      ∷ ("llama.cpp", get_framework_port getenv "llama.cpp")
      ∷ []

  abbrev pub port_at : String → List (String × ℤ) → ℤ
  port_at k [] = pos 0
  port_at k ((j, p) ∷ rest) = if j == k then p else port_at k rest

  -- `GetServicePort`.
  unfoldable pub get_service_port : String → ℤ → ℤ
  unfolding default_ports
  get_service_port framework configured =
      if is_pos configured then configured else port_at framework default_ports

  -- `GetServicePortForTask`.
  unfoldable pub get_service_port_for_task : DevTask → ℤ
  unfolding get_tool_spec_and_image get_service_port
  get_service_port_for_task t =
      get_service_port (get_framework t) (get_tool_spec_and_image t).0.port

-- `GetServiceNameForTask`.
unfoldable pub get_service_name_for_task : DevTask → String
unfolding get_framework
get_service_name_for_task t = t.meta.name <> ("-" <> (get_framework t <> ("-" <> t.meta.namespace)))

-- `GetDeploymentName`.
unfoldable pub get_deployment_name : DevTask → String
unfolding get_framework
get_deployment_name t = t.meta.name <> ("-" <> (get_framework t <> ("-" <> t.meta.namespace)))

-- `GetRouteName`.
unfoldable pub get_route_name : DevTask → String
unfolding get_framework
get_route_name t = t.meta.name <> ("-" <> (get_framework t <> ("-" <> t.meta.namespace)))
