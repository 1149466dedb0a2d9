-- ===== src/DevTask/Deployment.antt =====
-- The Deployment and the Service of a DevTask (internal/controller/devtask/deployment_builder.go).
use kai_operator.Base.{String, ◌<>◌, Option, none, some, List, [], ◌∷◌, ◌++◌, ◌==◌, if◌then◌else◌}
use kai_operator.Base.Labels.{Labels, insert, insert_all}
use kai_operator.Base.Text.{pos}
use kai_operator.Api.Kube.{Env, Container, Deployment, no_resources}
use kai_operator.Api.Task.{EnvVar}
use kai_operator.Api.DevTask.{DevTask, CodeServerSpec, JupyterSpec, NoVncSpec}
use kai_operator.Client.{Action}
use kai_operator.Host.{System}
use kai_operator.Builder
use kai_operator.Builder.{common_labels, build_volumes, ensure_service, delete_service}
use kai_operator.DevTask.Framework.{
  get_framework, get_tool_spec_and_image, get_service_name_for_task, get_service_port_for_task,
}

-- What the sections of `BuildDevContainer` build: a command, arguments and environment variables.
pub record Parts : Type 0 where
  pub cmd : List String
  pub args : List String
  pub env : List Env

abbrev tool_env : List EnvVar → List Env
tool_env [] = []
tool_env (e ∷ rest) = record { name = e.name; value = e.value } ∷ tool_env rest

-- `CodeServer.Password != nil && *CodeServer.Password != ""`.
abbrev auth_args : Option String → List String
auth_args none = "--auth" ∷ "none" ∷ []
auth_args (some p) = if p == "" then "--auth" ∷ "none" ∷ [] else "--password" ∷ p ∷ []

code_server_parts : Option CodeServerSpec → Parts → Parts
code_server_parts none p = p
code_server_parts (some s) p = record {
  cmd = s.tool.command;
  args =
      p.args
      ++ (s.tool.args
          ++ (("--host" ∷ "0.0.0.0" ∷ [])
              ++ (auth_args s.password
                  ++ ((if s.workspace == "" then [] else "--workspace" ∷ s.workspace ∷ [])
                      ++ ("--abs-proxy-base-path" ∷ "/" ∷ [])))));
  env = p.env ++ tool_env s.tool.env;
}

abbrev jupyter_cmd : List String → List String
jupyter_cmd [] = "jupyter" ∷ "lab" ∷ []
jupyter_cmd (x ∷ xs) = x ∷ xs

jupyter_parts : String → String → Option JupyterSpec → Parts → Parts
jupyter_parts framework name none p = p
jupyter_parts framework name (some s) p = record {
  cmd = jupyter_cmd s.tool.command;
  args =
      p.args
      ++ (s.tool.args
          ++ ((if s.notebook_dir == ""
                then []
                else ("--NotebookApp.notebook_dir=" <> s.notebook_dir) ∷ [])
              ++ (("--ServerApp.base_url=" <> ("/" <> (framework <> ("/" <> name))))
                  ∷ "--ServerApp.token=''"
                  ∷ "--ServerApp.allow_root=True"
                  ∷ [])));
  env = p.env ++ tool_env s.tool.env;
}

abbrev env_unless_empty : String → String → List Env
env_unless_empty name value = if value == "" then [] else record { name = name; value = value } ∷ []

no_vnc_parts : Option NoVncSpec → Parts → Parts
no_vnc_parts none p = p
no_vnc_parts (some s) p = record {
  cmd = s.tool.command;
  args = p.args ++ s.tool.args;
  env =
      p.env
      ++ (env_unless_empty "VNC_DISPLAY" s.display ++ env_unless_empty "VNC_PASSWORD" s.password);
}

-- `BuildDevContainer`. The URL is not used by it.
unfoldable pub build_dev_container : DevTask → String → String → Container
unfolding code_server_parts jupyter_parts no_vnc_parts get_framework
build_dev_container t image external_url =
    let framework = get_framework t in
    let start : Parts = record {
      cmd = [];
      args = [];
      env =
          record { name = "KAI_TASK_NAME"; value = t.meta.name }
          ∷ record { name = "KAI_TASK_TYPE"; value = "development" }
          ∷ record { name = "KAI_FRAMEWORK"; value = framework }
          ∷ [];
    } in
    let p = no_vnc_parts t.spec.no_vnc (
      jupyter_parts framework t.meta.name t.spec.jupyter
        (code_server_parts t.spec.code_server start)) in
    record {
      name = "devtask";
      image = image;
      command = p.cmd;
      args = p.args;
      env = p.env;
      ports = [];
      resources = no_resources;
      volume_mounts = [];
    }

-- The labels of the deployment, of its pods, and of the service.
unfoldable pub dev_labels : DevTask → Labels
unfolding get_framework insert insert_all
dev_labels t = insert "kai.io/task-type" "development" (
    insert "framework" (get_framework t)
      (insert_all common_labels (("kai.io/devtask", t.meta.name) ∷ [])))

module _ {W : Type 0} (o : System W) where
  -- `toolSpec.Image`, or the image of the framework.
  abbrev image_for : DevTask → String
  image_for t =
      let (tool, image) = get_tool_spec_and_image o.getenv t in
      if tool.image == "" then image else tool.image

  unfoldable pub dev_container : DevTask → String → Container
  unfolding build_dev_container get_tool_spec_and_image get_service_port_for_task
  dev_container t external_url = record (build_dev_container t (image_for t) external_url) {
    ports = record { name = "app"; container_port = get_service_port_for_task o.getenv t } ∷ [];
    volume_mounts = (build_volumes o.client t.spec.volumes t.spec.data_sources).1;
  }

  -- `BuildDeployment`, with the volumes and the mounts that it sets on the result.
  unfoldable pub build_deployment : DevTask → String → Deployment
  unfolding dev_container dev_labels Builder.build_deployment
  build_deployment t external_url =
      let d =
        Builder.build_deployment t.meta.name t.meta.namespace (get_framework t) "development"
          (image_for t) (pos 1) (dev_container t external_url) (dev_labels t) in
      record d {
        template = record d.template {
          volumes = (build_volumes o.client t.spec.volumes t.spec.data_sources).0;
        };
      }

  -- `CreateService`, and `EnsureService`, which calls it.
  unfoldable pub create_service : DevTask → Action W (Unit {0})
  unfolding dev_labels get_service_name_for_task get_service_port_for_task ensure_service
  create_service t =
      ensure_service o.client t.meta (get_service_name_for_task t) t.meta.namespace
        (get_service_port_for_task o.getenv t) (dev_labels t)

  unfoldable pub cleanup_service : DevTask → Action W (Unit {0})
  unfolding get_service_name_for_task delete_service
  cleanup_service t = delete_service o.client (get_service_name_for_task t) t.meta.namespace
