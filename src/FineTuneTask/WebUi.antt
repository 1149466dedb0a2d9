-- ===== src/FineTuneTask/WebUi.antt =====
-- The web UI of a FineTuneTask (ensureWebUI of
-- internal/controller/finetunetask/finetunetask_controller.go).
use kai_operator.Base.{String, ◌<>◌, some, [], ◌∷◌}
use kai_operator.Base.Labels.{Labels}
use kai_operator.Base.Text.{pos}
use kai_operator.Api.Meta.{new_meta}
use kai_operator.Api.Kube.{no_resources, Service, Deployment}
use kai_operator.Api.FineTuneTask.{FineTuneTask}
use kai_operator.FineTuneTask.Job.{object_name}

-- `fmt.Sprintf("finetune-%s-%s-ui", framework, finetune.Name)`.
unfoldable pub deployment_name : String → FineTuneTask → String
deployment_name framework t = "finetune-" <> (framework <> ("-" <> (t.meta.name <> "-ui")))

-- The one label of the service and of the deployment, by which both select pods.
unfoldable pub ui_labels : FineTuneTask → Labels
ui_labels t = ("kai.io/finetune", t.meta.name) ∷ []

unfoldable pub ui_service : String → FineTuneTask → Service
unfolding object_name ui_labels
ui_service framework t = record {
  meta = new_meta (object_name framework t) t.meta.namespace (ui_labels t);
  selector = ui_labels t;
  ports =
      record {
        name = "http";
        port = pos 8000;
        target_port = pos 0;
        node_port = pos 0;
        protocol = "";
      }
      ∷ [];
  service_type = "";
  ingress = [];
}

unfoldable pub ui_deployment : String → FineTuneTask → Deployment
unfolding deployment_name ui_labels
ui_deployment framework t = record {
  meta = new_meta (deployment_name framework t) t.meta.namespace (ui_labels t);
  replicas = some (pos 1);
  match_labels = ui_labels t;
  template = record {
    labels = ui_labels t;
    restart_policy = "";
    init_containers = [];
    containers =
        record {
          name = "webui";
          image = "hiyouga/llamafactory:latest";
          command = "python" ∷ "-m" ∷ "llamafactory.api.webui" ∷ [];
          args = [];
          env =
              record { name = "GRADIO_SERVER_NAME"; value = "0.0.0.0" }
              ∷ record { name = "GRADIO_SERVER_PORT"; value = "8000" }
              ∷ [];
          ports = record { name = "http"; container_port = pos 8000 } ∷ [];
          resources = no_resources;
          volume_mounts = [];
        }
        ∷ [];
    volumes = [];
  };
}
