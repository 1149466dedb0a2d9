-- ===== src/DevTask/Samples.antt =====
-- Tasks and a machine for the tests of the DevTask controller.
use kai_operator.Base.{String, true, false, Option, none, some, [], ◌∷◌}
use kai_operator.Api.Meta.{Key, new_meta}
use kai_operator.Api.Task.{TaskPhase, RoutingSpec, no_tool, no_status, routing_enabled}
use kai_operator.Api.DevTask.{DevTask}
use kai_operator.Fake.{World, empty, server}
use kai_operator.Host.{System}
use kai_operator.DevTask.Framework.{finalizer_name}

abbrev pub jupyter : String → Option RoutingSpec → TaskPhase → DevTask
jupyter name routing phase = record {
  meta = record (new_meta name "lab" []) { finalizers = finalizer_name ∷ [] };
  spec = record {
    resources = none;
    volumes =
        record {
          name = "w";
          mount_path = "/w";
          type = "emptyDir";
          capacity = "";
          storage_class = "";
        }
        ∷ [];
    data_sources = [];
    run_after = [];
    ttl_seconds = none;
    code_server = none;
    jupyter = some (record { tool = record no_tool { routing = routing }; notebook_dir = "" });
    no_vnc = none;
    vllm = none;
  };
  status = record no_status { phase = phase };
}

abbrev pub system : System World
system = record {
  client = server;
  getenv = λ _. "";
  host = record { colima = none; parses_ip = λ _. false; interfaces = none };
}

abbrev pub hosted : RoutingSpec
hosted = record (routing_enabled true) { hostnames = "dev.example.org" ∷ [] }

abbrev pub key : Key
key = record { name = "nb"; namespace = "lab" }

abbrev pub held : TaskPhase → World
held phase = record empty { dev_tasks = jupyter "nb" (some hosted) phase ∷ [] }
