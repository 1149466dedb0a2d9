-- ===== src/FineTuneTask/Tests.antt =====
-- Runs of the FineTuneTask controller and instances of its theorems.
use kai_operator.Base.{◌≡◌, ◌≢◌, inl, refl, arith, true, none, [], ◌∷◌, ◌==◌, ◌&&◌}
use kai_operator.Base.Lists.{All, any}
use kai_operator.Base.Labels.{insert}
use kai_operator.Base.Text.{pos}
use kai_operator.Api.Meta.{Key, key_of, new_meta}
use kai_operator.Api.Kube.{Job, Service}
use kai_operator.Api.Task.{TaskPhase, unset, pending, running, completed, no_status}
use kai_operator.Api.FineTuneTask.{FineTuneTask}
use kai_operator.Client.{run_at}
use kai_operator.Client.Calls.{calls}
use kai_operator.Client.Order.{After, is_update, is_gone}
use kai_operator.FineTuneTask.Writes.{Writes}
use kai_operator.Fake.{World, empty, server}
use kai_operator.FineTuneTask.Job.{framework_or_default, build_job}
use kai_operator.FineTuneTask.WebUi.{ui_service, ui_deployment}
use kai_operator.FineTuneTask.Controller.{finalizer_name, handle_deletion, reconcile}
use kai_operator.FineTuneTask.Phases.{Edge, tuning_reconcile-Follows}
use kai_operator.Client.Rounds.{Rounds, here, round}
use kai_operator.FineTuneTask.History.{Round, tuning_never_ends}
use kai_operator.FineTuneTask.Cleanup.{tuning_job_gone_first}

abbrev task : TaskPhase → FineTuneTask
task phase = record {
  meta = record (new_meta "tune" "lab" []) { finalizers = finalizer_name ∷ [] };
  spec = record {
    resources = none;
    volumes = [];
    data_sources = [];
    run_after = [];
    ttl_seconds = none;
    lora = none;
    llama_factory = none;
  };
  status = record no_status { phase = phase };
}

abbrev key : Key
key = record { name = "tune"; namespace = "lab" }

abbrev held : TaskPhase → World
held phase = record empty { fine_tune_tasks = task phase ∷ [] }

abbrev reconciled : World → World
reconciled w = (reconcile server key (run_at w)).1.world

all : Unit {0}
unfolding reconcile calls insert build_job ui_service ui_deployment framework_or_default
all = tt

-- Two reconciliations of a new task make its job, its service and its web UI.
two_rounds :
    (let w = reconciled (reconciled (held unset)) in
      (any (λ j. j.meta.name == "finetune-llamafactory-tune") w.jobs
        && (any (λ s. s.meta.name == "finetune-llamafactory-tune") w.services
            && any (λ d. d.meta.name == "finetune-llamafactory-tune-ui") w.deployments))
      ≡ true)
unfolding all
two_rounds = refl

tuning_reconcile-Follows_example :
    All (Writes (Edge pending)) (reconcile server key (run_at (held pending))).1.log
tuning_reconcile-Follows_example =
    tuning_reconcile-Follows server key (held pending) (task pending) refl

-- A job that succeeded, and a world with it and with the service.
abbrev ended_job : Job
ended_job = record {
  meta = new_meta "finetune-llamafactory-tune" "lab" [];
  ttl_seconds_after_finished = none;
  template = record {
    labels = [];
    restart_policy = "Never";
    init_containers = [];
    containers = [];
    volumes = [];
  };
  status = record { active = pos 0; succeeded = pos 1; failed = pos 0; conditions = [] };
}

abbrev a_service : Service
a_service = record {
  meta = new_meta "finetune-llamafactory-tune" "lab" [];
  selector = [];
  ports = [];
  service_type = "";
  ingress = [];
}

abbrev served : World
served = record (held running) { jobs = ended_job ∷ []; services = a_service ∷ [] }

tuning_job_gone_first_example :
    After is_update
      (is_gone (key_of ended_job.meta))
      (handle_deletion server (task running) (run_at served)).1.log
tuning_job_gone_first_example =
    tuning_job_gone_first server served (task running) ended_job (unfold all in refl)

-- A new task that runs.
gets_running : Rounds (Round server) unset running
gets_running = round {r = running} here (record {
  key = key;
  world = held unset;
  task = task unset;
  starts = refl;
  read = refl;
  has = tt;
  wrote = unfold all in inl refl;
})

tuning_never_ends_example : ◌≢◌ {A = TaskPhase} running completed
tuning_never_ends_example =
    tuning_never_ends server completed unset running (inl refl) (λ e. ground arith) gets_running
