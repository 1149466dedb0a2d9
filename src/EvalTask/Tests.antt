-- ===== src/EvalTask/Tests.antt =====
-- Runs of the EvalTask controller and instances of its theorems.
use kai_operator.Base.{◌≡◌, refl, String, true, none, some, List, [], ◌∷◌, inl, inr}
use kai_operator.Base.Lists.{All, any}
use kai_operator.Base.Labels.{insert}
use kai_operator.Base.Text.{pos}
use kai_operator.Api.Meta.{Key, key_of, new_meta}
use kai_operator.Api.Kube.{Job}
use kai_operator.Api.Task.{TaskPhase, pending, running, completed, no_status}
use kai_operator.Api.EvalTask.{EvalTask, no_open_compass}
use kai_operator.Client.{run_at}
use kai_operator.Client.Calls.{calls}
use kai_operator.Client.Order.{After, is_update, is_gone}
use kai_operator.Fake.{World, empty, server}
use kai_operator.EvalTask.Job.{job_name, build_job, framework_or_default}
use kai_operator.EvalTask.Controller.{
  finalizer_name, set_end_time, handle_deletion, reconcile_task, reconcile,
}
use kai_operator.EvalTask.Phases.{Follows, reconcile-Follows}
use kai_operator.Client.Rounds.{Wrote, Rounds, here, round}
use kai_operator.EvalTask.History.{Round, eval_ended_for_good}
use kai_operator.EvalTask.Cleanup.{job_gone_before_finalizer, Finishes, finished_writes}

-- A task with a phase and finalizers.
abbrev task : TaskPhase → List String → EvalTask
task phase finalizers = record {
  meta = record {
    name = "bench";
    namespace = "lab";
    labels = [];
    finalizers = finalizers;
    deletion_timestamp = none;
    resource_version = "";
    controller = none;
  };
  spec = record {
    resources = none;
    volumes = [];
    data_sources = [];
    run_after = [];
    ttl_seconds = none;
    open_compass = some no_open_compass;
    lm_eval = none;
  };
  status = record no_status { phase = phase };
}

abbrev key : Key
key = record { name = "bench"; namespace = "lab" }

abbrev held : TaskPhase → World
held phase = record empty { eval_tasks = task phase (finalizer_name ∷ []) ∷ [] }

abbrev reconciled : World → World
reconciled w = (reconcile server key (run_at w)).1.world

all : Unit {0}
unfolding reconcile job_name framework_or_default build_job insert calls
all = tt

-- Two reconciliations of a pending task give a running one with its job.
two_rounds :
    (let w = reconciled (reconciled (held pending)) in
      (w.eval_tasks
        ≡ record (task running (finalizer_name ∷ [])) {
          meta = record (task running (finalizer_name ∷ [])).meta {
            labels = ("framework", "opencompass") ∷ [];
          };
          status = record no_status { phase = running; start_time = some 7 };
        }
          ∷ []))
unfolding all
two_rounds = refl

job_made : any (λ j. true) (reconciled (held running)).jobs ≡ true
unfolding all
job_made = refl

-- A finished task loses its finalizer in one round and has it again after the next.
oscillation :
    (reconciled (held completed)).eval_tasks
    ≡ record (task completed []) {
      status = record no_status { phase = completed; end_time = some 7 };
    }
      ∷ []
unfolding all
oscillation = refl

reconcile-Follows_example :
    All (Follows pending) (reconcile server key (run_at (held pending))).1.log
reconcile-Follows_example =
    reconcile-Follows server key (held pending) (task pending (finalizer_name ∷ [])) refl

-- A completed task with its finalizer.
abbrev finished : EvalTask
finished = task completed (finalizer_name ∷ [])

finished_writes_example :
    Finishes server finished
      (set_end_time server finished (run_at (held completed))).0
      (reconcile_task server finished (run_at (held completed))).1.log
unfolding all
finished_writes_example =
    finished_writes server (held completed) finished {r = none} refl (inl refl) refl

-- The world of a running task whose job is there.
abbrev a_job : Job
a_job = record {
  meta = new_meta "eval-opencompass-bench" "lab" [];
  ttl_seconds_after_finished = none;
  template = record {
    labels = [];
    restart_policy = "Never";
    init_containers = [];
    containers = [];
    volumes = [];
  };
  status = record { active = pos 1; succeeded = pos 0; failed = pos 0; conditions = [] };
}

abbrev with_job : World
with_job = record empty { eval_tasks = task running (finalizer_name ∷ []) ∷ []; jobs = a_job ∷ [] }

job_gone_before_finalizer_example :
    After is_update
      (is_gone (key_of a_job.meta))
      (handle_deletion server (task running (finalizer_name ∷ [])) (run_at with_job)).1.log
unfolding job_name framework_or_default
job_gone_before_finalizer_example =
    job_gone_before_finalizer server with_job (task running (finalizer_name ∷ [])) a_job refl

-- A new evaluation that runs, and a completed one whose end is written.
abbrev round_of :
    (p r : TaskPhase) → Wrote r (reconcile server key (run_at (held p))).1.log → Round server p r
round_of p r k = record {
  key = key;
  world = held p;
  task = task p (finalizer_name ∷ []);
  starts = refl;
  read = refl;
  has = tt;
  wrote = k;
}

stays_completed : Rounds (Round server) completed completed
stays_completed = round here (round_of completed completed (unfold all in inr (inr (inl refl))))

eval_ended_for_good_example : ◌≡◌ {A = TaskPhase} completed completed
eval_ended_for_good_example =
    eval_ended_for_good server completed completed (inl refl) stays_completed
