-- ===== src/InferenceTask/Tests.antt =====
-- Runs of the InferenceTask controller and instances of its theorems.
use kai_operator.Base.{◌≢◌, ◌≡◌, refl, true, [], ◌∷◌, arith, ◌==◌, ◌&&◌, inl}
use kai_operator.Base.Lists.{All, any}
use kai_operator.Base.Labels.{insert}
use kai_operator.Base.Text.{is_int}
use kai_operator.Api.Meta.{key_of}
use kai_operator.Api.Task.{TaskPhase, completed, unset, creating, running}
use kai_operator.Api.InferenceTask.{InferenceTask}
use kai_operator.Client.{ok, run_at}
use kai_operator.Client.Calls.{calls}
use kai_operator.Client.Order.{After, is_update, is_gone}
use kai_operator.InferenceTask.Writes.{Writes}
use kai_operator.Config.{get_framework_port, get_default_config, override}
use kai_operator.DevTask.Steps.{Edge}
use kai_operator.Fake.{World, server}
use kai_operator.Host.Address.{get_default_host_ip}
use kai_operator.InferenceTask.Deployment.{build_inference_deployment}
use kai_operator.InferenceTask.State.{deployment_key}
use kai_operator.InferenceTask.Controller.{handle_deletion, reconcile_task, reconcile}
use kai_operator.InferenceTask.Phases.{StoresPhase, inference_reconcile-Follows}
use kai_operator.InferenceTask.Awake.{inference_not_forgotten}
use kai_operator.Client.Wakes.{is_stored}
use kai_operator.Client.Rounds.{Wrote, Rounds, here, round}
use kai_operator.InferenceTask.History.{
  Round, inference_ended_for_good, inference_ran_after_creating,
}
use kai_operator.InferenceTask.Started.{inference_runs_with_deployment}
use kai_operator.Client.Ensured.{KeepsKey, is_running_write, has_deployment}
use kai_operator.InferenceTask.Cleanup.{inference_deployment_gone_first}
use kai_operator.InferenceTask.Samples.{task, system, key, llm, unlabelled, held, built}

all : Unit {0}
unfolding reconcile calls insert build_inference_deployment get_default_host_ip get_framework_port
    get_default_config override
all = tt

abbrev reconciled : World → World
reconciled w = (reconcile system key (run_at w)).1.world

-- Three reconciliations of a new task label it, create it and make its objects.
three_rounds :
    (let w = reconciled (reconciled (reconciled (held (unlabelled unset)))) in
      (any (λ t. t.status.external_url == "http://127.0.0.1/vllm/llm") w.inference_tasks
        && any (λ d. d.meta.name == "inf-vllm-llm") w.deployments
        && any
            (λ s. s.meta.name == "inf-vllm-llm" && any (λ p. is_int 8000 p.port) s.ports)
            w.services
        && any (λ r. r.meta.name == "inf-vllm-llm") w.http_routes)
      ≡ true)
unfolding all
three_rounds = refl

stores : StoresPhase server.inference_tasks
stores t t' w e = ground arith

inference_reconcile-Follows_example :
    All (Writes (Edge creating)) (reconcile system key (run_at (held (task "llm" creating)))).1.log
inference_reconcile-Follows_example =
    inference_reconcile-Follows system stores key (held (task "llm" creating)) (task "llm" creating)
      refl

abbrev deployed : World
deployed = record (held llm) { deployments = built llm ∷ [] }

inference_deployment_gone_first_example :
    After is_update
      (is_gone (key_of (built llm).meta))
      (handle_deletion system llm (run_at deployed)).1.log
inference_deployment_gone_first_example =
    inference_deployment_gone_first system deployed llm (built llm) (unfold all in refl)

keeps : KeepsKey server
keeps owner m m' e = ground arith

abbrev new_llm : InferenceTask
new_llm = task "llm" creating

inference_runs_with_deployment_example :
    After is_running_write
      (has_deployment (deployment_key new_llm))
      (reconcile_task system new_llm (run_at (held new_llm))).1.log
inference_runs_with_deployment_example =
    inference_runs_with_deployment system keeps new_llm (held new_llm)

inference_not_forgotten_example :
    any is_stored (reconcile_task system new_llm (run_at (held new_llm))).1.log ≡ true
inference_not_forgotten_example =
    inference_not_forgotten system new_llm (held new_llm) refl (inl refl) (unfold all in refl)

-- A reconciliation of the one task of a world.
abbrev round_of :
    (t : InferenceTask) (r : TaskPhase)
    → (server.inference_tasks.get key (held t)).0 ≡ ok t
    → Wrote r (reconcile system key (run_at (held t))).1.log
    → Round system t.status.phase r
round_of t r e k = record {
  key = key;
  world = held t;
  task = t;
  starts = refl;
  read = e;
  has = tt;
  wrote = k;
}

-- A completed task whose end is written, and a new one that is created and runs.
stays_completed : Rounds (Round system) completed completed
stays_completed =
    round here (round_of (task "llm" completed) completed refl (unfold all in inl refl))

gets_running : Rounds (Round system) unset running
gets_running =
    round (round here (round_of (task "llm" unset) creating refl (unfold all in inl refl)))
      (round_of new_llm running refl (unfold all in inl refl))

unset_not_running : ◌≢◌ {A = TaskPhase} unset running
unset_not_running = λ e. ground arith

inference_ended_for_good_example : ◌≡◌ {A = TaskPhase} completed completed
inference_ended_for_good_example =
    inference_ended_for_good system stores completed completed (inl refl) stays_completed

inference_ran_after_creating_example :
    Rounds (Round system) unset creating × Rounds (Round system) creating running
inference_ran_after_creating_example =
    inference_ran_after_creating system stores unset unset_not_running gets_running
