-- ===== src/DevTask/Tests.antt =====
-- Runs of the DevTask controller and instances of its theorems.
use kai_operator.Base.{
  ◌≡◌, ◌≢◌, refl, String, true, none, some, [], ◌∷◌, arith, ◌==◌, ◌&&◌, eq_iff, inl, inr,
}
use kai_operator.Base.Lists.{All, Any, AllOfSome, any}
use kai_operator.Base.Labels.{selects, insert}
use kai_operator.Api.Meta.{key_of}
use kai_operator.Api.Kube.{Container, Deployment}
use kai_operator.Client.Order.{After, is_update, is_gone}
use kai_operator.Client.Calm.{Answers, is_ok}
use kai_operator.DevTask.Reachable.{external_url_never_fails}
use kai_operator.DevTask.Cleanup.{deployment_gone_first}
use kai_operator.Api.Task.{TaskPhase, unset, creating, running, completed, RoutingSpec}
use kai_operator.Api.DevTask
use kai_operator.Api.DevTask.{DevTask}
use kai_operator.Client.{ok, run_at, Run}
use kai_operator.Client.Calls.{calls}
use kai_operator.DevTask.Writes.{Writes}
use kai_operator.Fake.{World, empty, server}
use kai_operator.Builder.{build_service}
use kai_operator.DevTask.Framework.{
  get_framework, get_deployment_name, get_service_name_for_task, get_service_port_for_task,
}
use kai_operator.DevTask.Gateway.{get_gateway_namespace, needs_external_routing, get_routing_config}
use kai_operator.DevTask.Url.{get_external_url, get_external_url_with_gateway_ip}
use kai_operator.DevTask.Route.{build_http_route}
use kai_operator.DevTask.Deployment.{dev_labels, build_deployment}
use kai_operator.DevTask.Controller.{reconcile_task, handle_deletion, reconcile}
use kai_operator.DevTask.State.{deployment_key, pod_labels}
use kai_operator.DevTask.Steps.{Edge, StoresPhase}
use kai_operator.DevTask.Phases.{dev_reconcile-Follows}
use kai_operator.DevTask.Objects.{pods_shared, route_reaches_container}
use kai_operator.Client.Rounds.{Wrote, Rounds, here, round}
use kai_operator.DevTask.History.{Round, dev_ended_for_good, dev_ran_after_creating}
use kai_operator.DevTask.Awake.{dev_not_forgotten}
use kai_operator.Client.Wakes.{is_stored}
use kai_operator.DevTask.Started.{dev_runs_with_deployment}
use kai_operator.Client.Ensured.{KeepsKey, is_running_write, has_deployment}
use kai_operator.DevTask.Gateway.{get_route_path}
use kai_operator.DevTask.Samples.{jupyter, system, hosted, key, held}
use kai_operator.DevTask.Routing.{routing_agrees, url_at, configured_urls_agree}

all : Unit {0}
unfolding reconcile calls build_deployment get_deployment_name get_external_url insert build_service
all = tt

abbrev reconciled : World → World
reconciled w = (reconcile system key (run_at w)).1.world

-- Two reconciliations of a new task make its deployment, its service and its route.
two_rounds :
    (let w = reconciled (reconciled (held unset)) in
      (any (λ t. t.status.external_url == "http://dev.example.org/jupyter/nb/") w.dev_tasks
        && any (λ d. d.meta.name == "nb-jupyter-lab") w.deployments
        && any (λ s. s.meta.name == "nb-jupyter-lab") w.services
        && any (λ r. r.meta.name == "nb-jupyter-lab") w.http_routes)
      ≡ true)
unfolding all
two_rounds = refl

stores : StoresPhase server.dev_tasks
stores t t' w e = ground arith

dev_reconcile-Follows_example :
    All (Writes (Edge creating)) (reconcile system key (run_at (held creating))).1.log
dev_reconcile-Follows_example =
    dev_reconcile-Follows system stores key (held creating) (jupyter "nb" (some hosted) creating)
      refl refl

named : ◌≢◌ {A = String} "lab" ""
named = λ e. ground (arith, (eq_iff "lab" "").1 e)

abbrev nb : DevTask
nb = jupyter "nb" (some hosted) running

abbrev other_task : DevTask
other_task = jupyter "other" none running

pods_shared_example :
    (let theirs = build_deployment system other_task "" in
      (theirs.meta.namespace ≡ "lab")
      × (selects (pod_labels nb) theirs.template.labels ≡ true)
      × (selects (build_deployment system nb "").match_labels theirs.template.labels ≡ true))
pods_shared_example = pods_shared system nb other_task "" (unfold all in refl) refl named

route_reaches_container_example :
    (let name = get_service_name_for_task nb in
      let port = get_service_port_for_task system.getenv nb in
      let svc = build_service name "lab" port (dev_labels nb) in
      let pod = (build_deployment system nb "").template in
      AllOfSome
        (λ rule.
          AllOfSome
            (λ b.
              (b.name ≡ svc.meta.name)
              × Any
                  (λ p.
                    (p.port ≡ b.port)
                    × Any
                        (λ (k : Container). Any (λ q. q.container_port ≡ p.target_port) k.ports)
                        pod.containers)
                  svc.ports)
            rule.backends)
        (build_http_route nb name port).rules
      × (selects svc.selector pod.labels ≡ true))
route_reaches_container_example = route_reaches_container system nb ""

routing_agrees_example :
    (get_framework nb ≡ DevTask.get_framework nb)
    × (needs_external_routing nb ≡ DevTask.needs_external_routing nb)
    × ((c : RoutingSpec) → get_routing_config nb ≡ some c → DevTask.get_routing_config nb ≡ some c)
    × (get_gateway_namespace nb ≡ DevTask.get_gateway_namespace nb)
routing_agrees_example = routing_agrees nb

abbrev start : Run World
start = run_at empty

configured_urls_agree_example :
    (get_external_url nb ≡ url_at hosted "dev.example.org" (get_route_path nb))
    × (get_external_url_with_gateway_ip system nb start
        ≡ (ok (url_at hosted "dev.example.org" (get_route_path nb)), start))
configured_urls_agree_example =
    configured_urls_agree system nb hosted "dev.example.org" start (unfold all in refl)
      (unfold all in refl) (inl ([], refl))

abbrev unaddressed : DevTask
unaddressed = jupyter "nb" none running

services_answer : Answers server.services
services_answer k w = ground arith

gateways_answer : Answers server.gateways
gateways_answer k w = ground arith

external_url_never_fails_example :
    is_ok (get_external_url_with_gateway_ip system unaddressed start).0 ≡ true
external_url_never_fails_example =
    external_url_never_fails system services_answer gateways_answer unaddressed start

-- The deployment of the task, and a world that has it.
abbrev old : Deployment
old = build_deployment system nb ""

abbrev deployed : World
deployed = record (held running) { deployments = old ∷ [] }

deployment_gone_first_example :
    After is_update (is_gone (key_of old.meta)) (handle_deletion system nb (run_at deployed)).1.log
deployment_gone_first_example = deployment_gone_first system deployed nb old (unfold all in refl)

keeps : KeepsKey server
keeps owner m m' e = ground arith

abbrev new_nb : DevTask
new_nb = jupyter "nb" (some hosted) creating

dev_runs_with_deployment_example :
    After is_running_write
      (has_deployment (deployment_key new_nb))
      (reconcile_task system new_nb (run_at (held creating))).1.log
dev_runs_with_deployment_example =
    dev_runs_with_deployment system keeps new_nb named (held creating) refl

dev_not_forgotten_example :
    any is_stored (reconcile_task system new_nb (run_at (held creating))).1.log ≡ true
dev_not_forgotten_example =
    dev_not_forgotten system new_nb (held creating) refl (inl refl) (unfold all in refl)

-- A reconciliation of the one task of a world.
abbrev round_of :
    (p r : TaskPhase) → Wrote r (reconcile system key (run_at (held p))).1.log → Round system p r
round_of p r k = record {
  key = key;
  world = held p;
  task = jupyter "nb" (some hosted) p;
  starts = refl;
  read = refl;
  has = refl;
  wrote = k;
}

stays_completed : Rounds (Round system) completed completed
stays_completed =
    round here (round_of completed completed (unfold all in inr (inr (inr (inr (inl refl))))))

gets_running : Rounds (Round system) unset running
gets_running =
    round (round here (round_of unset creating (unfold all in inl refl)))
      (round_of creating running (unfold all in inl refl))

unset_not_running : ◌≢◌ {A = TaskPhase} unset running
unset_not_running = λ e. ground arith

dev_ended_for_good_example : ◌≡◌ {A = TaskPhase} completed completed
dev_ended_for_good_example =
    dev_ended_for_good system stores completed completed (inl refl) stays_completed

dev_ran_after_creating_example :
    Rounds (Round system) unset creating × Rounds (Round system) creating running
dev_ran_after_creating_example =
    dev_ran_after_creating system stores unset unset_not_running gets_running
