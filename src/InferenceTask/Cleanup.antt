-- ===== src/InferenceTask/Cleanup.antt =====
-- When the InferenceTask controller gives up its finalizer (cleanupResources of
-- internal/controller/inference/inference_phases.go and handleDeletion of inferencetask_controller.go),
-- and the label that it writes first.
use text.Mathlib.TextPositions.{eq_refl}
use kai_operator.Base.{
  ◌≡◌, refl, true, Bool, arith, eq_iff, Bool-cases, inl, inr, ◌==◌, false, subst, sym, ap,
}
use kai_operator.Base.Labels.{lookup-insert}
use kai_operator.Api.Meta.{Key, key_of}
use kai_operator.Api.Kube.{Deployment, HttpRoute}
use kai_operator.Api.InferenceTask.{InferenceTask, get_framework}
use kai_operator.Client.{ok, Event, Run, run_at, ◌>>◌}
use kai_operator.Client.Calls.{calls, update, inference_task_object}
use kai_operator.Client.Settles.{Settles, Reaches, Reaches-bind, settles_rules}
use kai_operator.Client.Order.{After, is_update, is_gone}
use kai_operator.Host.{System}
use kai_operator.Reconcile.{done}
use kai_operator.InferenceTask.Model.{framework_or_engine, get_engine}
use kai_operator.InferenceTask.State.{finalizer_name, deployment_key}
use kai_operator.InferenceTask.Service.{delete_service, cleanup_service}
use kai_operator.InferenceTask.Route.{drop_route_finalizer, delete_route, cleanup_http_route}
use kai_operator.InferenceTask.Controller.{
  delete_deployment, cleanup_resources, handle_deletion, framework_label, labelled, or_empty,
  label_framework, reconcile_labelled, reconcile_task,
}

module _ {W : Type 0} (o : System W) where
  module _ {p q : Event → Bool} where
    service-Settles : (t : InferenceTask) → Settles p q (cleanup_service o t)
    unfolding cleanup_service delete_service
    service-Settles t = search settles_rules depth 9

    route-Settles : (r : HttpRoute) → Settles p q (delete_route o r)
    unfolding delete_route drop_route_finalizer
    route-Settles r = search settles_rules depth 12

    cleanup_route-Settles : (t : InferenceTask) → Settles p q (cleanup_http_route o t)
    unfolding cleanup_http_route
    cleanup_route-Settles t = search (settles_rules, route-Settles) depth 9

  deployment-Reaches :
      (w : W) (k : Key) (d : Deployment)
      → (o.client.deployments.get k w).0 ≡ ok d
      → Reaches is_update (is_gone (key_of d.meta)) (delete_deployment o k) (run_at w)
  unfolding delete_deployment calls
  deployment-Reaches w k d e = record {
    order =
        ground (arith, eq_iff d.meta.name d.meta.name, eq_iff d.meta.namespace d.meta.namespace);
    made = λ a h.
        ground (arith, eq_iff d.meta.name d.meta.name, eq_iff d.meta.namespace d.meta.namespace);
  }

  cleanup-Reaches :
      (w : W) (t : InferenceTask) (d : Deployment)
      → (o.client.deployments.get (deployment_key t) w).0 ≡ ok d
      → Reaches is_update (is_gone (key_of d.meta)) (cleanup_resources o t) (run_at w)
  unfolding cleanup_resources
  cleanup-Reaches w t d e =
      Reaches-bind (delete_deployment o (deployment_key t))
        (λ _. cleanup_service o t >> cleanup_http_route o t) (run_at w)
        (deployment-Reaches w (deployment_key t) d e)
        (λ _. search (settles_rules, service-Settles, cleanup_route-Settles) depth 9)

  -- In the deletion of a task whose deployment can be read, nothing is updated before that deployment
  -- is gone, neither a route nor the task.
  pub inference_deployment_gone_first :
      (w : W) (t : InferenceTask) (d : Deployment)
      → (o.client.deployments.get (deployment_key t) w).0 ≡ ok d
      → After is_update (is_gone (key_of d.meta)) (handle_deletion o t (run_at w)).1.log
  unfolding handle_deletion
  inference_deployment_gone_first w t d e =
      elim (Bool-cases (o.client.contains_finalizer t.meta finalizer_name)) [
        | inl h ↦
            rw h
              (Reaches-bind (cleanup_resources o t)
                (λ _.
                  update o.client.inference_tasks
                    (record t { meta = o.client.remove_finalizer t.meta finalizer_name })
                  >> done)
                (run_at w) (cleanup-Reaches w t d e) (λ _. search settles_rules depth 9)).order
        | inr h ↦ rw h tt
      ]

  labelled-label :
      (t : InferenceTask)
      → (framework_label (labelled t) == framework_or_engine (labelled t)) ≡ true
  unfolding framework_label labelled framework_or_engine get_framework get_engine
  labelled-label t =
      subst (λ x. (x == framework_or_engine t) ≡ true)
        (sym (
          ap or_empty
            (lookup-insert "framework" "framework" (framework_or_engine t) t.meta.labels)))
        (eq_refl (framework_or_engine t))

  -- A task without the label of its framework is given the label, and nothing else is done. The task
  -- that is written so has the label: a reconciliation of it goes on to its deletion, its finalizer
  -- or its phase.
  pub label_settles :
      (t : InferenceTask) (s : Run W)
      → (framework_label t == framework_or_engine t) ≡ false
      → (reconcile_task o t s ≡ label_framework o t s)
        × (reconcile_task o (labelled t) s ≡ reconcile_labelled o (labelled t) s)
  unfolding reconcile_task
  label_settles t s h = (rw h refl, rw (labelled-label t) refl)
