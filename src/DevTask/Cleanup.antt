-- ===== src/DevTask/Cleanup.antt =====
-- When the DevTask controller gives up its finalizer (cleanupResources of
-- internal/controller/devtask/devtask_phases.go and handleDeletion of devtask_controller.go).
use kai_operator.Base.{◌≡◌, Bool, arith, eq_iff, List, [], ◌∷◌, Bool-cases, inl, inr}
use kai_operator.Api.Meta.{Key, key_of}
use kai_operator.Api.Kube.{Deployment, HttpRoute}
use kai_operator.Api.DevTask.{DevTask}
use kai_operator.Client.{ok, Action, Event, pure, on, run_at, ◌>>◌}
use kai_operator.Client.Calls.{calls, get, update, delete, deployment_object, dev_task_object}
use kai_operator.Client.Settles.{
  Settles, Settles-pure, Settles-bind, Reaches, Reaches-bind, settles_rules,
}
use kai_operator.Client.Order.{After, is_update, is_gone}
use kai_operator.Host.{System}
use kai_operator.Reconcile.{done, unless_not_found}
use kai_operator.DevTask.Framework.{finalizer_name}
use kai_operator.DevTask.Route.{
  drop_route_finalizer, delete_route, delete_routes, cleanup_http_route,
}
use kai_operator.DevTask.Deployment.{cleanup_service}
use kai_operator.DevTask.Controller.{cleanup_resources, handle_deletion}
use kai_operator.DevTask.State.{deployment_key}
use kai_operator.Builder.{delete_service}

module _ {W : Type 0} (o : System W) where
  module _ {p q : Event → Bool} where
    service-Settles : (t : DevTask) → Settles p q (cleanup_service o t)
    unfolding cleanup_service delete_service
    service-Settles t = search settles_rules depth 9

    drop_route-Settles : (r : HttpRoute) → Settles p q (drop_route_finalizer o r)
    unfolding drop_route_finalizer
    drop_route-Settles r = search settles_rules depth 9

    route-Settles : (r : HttpRoute) → Settles p q (delete_route o r)
    unfolding delete_route
    route-Settles r = search (settles_rules, drop_route-Settles) depth 9

    routes-Settles : (rs : List HttpRoute) → Settles p q (delete_routes o rs)
    unfolding delete_routes
    routes-Settles [] = Settles-pure _
    routes-Settles (r ∷ rs) = Settles-bind _ _ (route-Settles r) (λ _. routes-Settles rs)

    cleanup_route-Settles : (t : DevTask) → Settles p q (cleanup_http_route o t)
    unfolding cleanup_http_route
    cleanup_route-Settles t = search (settles_rules, route-Settles, routes-Settles) depth 9

  -- The first step of `cleanupResources`.
  abbrev delete_deployment : Key → Action W (Unit {0})
  delete_deployment k =
      on (get o.client.deployments k)
        (λ deploy. on (delete o.client.deployments deploy) (λ _. pure tt) (unless_not_found tt))
        (λ _. pure tt)

  deployment-Reaches :
      (w : W) (k : Key) (d : Deployment)
      → (o.client.deployments.get k w).0 ≡ ok d
      → Reaches is_update (is_gone (key_of d.meta)) (delete_deployment k) (run_at w)
  unfolding calls
  deployment-Reaches w k d e = record {
    order =
        ground (arith, eq_iff d.meta.name d.meta.name, eq_iff d.meta.namespace d.meta.namespace);
    made = λ a h.
        ground (arith, eq_iff d.meta.name d.meta.name, eq_iff d.meta.namespace d.meta.namespace);
  }

  cleanup-Reaches :
      (w : W) (t : DevTask) (d : Deployment)
      → (o.client.deployments.get (deployment_key t) w).0 ≡ ok d
      → Reaches is_update (is_gone (key_of d.meta)) (cleanup_resources o t) (run_at w)
  unfolding cleanup_resources
  cleanup-Reaches w t d e =
      Reaches-bind (delete_deployment (deployment_key t))
        (λ _. cleanup_service o t >> cleanup_http_route o t) (run_at w)
        (deployment-Reaches w (deployment_key t) d e)
        (λ _. search (settles_rules, service-Settles, cleanup_route-Settles) depth 9)

  -- In the deletion of a task whose deployment can be read, nothing is updated before that deployment
  -- is gone, neither a route nor the task.
  pub deployment_gone_first :
      (w : W) (t : DevTask) (d : Deployment)
      → (o.client.deployments.get (deployment_key t) w).0 ≡ ok d
      → After is_update (is_gone (key_of d.meta)) (handle_deletion o t (run_at w)).1.log
  unfolding handle_deletion
  deployment_gone_first w t d e =
      elim (Bool-cases (o.client.contains_finalizer t.meta finalizer_name)) [
        | inl h ↦
            rw h
              (Reaches-bind (cleanup_resources o t)
                (λ _.
                  update o.client.dev_tasks
                    (record t { meta = o.client.remove_finalizer t.meta finalizer_name })
                  >> done)
                (run_at w) (cleanup-Reaches w t d e) (λ _. search settles_rules depth 9)).order
        | inr h ↦ rw h tt
      ]
