-- ===== src/DevTask/Started.antt =====
-- When the DevTask controller writes that a task runs (handleCreatingPhase and handleRunningPhase of
-- internal/controller/devtask/devtask_phases.go).
use kai_operator.Manager.{dev_task_setup}
use kai_operator.Base.{
  ◌≡◌, ◌≢◌, refl, true, false, arith, Bool, String, if◌then◌else◌, sym, subst, ◌∙◌,
}
use kai_operator.Api.Meta.{key_of}
use kai_operator.Api.Task.{
  TaskPhase, unset, pending, creating, running, completed, failed, terminating, other,
}
use kai_operator.Api.DevTask.{DevTask}
use kai_operator.Client.{Event, lift, pure, run_at, fail, on, is_not_found, ◌>>=◌}
use kai_operator.Client.Calls.{
  get, create, update, dev_task_object, deployment_object, dev_task_task,
}
use kai_operator.Client.Kept.{kept_rules, Kept, Kept-pure, Kept-lift_on}
use kai_operator.DevTask.Writes.{Writes}
use kai_operator.Client.Keeps.{Emits, Emits-if, Emits-fail, emits_rules, emits_calls}
use kai_operator.Client.Order.{After}
use kai_operator.Client.Settles.{Settles-bind, Settles-list_pods}
use kai_operator.Client.Ensured.{
  KeepsKey, is_running, Starts-found, is_running_write, has_deployment, ensured-Kept, Starts,
  Starts-if, Starts-Kept, Starts-quiet, Starts-quiet_bind,
}
use kai_operator.Host.{System}
use kai_operator.DevTask.State.{deployment_key}
use kai_operator.DevTask.Steps.{
  Edge, begin, start, pending-Writes, deletion-Writes, deployment_url-Writes,
}
use kai_operator.DevTask.Phases.{finished-Writes}
use kai_operator.DevTask.Settling.{finish-Settles, pods-Settles, keep-Settles}
use kai_operator.DevTask.Objects.{deployment_key_lem}
use kai_operator.DevTask.Framework.{finalizer_name}
use kai_operator.DevTask.Deployment.{build_deployment}
use kai_operator.DevTask.Controller.{
  update_status_and_return, deployment_url, finish_creating, handle_creating_phase,
  recreate_deployment, handle_running_phase, handle_phase, add_finalizer, reconcile_task,
}

module _ {W : Type 0} (o : System W) {q : Event → Bool} where
  failed-Kept :
      (t : DevTask) (message : String)
      → Kept is_running_write q (update_status_and_return o t failed message)
  unfolding update_status_and_return
  failed-Kept t message = search kept_rules

module _ {W : Type 0} (o : System W) where
  -- No write of a deployment that is made again has the phase running.
  recreate-Writes :
      (t : DevTask) → Emits (Writes (λ x. is_running x ≡ false)) (recreate_deployment o t)
  unfolding recreate_deployment
  recreate-Writes t = search (emits_rules, emits_calls, deployment_url-Writes, tt) depth 20

module _ {W : Type 0} (o : System W) (keeps : KeepsKey o.client) (t : DevTask)
    (named : t.meta.namespace ≢ "") where
  abbrev has : Event → Bool
  has = has_deployment (deployment_key t)

  built-Kept :
      (url : String)
      → let deploy = build_deployment o t url in
        Kept is_running_write has (
          on
            (lift (o.client.set_controller_reference t.meta deploy.meta))
            (λ meta.
              on
                (get o.client.deployments (key_of deploy.meta))
                (λ _. finish_creating o t)
                λ e.
                  if is_not_found e
                  then on
                      (create o.client.deployments (record deploy { meta = meta }))
                      (λ _. finish_creating o t)
                      (λ e'. update_status_and_return o t failed e'.text)
                  else fail e)
            (λ e. update_status_and_return o t failed e.text))
  built-Kept url =
      let same = deployment_key_lem o t url named in
      Kept-lift_on _ _ _
        (λ m e.
          subst
            (λ k. Kept is_running_write has (
              on (get o.client.deployments k) (λ _. finish_creating o t)
                λ x.
                  if is_not_found x
                  then on
                      (create o.client.deployments (record (build_deployment o t url) { meta = m }))
                      (λ _. finish_creating o t) (λ y. update_status_and_return o t failed y.text)
                  else fail x))
            (sym same)
            (ensured-Kept o.client.deployments (deployment_key t)
              (record (build_deployment o t url) { meta = m }) (λ _. finish_creating o t)
              (λ y. update_status_and_return o t failed y.text)
              (keeps t.meta (build_deployment o t url).meta m e ∙ same) (λ _. finish-Settles o t)
              (λ y. failed-Kept o t y.text)))
        (λ y. failed-Kept o t y.text)

  module _ {w : W} where
    creating-Starts : Starts is_running_write has w (handle_creating_phase o t)
    unfolding handle_creating_phase
    creating-Starts =
        Starts-quiet_bind dev_task_setup.owns (λ _. ⊥) (λ h. h) (deployment_url o t) _
          (deployment_url-Writes o (λ _. ⊥) t) built-Kept

    running-Starts : Starts is_running_write has w (handle_running_phase o t)
    unfolding handle_running_phase
    running-Starts =
        Starts-found dev_task_setup.owns (λ x. is_running x ≡ false) (λ h. ground arith)
          o.client.deployments (deployment_key t) _ _
          (λ d.
            Settles-bind _ _ (Settles-list_pods o.client _ _)
              (λ pods. pods-Settles o pods t _ (keep-Settles o d)))
          (λ e. Emits-if _ _ _ (recreate-Writes o t) (Emits-fail e))

    handle-Starts :
        (x : TaskPhase) → t.status.phase ≡ x → Starts is_running_write has w (handle_phase o x t)
    unfolding handle_phase
    handle-Starts unset e =
        Starts-quiet dev_task_setup.owns (Edge unset) (λ h. elim h [ ])
          (pending-Writes o unset t begin)
    handle-Starts pending e =
        Starts-quiet dev_task_setup.owns (Edge pending) (λ h. elim h [ ])
          (pending-Writes o pending t start)
    handle-Starts creating e = creating-Starts
    handle-Starts running e = running-Starts
    handle-Starts completed e =
        Starts-quiet dev_task_setup.owns (Edge t.status.phase)
          (subst (λ y. Edge y running → ⊥) (sym e) (λ h. elim h [ ])) (finished-Writes o t)
    handle-Starts failed e =
        Starts-quiet dev_task_setup.owns (Edge t.status.phase)
          (subst (λ y. Edge y running → ⊥) (sym e) (λ h. elim h [ ])) (finished-Writes o t)
    handle-Starts terminating e = Starts-Kept (Kept-pure _)
    handle-Starts (other _) e = Starts-Kept (Kept-pure _)

    held-Starts :
        o.client.contains_finalizer t.meta finalizer_name ≡ true
        → Starts is_running_write has w
            (add_finalizer o t >>= λ held. handle_phase o held.status.phase held)
    unfolding add_finalizer
    held-Starts h =
        subst
          (λ b. Starts is_running_write has w (
            (if b
              then pure t
              else update o.client.dev_tasks
                  (record t { meta = o.client.add_finalizer t.meta finalizer_name }))
            >>= λ held. handle_phase o held.status.phase held))
          (sym h) (record { at = (handle-Starts t.status.phase refl).at })

    task-Starts :
        o.client.contains_finalizer t.meta finalizer_name ≡ true
        → Starts is_running_write has w (reconcile_task o t)
    unfolding reconcile_task
    task-Starts h =
        Starts-if _ _ _
          (Starts-quiet dev_task_setup.owns (λ _. ⊥) (λ h. h) (deletion-Writes o (λ _. ⊥) t))
          (held-Starts h)

  -- Where the controller reference keeps an object's name and namespace: a reconciliation of a task
  -- in a namespace, with its finalizer, writes a status with the phase running only after it found the task's
  -- deployment, or the server took the one that it sent. The other calls may answer anything.
  pub dev_runs_with_deployment :
      (w : W)
      → o.client.contains_finalizer t.meta finalizer_name ≡ true
      → After is_running_write
          (has_deployment (deployment_key t))
          (reconcile_task o t (run_at w)).1.log
  dev_runs_with_deployment w h = (task-Starts h).at
