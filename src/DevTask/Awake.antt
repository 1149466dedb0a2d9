-- ===== src/DevTask/Awake.antt =====
-- What a task in progress is left with (Reconcile, handleCreatingPhase and handleRunningPhase of
-- internal/controller/devtask).
use kai_operator.Base.{◌≡◌, ◌⊎◌, inl, inr, true, none, String, List, [], ◌∷◌, subst, sym}
use kai_operator.Base.Lists.{any}
use kai_operator.Api.Kube.{Pod, PodPhase, Deployment}
use kai_operator.Api.Task.{TaskPhase, creating, running}
use kai_operator.Api.DevTask.{DevTask}
use kai_operator.Client.{ok, run_at, Action, ◌>>=◌}
use kai_operator.Client.Wakes.{Wakes, is_stored, Wakes-choose, Wakes-if, wakes_rules}
use kai_operator.Host.{System}
use kai_operator.Reconcile.{Requeue}
use kai_operator.DevTask.State.{fatal_reason}
use kai_operator.DevTask.Framework.{finalizer_name}
use kai_operator.DevTask.Controller.{
  update_status_and_return, finish_creating, handle_creating_phase, recreate_deployment,
  check_phase, check_pods, keep_running, handle_running_phase, handle_phase, add_finalizer,
  reconcile_task, handle_deletion,
}

module _ {W : Type 0} (o : System W) where
  finish-Wakes : (t : DevTask) → Wakes (finish_creating o t)
  unfolding finish_creating
  finish-Wakes t = search wakes_rules depth 12

  status-Wakes :
      (t : DevTask) (p : TaskPhase) (m : String) → Wakes (update_status_and_return o t p m)
  unfolding update_status_and_return
  status-Wakes t p m = search wakes_rules

  creating-Wakes : (t : DevTask) → Wakes (handle_creating_phase o t)
  unfolding handle_creating_phase
  creating-Wakes t = search (wakes_rules, finish-Wakes) depth 16

  recreate-Wakes : (t : DevTask) → Wakes (recreate_deployment o t)
  unfolding recreate_deployment
  recreate-Wakes t = search wakes_rules depth 12

  keep-Wakes : (d : Deployment) (t : DevTask) → Wakes (keep_running o d t)
  unfolding keep_running
  keep-Wakes d t = search wakes_rules depth 16

  phase-Wakes :
      (x : PodPhase) (reason : String) (t : DevTask) (next : DevTask → Action W Requeue)
      → ((t' : DevTask) → Wakes (next t'))
      → Wakes (check_phase o x reason t next)
  unfolding check_phase
  phase-Wakes PodPhase.pending reason t next h = search (wakes_rules, h)
  phase-Wakes PodPhase.running reason t next h = search (wakes_rules, h)
  phase-Wakes PodPhase.succeeded reason t next h = status-Wakes t _ _
  phase-Wakes PodPhase.failed reason t next h = status-Wakes t _ _
  phase-Wakes PodPhase.unknown reason t next h = status-Wakes t _ _
  phase-Wakes (PodPhase.other _) reason t next h = h t

  pods-Wakes :
      (ps : List Pod) (t : DevTask) (rest : DevTask → Action W Requeue)
      → ((t' : DevTask) → Wakes (rest t'))
      → Wakes (check_pods o ps t rest)
  unfolding check_pods
  pods-Wakes [] t rest h = h t
  pods-Wakes (x ∷ xs) t rest h =
      Wakes-choose (fatal_reason x.waiting) _ _ (λ r. status-Wakes t _ _)
        (phase-Wakes x.phase x.reason t _ (λ t'. pods-Wakes xs t' rest h))

  running-Wakes : (t : DevTask) → Wakes (handle_running_phase o t)
  unfolding handle_running_phase
  running-Wakes t = search (wakes_rules, pods-Wakes, keep-Wakes, recreate-Wakes) depth 16

  handle-Wakes :
      (t : DevTask) (x : TaskPhase) → (x ≡ creating) ⊎ (x ≡ running) → Wakes (handle_phase o x t)
  unfolding handle_phase
  handle-Wakes t x (inl e) = subst (λ y. Wakes (handle_phase o y t)) (sym e) (creating-Wakes t)
  handle-Wakes t x (inr e) = subst (λ y. Wakes (handle_phase o y t)) (sym e) (running-Wakes t)

  deletion-Wakes :
      (t : DevTask)
      → o.client.contains_finalizer t.meta finalizer_name ≡ true
      → Wakes (handle_deletion o t)
  unfolding handle_deletion
  deletion-Wakes t h = rw h (search wakes_rules depth 12)

  held-Wakes :
      (t : DevTask)
      → o.client.contains_finalizer t.meta finalizer_name ≡ true
      → (t.status.phase ≡ creating) ⊎ (t.status.phase ≡ running)
      → Wakes (add_finalizer o t >>= λ held. handle_phase o held.status.phase held)
  unfolding add_finalizer
  held-Wakes t h p = rw h (record { at = (handle-Wakes t t.status.phase p).at })

  task-Wakes :
      (t : DevTask)
      → o.client.contains_finalizer t.meta finalizer_name ≡ true
      → (t.status.phase ≡ creating) ⊎ (t.status.phase ≡ running)
      → Wakes (reconcile_task o t)
  unfolding reconcile_task
  task-Wakes t h p = Wakes-if _ _ _ (deletion-Wakes t h) (held-Wakes t h p)

  -- A reconciliation of a task that is created or runs, and has its finalizer, ends without an error
  -- and without asking for another one only if the server took a write of a task or its status,
  -- also where the task is being deleted. The server may answer anything.
  pub dev_not_forgotten :
      (t : DevTask) (w : W)
      → o.client.contains_finalizer t.meta finalizer_name ≡ true
      → (t.status.phase ≡ creating) ⊎ (t.status.phase ≡ running)
      → (reconcile_task o t (run_at w)).0 ≡ ok none
      → any is_stored (reconcile_task o t (run_at w)).1.log ≡ true
  dev_not_forgotten t w h p e = (task-Wakes t h p).at (run_at w) e
