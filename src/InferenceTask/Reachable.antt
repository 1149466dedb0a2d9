-- ===== src/InferenceTask/Reachable.antt =====
-- The external URL of an InferenceTask (getExternalURL of
-- internal/controller/inference/inference_helpers.go) and what becomes of it in the running phase
-- (handleRunningPhase of inference_phases.go).
use kai_operator.Base.{◌≡◌, String, true, false, List, [], ◌∷◌, arith, refl}
use kai_operator.Base.Lists.{All, any}
use kai_operator.Api.Kube.{Deployment}
use kai_operator.Api.InferenceTask.{InferenceTask}
use kai_operator.Client.{Event, Run, run_at}
use kai_operator.Client.Order.{is_status_update}
use kai_operator.InferenceTask.Writes.{Writes}
use kai_operator.Client.Keeps.{Emits, emits_rules}
use kai_operator.Client.Sure.{Sure, is_err, sure_rules}
use kai_operator.Host.{System}
use kai_operator.DevTask.State.{is_scaled_down}
use kai_operator.InferenceTask.Gateway.{
  get_host_ip, get_service_port, get_listener_port, get_gateway_address_and_port,
}
use kai_operator.InferenceTask.Quiet.{service-Writes, route-Writes, url-Writes}
use kai_operator.InferenceTask.Controller.{keep_running}

module _ {W : Type 0} (o : System W) where
  host_ip-Sure : (name ns : String) → Sure (get_host_ip o name ns)
  unfolding get_host_ip
  host_ip-Sure name ns = search sure_rules depth 9

  service_port-Sure : (ns : String) → Sure (get_service_port o ns)
  unfolding get_service_port
  service_port-Sure ns = search sure_rules depth 9

  listener_port-Sure : (name ns : String) → Sure (get_listener_port o name ns)
  unfolding get_listener_port
  listener_port-Sure name ns = search (sure_rules, service_port-Sure) depth 9

  address-Sure : (name ns : String) → Sure (get_gateway_address_and_port o name ns)
  unfolding get_gateway_address_and_port
  address-Sure name ns = search (sure_rules, host_ip-Sure, listener_port-Sure) depth 9

  -- The address of the gateway is found whatever the calls of the server return: no error of a read
  -- comes back from it, so the branch of `getExternalURL` for an error is never taken.
  pub gateway_address_never_fails :
      (name ns : String) (s : Run W) → is_err (get_gateway_address_and_port o name ns s).0 ≡ false
  gateway_address_never_fails name ns s = (address-Sure name ns).at s

  -- No status is written: each phase that is would be one of none.
  unwritten : (l : List Event) → All (Writes (λ _. true ≡ false)) l → any is_status_update l ≡ false
  unwritten [] h = refl
  unwritten (e ∷ l) h = ground (arith, unwritten l h.1)

  -- In the running phase of a task whose deployment is not scaled down, once its pods were looked at,
  -- no status is written: the URL that is computed there is not stored.
  pub running_url_not_stored :
      (w : W) (t : InferenceTask) (d : Deployment)
      → is_scaled_down d.replicas ≡ false
      → any is_status_update (keep_running o d t (run_at w)).1.log ≡ false
  unfolding keep_running
  running_url_not_stored w t d h = unwritten _ (quiet.at (run_at w) tt)
    where
      quiet : Emits (Writes (λ _. true ≡ false)) (keep_running o d t)
      quiet = rw h (search (emits_rules, service-Writes, route-Writes, url-Writes) depth 12)
