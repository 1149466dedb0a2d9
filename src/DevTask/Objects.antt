-- ===== src/DevTask/Objects.antt =====
-- The names, selectors and ports of the objects that the DevTask controller builds
-- (internal/controller/devtask/deployment_builder.go, route_builder.go and framework_utils.go).
use text.Mathlib.TextPositions.{eq_refl}
use kai_operator.Base.{
  String, ◌≡◌, ◌≢◌, refl, inl, inr, Bool-cases, ◌==◌, true, Option, arith, eq_iff,
}
use kai_operator.Base.Labels.{selects}
use kai_operator.Base.Lists.{All, Any, AllOfSome}
use kai_operator.Base.Text.{ℤ}
use kai_operator.Api.Meta.{key_of}
use kai_operator.Api.Kube.{Container}
use kai_operator.Api.Task.{ResourceSpec}
use kai_operator.Api.DevTask.{DevTask}
use kai_operator.Host.{System}
use kai_operator.Builder.{build_service}
use kai_operator.Builder.Volumes.{AllNamed, mounts_have_volumes}
use kai_operator.DevTask.Framework.{
  get_framework, get_service_name_for_task, get_service_port_for_task, get_deployment_name,
}
use kai_operator.DevTask.Route.{build_http_route}
use kai_operator.DevTask.Deployment.{dev_labels, build_deployment}
use kai_operator.DevTask.State.{deployment_key, pod_labels}

module _ {W : Type 0} (o : System W) where
  -- The deployment of a task in a namespace is created under the name and the namespace by which the
  -- handlers look for it.
  pub deployment_key_lem :
      (t : DevTask) (url : String)
      → t.meta.namespace ≢ ""
      → key_of (build_deployment o t url).meta ≡ deployment_key t
  unfolding build_deployment get_deployment_name
  deployment_key_lem t url h = ground (arith, eq_iff t.meta.namespace "")

  -- The service of a task selects the pods of its deployment.
  pub service_selects_pods :
      (t : DevTask) (url name : String) (port : ℤ)
      → selects
          (build_service name t.meta.namespace port (dev_labels t)).selector
          (build_deployment o t url).template.labels
        ≡ true
  unfolding build_deployment build_service
  service_selects_pods t url name port = simp eq_refl

  -- Of two tasks of a framework in one namespace, the deployment of the second is in the namespace of
  -- the first, and the labels of its pods match the selector by which the first lists pods, and the
  -- selector of the first one's deployment.
  pub pods_shared :
      (a b : DevTask) (url : String)
      → get_framework a ≡ get_framework b
      → a.meta.namespace ≡ b.meta.namespace
      → b.meta.namespace ≢ ""
      → let theirs = build_deployment o b url in
        (theirs.meta.namespace ≡ a.meta.namespace)
        × (selects (pod_labels a) theirs.template.labels ≡ true)
        × (selects (build_deployment o a url).match_labels theirs.template.labels ≡ true)
  unfolding build_deployment
  pods_shared a b url e n h =
      (ground (arith, eq_iff b.meta.namespace ""), rw e (simp eq_refl), rw e (simp eq_refl))

  -- The resources of a task have no effect on its deployment.
  pub resources_ignored :
      (t : DevTask) (url : String) (r : Option ResourceSpec)
      → build_deployment o (record t { spec = record t.spec { resources = r } }) url
        ≡ build_deployment o t url
  unfolding build_deployment
  resources_ignored t url r = refl

  -- Every mount of a container of the deployment names a volume of its pods.
  pub deployment_mounts :
      (t : DevTask) (url : String)
      → let pod = (build_deployment o t url).template in
        All (λ (k : Container). AllNamed pod.volumes k.volume_mounts) pod.containers
  unfolding build_deployment
  deployment_mounts t url = (mounts_have_volumes o.client t.spec.volumes t.spec.data_sources, tt)

  -- A task's route has a rule, and every rule has a backend. Every backend is the task's service, by a
  -- port of it whose target is a port of a container of the task's deployment, and the service selects
  -- the pods of that deployment.
  pub route_reaches_container :
      (t : DevTask) (url : String)
      → let name = get_service_name_for_task t in
        let port = get_service_port_for_task o.getenv t in
        let svc = build_service name t.meta.namespace port (dev_labels t) in
        let pod = (build_deployment o t url).template in
        AllOfSome
          (λ rule.
            AllOfSome
              (λ b.
                (b.name ≡ svc.meta.name)
                × Any
                    (λ p.
                      (p.port ≡ b.port)
                      × Any
                          (λ (k : Container). Any (λ q. q.container_port ≡ p.target_port) k.ports)
                          pod.containers)
                    svc.ports)
              rule.backends)
          (build_http_route t name port).rules
        × (selects svc.selector pod.labels ≡ true)
  unfolding build_deployment build_http_route build_service
  route_reaches_container t url = (
    (
      ((refl, inl (refl, inl (inl refl))), tt),
      elim (Bool-cases (get_framework t == "novnc")) [
        | inl e ↦ rw e (((refl, inl (refl, inl (inl refl))), tt), tt)
        | inr e ↦ rw e tt
      ],
    ),
    service_selects_pods t url (get_service_name_for_task t) (get_service_port_for_task o.getenv t),
  )
