-- ===== src/InferenceTask/Objects.antt =====
-- The objects that the InferenceTask controller builds (internal/controller/inference/utils.go and
-- inference_helpers.go).
use text.Mathlib.TextPositions.{eq_refl}
use kai_operator.Base.{
  String, ◌≡◌, ◌≢◌, ◌↔◌, refl, true, List, [], ◌∷◌, arith, eq_iff, sym, subst, Bool-cases, inl, inr,
  ◌==◌,
}
use kai_operator.Base.Labels.{selects}
use kai_operator.Base.Lists.{All, Any, AllOfSome}
use kai_operator.Base.Text.{ℤ, pos}
use kai_operator.Api.Meta.{key_of}
use kai_operator.Api.Kube.{Container, Deployment, Mount, ResourceRequirements}
use kai_operator.Api.Task.{VolumeSpec}
use kai_operator.Api.InferenceTask.{InferenceTask}
use kai_operator.Client.{Result, ok, err, panic}
use kai_operator.Client.Fallible
use kai_operator.Host.{System}
use kai_operator.Builder.{build_resources}
use kai_operator.InferenceTask.Model.{get_inference_port, get_model_path}
use kai_operator.InferenceTask.Deployment.{
  deployment_with, build_inference_deployment, inference_labels, build_init_containers, spec_mounts,
}
use kai_operator.InferenceTask.Service.{get_service_name, build_service, service_labels}
use kai_operator.InferenceTask.Route.{build_http_route}
use kai_operator.InferenceTask.State.{pod_labels, deployment_key}

-- A container of the deployment has the port `port`.
abbrev pub ServesAt : ℤ → Deployment → Type 0
ServesAt port d =
    Any (λ (k : Container). Any (λ q. q.container_port ≡ port) k.ports) d.template.containers

-- No mount of a list is called `models`.
abbrev pub NoModels : List Mount → Type 0
NoModels ms = All (λ m. m.name ≢ "models") ms

spec_mounts-NoModels :
    (vs : List VolumeSpec) → All (λ v. v.name ≢ "models") vs → NoModels (spec_mounts vs)
unfolding spec_mounts
spec_mounts-NoModels [] h = tt
spec_mounts-NoModels (v ∷ vs) h = (h.0, spec_mounts-NoModels vs h.1)

-- Every container of a list mounts `models` at /models and nothing else.
abbrev pub MountsModels : List Container → Type 0
MountsModels ks =
    All
      (λ (k : Container). k.volume_mounts ≡ record { name = "models"; mount_path = "/models" } ∷ [])
      ks

build_init_containers-MountsModels :
    (t : InferenceTask) (id : String) → MountsModels (build_init_containers t id)
unfolding build_init_containers
build_init_containers-MountsModels t id = elim (Bool-cases (id == "")) [
  | inl e ↦ rw e tt
  | inr e ↦ rw e (refl, tt)
]

module _ {W : Type 0} (o : System W) where
  -- A deployment that was built is the one of the task, for some resources.
  built :
      (P : Deployment → Type 0) (t : InferenceTask) (d : Deployment)
      → build_inference_deployment o t ≡ ok d
      → ((r : ResourceRequirements) → P (deployment_with o.getenv t r))
      → P d
  unfolding build_inference_deployment
  built P t d e h = step (build_resources o.client t.spec.resources) e
    where
      step :
          (r : Result ResourceRequirements)
          → Fallible.◌>>=◌ r (λ x. ok (deployment_with o.getenv t x)) ≡ ok d
          → P d
      step (ok r) e = subst P (ground arith) (h r)
      step (err x) e = ground arith
      step (panic x) e = ground arith

  -- A deployment's labels, selector, ports and mounts are those that its task gives.
  built_pod :
      (t : InferenceTask) (d : Deployment)
      → build_inference_deployment o t ≡ ok d
      → (d.template.labels ≡ inference_labels t)
        × (d.match_labels ≡ ("kai.io/inference", t.meta.name) ∷ [])
  built_pod t d e =
      built
        (λ x.
          (x.template.labels ≡ inference_labels t)
          × (x.match_labels ≡ ("kai.io/inference", t.meta.name) ∷ []))
        t d e (λ r. unfold deployment_with in (refl, refl))

  -- The pods that a task looks at, and those that the selector of its deployment takes, are the pods
  -- of the task of the same name: the labels of the pods of another are not selected.
  pub pods_own :
      (a b : InferenceTask) (d d' : Deployment)
      → build_inference_deployment o a ≡ ok d
      → build_inference_deployment o b ≡ ok d'
      → ((selects (pod_labels a) d'.template.labels ≡ true) ↔ (a.meta.name ≡ b.meta.name))
        × ((selects d.match_labels d'.template.labels ≡ true) ↔ (a.meta.name ≡ b.meta.name))
  unfolding inference_labels
  pods_own a b d d' e f =
      let (labels, _) = built_pod b d' f in
      let (_, selector) = built_pod a d e in
      let named = eq_iff b.meta.name a.meta.name in
      rw (labels, selector)
        (
          (λ h. sym (named.0 (ground arith)), λ h. ground arith),
          (λ h. sym (named.0 (ground arith)), λ h. ground arith),
        )

  -- A deployment that was built has the name and the namespace of the task's.
  pub built_key :
      (t : InferenceTask) (d : Deployment)
      → build_inference_deployment o t ≡ ok d
      → key_of d.meta ≡ deployment_key t
  built_key t d e =
      built (λ d. key_of d.meta ≡ deployment_key t) t d e (λ r. unfold deployment_with in refl)

  built_port :
      (t : InferenceTask) (d : Deployment)
      → build_inference_deployment o t ≡ ok d
      → ServesAt (get_inference_port o.getenv t) d
  built_port t d e =
      built (ServesAt (get_inference_port o.getenv t)) t d e
        (λ r. unfold deployment_with in inl (inl refl))

  -- A task's route has a rule, and every rule has a backend. Every backend is the task's service, by a
  -- port of it that is passed on unchanged and is a port of a container of the task's deployment, and
  -- the service selects the pods of that deployment.
  pub inference_route_reaches :
      (t : InferenceTask) (d : Deployment)
      → build_inference_deployment o t ≡ ok d
      → let port = get_inference_port o.getenv t in
        let svc = build_service (get_service_name t) t.meta.namespace port (service_labels t) in
        AllOfSome
          (λ rule.
            AllOfSome
              (λ b.
                (b.name ≡ svc.meta.name)
                × Any
                    (λ p. (p.port ≡ b.port) × (p.target_port ≡ pos 0) × ServesAt p.port d)
                    svc.ports)
              rule.backends)
          (build_http_route t (get_service_name t) port).rules
        × (selects svc.selector d.template.labels ≡ true)
  unfolding build_http_route build_service inference_labels service_labels
  inference_route_reaches t d e = (
    (((refl, inl (refl, refl, built_port t d e)), tt), tt),
    rw (built_pod t d e).0 (simp eq_refl),
  )

  -- The model is fetched into a volume that the engine does not see: unless the task has a volume of
  -- that name, every init container mounts `models` at /models, and no other container mounts it.
  pub model_not_mounted :
      (t : InferenceTask) (d : Deployment)
      → build_inference_deployment o t ≡ ok d
      → All (λ v. v.name ≢ "models") t.spec.volumes
      → MountsModels d.template.init_containers
        × All (λ (k : Container). NoModels k.volume_mounts) d.template.containers
  model_not_mounted t d e h =
      built
        (λ x.
          MountsModels x.template.init_containers
          × All (λ (k : Container). NoModels k.volume_mounts) x.template.containers)
        t d e
        (λ r.
          unfold deployment_with in
          (
            build_init_containers-MountsModels t (get_model_path t).1,
            (spec_mounts-NoModels t.spec.volumes h, tt),
          ))
