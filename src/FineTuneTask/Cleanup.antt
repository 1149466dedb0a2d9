-- ===== src/FineTuneTask/Cleanup.antt =====
-- The job of a FineTuneTask, its web UI and the end of both
-- (internal/controller/finetunetask/finetunetask_controller.go).
use text.Mathlib.TextPositions.{eq_refl}
use kai_operator.Base.{
  ◌≡◌, ◌≢◌, refl, String, true, Option, some, [], ◌∷◌, arith, eq_iff, Bool, Bool-cases, inl, inr,
}
use kai_operator.Base.Labels.{selects}
use kai_operator.Api.Meta.{Key, key_of}
use kai_operator.Api.Kube.{Job}
use kai_operator.Api.Task.{ResourceSpec}
use kai_operator.Api.FineTuneTask.{FineTuneTask, LoraSpec}
use kai_operator.Client.{ok, Client, run_at, Event, Resource, ◌>>◌}
use kai_operator.Client.Calls.{
  calls, Object, job_object, service_object, deployment_object, http_route_object,
}
use kai_operator.Client.Settles.{Settles, Reaches, Reaches-bind, settles_rules}
use kai_operator.Client.Order.{After, is_update, is_gone}
use kai_operator.FineTuneTask.Job.{
  framework_or_default, build_train_args, job_resources, job_labels,
}
use kai_operator.FineTuneTask.WebUi.{ui_service, ui_deployment}
use kai_operator.FineTuneTask.Controller.{
  finalizer_name, object_key, deployment_key, handle_deletion, delete_if_there, cleanup_resources,
  drop_finalizer,
}

-- The service of the web UI selects the pods of its deployment, and those of the training job as well.
pub web_ui_selects_job :
    (framework : String) (t : FineTuneTask)
    → (selects (ui_service framework t).selector (ui_deployment framework t).template.labels ≡ true)
      × (selects (ui_service framework t).selector (job_labels framework t) ≡ true)
unfolding ui_service ui_deployment job_labels
web_ui_selects_job framework t = (simp eq_refl, simp eq_refl)

-- The settings of a LoRA task have no effect on the arguments of its training.
pub lora_ignored :
    (t : FineTuneTask) (l : Option LoraSpec)
    → build_train_args (record t { spec = record t.spec { lora = l } }) ≡ build_train_args t
unfolding build_train_args
lora_ignored t l = refl

module _ {W : Type 0} (c : Client W) where
  -- Of a CPU and a GPU that are both asked for, only the GPU is requested.
  pub cpu_dropped :
      (r : ResourceSpec)
      → r.cpu ≢ ""
      → r.gpu ≢ ""
      → c.is_quantity r.cpu ≡ true
      → c.is_quantity r.gpu ≡ true
      → job_resources c (some r)
        ≡ ok (record { requests = ("nvidia.com/gpu", record { text = r.gpu }) ∷ []; limits = [] })
  unfolding job_resources
  cpu_dropped r h k hq kq = ground (arith, eq_iff r.cpu "", eq_iff r.gpu "")

  module _ {p q : Event → Bool} where
    delete-Settles :
        {A : Type 0} ⦃o : Object A⦄ (r : Resource W A) (k : Key)
        → Settles p q (delete_if_there c r k)
    unfolding delete_if_there
    delete-Settles r k = search settles_rules depth 9

    drop-Settles : (t : FineTuneTask) → Settles p q (drop_finalizer c t)
    unfolding drop_finalizer
    drop-Settles t = search settles_rules depth 9

  job-Reaches :
      (w : W) (k : Key) (job : Job)
      → (c.jobs.get k w).0 ≡ ok job
      → Reaches is_update (is_gone (key_of job.meta)) (delete_if_there c c.jobs k) (run_at w)
  unfolding delete_if_there calls
  job-Reaches w k job e = record {
    order =
        ground
          (arith, eq_iff job.meta.name job.meta.name, eq_iff job.meta.namespace job.meta.namespace);
    made = λ a h.
        ground
          (arith, eq_iff job.meta.name job.meta.name, eq_iff job.meta.namespace job.meta.namespace);
  }

  cleanup-Reaches :
      (w : W) (t : FineTuneTask) (job : Job)
      → (c.jobs.get (object_key (framework_or_default t) t) w).0 ≡ ok job
      → Reaches is_update (is_gone (key_of job.meta)) (cleanup_resources c t) (run_at w)
  unfolding cleanup_resources
  cleanup-Reaches w t job e =
      let f = framework_or_default t in
      Reaches-bind (delete_if_there c c.jobs (object_key f t))
        (λ _.
          delete_if_there c c.services (object_key f t)
          >> (delete_if_there c c.deployments (deployment_key f t)
              >> delete_if_there c c.http_routes (object_key f t)))
        (run_at w) (job-Reaches w (object_key f t) job e)
        (λ _. search (settles_rules, delete-Settles) depth 9)

  -- The finalizer of a deleted task whose job can be read goes only after that job does.
  pub tuning_job_gone_first :
      (w : W) (t : FineTuneTask) (job : Job)
      → (c.jobs.get (object_key (framework_or_default t) t) w).0 ≡ ok job
      → After is_update (is_gone (key_of job.meta)) (handle_deletion c t (run_at w)).1.log
  unfolding handle_deletion
  tuning_job_gone_first w t job e = elim (Bool-cases (c.contains_finalizer t.meta finalizer_name)) [
    | inl h ↦
        rw h
          (Reaches-bind (cleanup_resources c t) (λ _. drop_finalizer c t) (run_at w)
            (cleanup-Reaches w t job e) (λ _. drop-Settles t)).order
    | inr h ↦ rw h tt
  ]
