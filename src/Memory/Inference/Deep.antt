-- ===== src/Memory/Inference/Deep.antt =====
-- The copies of the InferenceTask types are deep
-- (api/v1alpha1/zz_generated.deepcopy.go).
use kai_operator.Api.Task as ValueTask
use kai_operator.Api.InferenceTask as ValueInferenceTask
use kai_operator.Base.{refl, String, Option, List}
use kai_operator.Base.Text.{ℤ}
use kai_operator.Api.Meta.{ObjectMeta}
use kai_operator.Api.Task.{
  TaskPhase, EnvVar, VolumeMount, ResourceSpec, VolumeSpec, DataSourceSpec, HealthCheckSpec,
  AutoScalingSpec, Condition,
}
use kai_operator.Memory.{
  Ref, Copier, pointer, slice, each, flat, both, Layout, struct, Library, ref_value,
}
use kai_operator.Memory.Rules.{
  IsDeep, LibraryIsDeep, struct-IsDeep, flat-IsDeep, pointer-IsDeep, both-IsDeep, each-IsDeep,
  slice-IsDeep,
}
use kai_operator.Memory.Inference.{
  VllmSpec, vllm_spec_deep_copy_into, LlamaCppSpec, llama_cpp_spec_deep_copy_into, TgiSpec,
  tgi_spec_deep_copy_into, InferenceTaskSpec, inference_task_spec_deep_copy_into, InferenceTask,
  inference_task_deep_copy_into, InferenceTaskList, inference_task_list_deep_copy_into,
}
use kai_operator.Memory.Shared.{BaseToolSpec, TaskStatus}
use kai_operator.Memory.Shared.Deep.{
  base_tool_spec, base_tool_spec-IsDeep, task_status, task_status-IsDeep,
}

abbrev vllm_spec_layout :
    Layout VllmSpec
      (BaseToolSpec × (Option (Ref HealthCheckSpec) × Option (Ref AutoScalingSpec)))
      ValueInferenceTask.VllmSpec
      (ValueTask.BaseToolSpec × (Option HealthCheckSpec × Option AutoScalingSpec))
vllm_spec_layout = record {
  parts = both base_tool_spec (both (pointer flat) (pointer flat));
  fields = λ x. (x.tool, (x.health_check, x.auto_scaling));
  put = λ x f. record x { tool = f.0; health_check = f.1.0; auto_scaling = f.1.1 };
  build = λ x v. record {
    tool = v.0;
    model_path = x.model_path;
    model_name = x.model_name;
    tensor_parallel_size = x.tensor_parallel_size;
    gpu_memory_utilization = x.gpu_memory_utilization;
    max_model_len = x.max_model_len;
    port = x.port;
    health_check = v.1.0;
    auto_scaling = v.1.1;
  };
}

abbrev pub vllm_spec : Copier VllmSpec ValueInferenceTask.VllmSpec
vllm_spec = record (struct vllm_spec_layout) { copy = vllm_spec_deep_copy_into }

pub vllm_spec-IsDeep : IsDeep vllm_spec
unfolding vllm_spec_deep_copy_into
vllm_spec-IsDeep =
    struct-IsDeep vllm_spec_layout (λ a t. refl) (λ a t x. refl)
      (both-IsDeep base_tool_spec-IsDeep
        (both-IsDeep (pointer-IsDeep flat-IsDeep) (pointer-IsDeep flat-IsDeep)))

abbrev llama_cpp_spec_layout :
    Layout LlamaCppSpec
      (BaseToolSpec × (Option (Ref HealthCheckSpec) × Option (Ref AutoScalingSpec)))
      ValueInferenceTask.LlamaCppSpec
      (ValueTask.BaseToolSpec × (Option HealthCheckSpec × Option AutoScalingSpec))
llama_cpp_spec_layout = record {
  parts = both base_tool_spec (both (pointer flat) (pointer flat));
  fields = λ x. (x.tool, (x.health_check, x.auto_scaling));
  put = λ x f. record x { tool = f.0; health_check = f.1.0; auto_scaling = f.1.1 };
  build = λ x v. record {
    tool = v.0;
    model_path = x.model_path;
    context_size = x.context_size;
    threads = x.threads;
    gpu_layers = x.gpu_layers;
    port = x.port;
    n = ref_value (λ i. i) x.n;
    health_check = v.1.0;
    auto_scaling = v.1.1;
  };
}

abbrev pub llama_cpp_spec : Copier LlamaCppSpec ValueInferenceTask.LlamaCppSpec
llama_cpp_spec = record (struct llama_cpp_spec_layout) { copy = llama_cpp_spec_deep_copy_into }

pub llama_cpp_spec-IsDeep : IsDeep llama_cpp_spec
unfolding llama_cpp_spec_deep_copy_into
llama_cpp_spec-IsDeep =
    struct-IsDeep llama_cpp_spec_layout (λ a t. refl) (λ a t x. refl)
      (both-IsDeep base_tool_spec-IsDeep
        (both-IsDeep (pointer-IsDeep flat-IsDeep) (pointer-IsDeep flat-IsDeep)))

abbrev tgi_spec_layout :
    Layout TgiSpec
      (BaseToolSpec × (Option (Ref HealthCheckSpec) × Option (Ref AutoScalingSpec)))
      ValueInferenceTask.TgiSpec
      (ValueTask.BaseToolSpec × (Option HealthCheckSpec × Option AutoScalingSpec))
tgi_spec_layout = record {
  parts = both base_tool_spec (both (pointer flat) (pointer flat));
  fields = λ x. (x.tool, (x.health_check, x.auto_scaling));
  put = λ x f. record x { tool = f.0; health_check = f.1.0; auto_scaling = f.1.1 };
  build = λ x v. record {
    tool = v.0;
    model_path = x.model_path;
    model_id = x.model_id;
    max_batch_size = x.max_batch_size;
    max_input_len = x.max_input_len;
    max_total_tokens = x.max_total_tokens;
    port = x.port;
    health_check = v.1.0;
    auto_scaling = v.1.1;
  };
}

abbrev pub tgi_spec : Copier TgiSpec ValueInferenceTask.TgiSpec
tgi_spec = record (struct tgi_spec_layout) { copy = tgi_spec_deep_copy_into }

pub tgi_spec-IsDeep : IsDeep tgi_spec
unfolding tgi_spec_deep_copy_into
tgi_spec-IsDeep =
    struct-IsDeep tgi_spec_layout (λ a t. refl) (λ a t x. refl)
      (both-IsDeep base_tool_spec-IsDeep
        (both-IsDeep (pointer-IsDeep flat-IsDeep) (pointer-IsDeep flat-IsDeep)))

abbrev inference_task_spec_layout :
    Layout InferenceTaskSpec
      (Option (Ref ResourceSpec)
        × (Option (Ref (List VolumeSpec))
            × (Option (Ref (List DataSourceSpec))
                × (Option (Ref (List String))
                    × (Option (Ref ℤ)
                        × (Option (Ref VllmSpec)
                            × (Option (Ref LlamaCppSpec) × Option (Ref TgiSpec))))))))
      ValueInferenceTask.InferenceTaskSpec
      (Option ResourceSpec
        × (List VolumeSpec
            × (List DataSourceSpec
                × (List String
                    × (Option ℤ
                        × (Option ValueInferenceTask.VllmSpec
                            × (Option ValueInferenceTask.LlamaCppSpec
                                × Option ValueInferenceTask.TgiSpec)))))))
inference_task_spec_layout = record {
  parts = both (pointer flat) (
      both (slice flat) (
        both (slice flat) (
          both (slice flat) (
            both (pointer flat)
              (both (pointer vllm_spec) (both (pointer llama_cpp_spec) (pointer tgi_spec)))))));
  fields = λ x. (
    x.resources,
    (x.volumes, (x.data_sources, (x.run_after, (x.ttl_seconds, (x.vllm, (x.llama_cpp, x.tgi)))))),
  );
  put = λ x f. record x {
    resources = f.0;
    volumes = f.1.0;
    data_sources = f.1.1.0;
    run_after = f.1.1.1.0;
    ttl_seconds = f.1.1.1.1.0;
    vllm = f.1.1.1.1.1.0;
    llama_cpp = f.1.1.1.1.1.1.0;
    tgi = f.1.1.1.1.1.1.1;
  };
  build = λ x v. record {
    resources = v.0;
    volumes = v.1.0;
    data_sources = v.1.1.0;
    run_after = v.1.1.1.0;
    ttl_seconds = v.1.1.1.1.0;
    model = x.model;
    engine = x.engine;
    hf_mirror = x.hf_mirror;
    vllm = v.1.1.1.1.1.0;
    llama_cpp = v.1.1.1.1.1.1.0;
    tgi = v.1.1.1.1.1.1.1;
  };
}

abbrev pub inference_task_spec : Copier InferenceTaskSpec ValueInferenceTask.InferenceTaskSpec
inference_task_spec = record (struct inference_task_spec_layout) {
  copy = inference_task_spec_deep_copy_into;
}

pub inference_task_spec-IsDeep : IsDeep inference_task_spec
unfolding inference_task_spec_deep_copy_into
inference_task_spec-IsDeep =
    struct-IsDeep inference_task_spec_layout (λ a t. refl) (λ a t x. refl)
      (both-IsDeep (pointer-IsDeep flat-IsDeep) (
        both-IsDeep (slice-IsDeep flat-IsDeep) (
          both-IsDeep (slice-IsDeep flat-IsDeep) (
            both-IsDeep (slice-IsDeep flat-IsDeep) (
              both-IsDeep (pointer-IsDeep flat-IsDeep) (
                both-IsDeep (pointer-IsDeep vllm_spec-IsDeep) (
                  both-IsDeep (pointer-IsDeep llama_cpp_spec-IsDeep)
                    (pointer-IsDeep tgi_spec-IsDeep))))))))

module _ {M L T : Type 0} (l : Library M L T) where
  abbrev inference_task_layout :
      Layout
        (InferenceTask M T)
        (M × (InferenceTaskSpec × TaskStatus T))
        ValueInferenceTask.InferenceTask
        (ObjectMeta × (ValueInferenceTask.InferenceTaskSpec × ValueTask.TaskStatus))
  inference_task_layout = record {
    parts = both l.object_meta (both inference_task_spec (task_status l));
    fields = λ x. (x.meta, (x.spec, x.status));
    put = λ x f. record x { meta = f.0; spec = f.1.0; status = f.1.1 };
    build = λ x v. record { meta = v.0; spec = v.1.0; status = v.1.1 };
  }

  abbrev pub inference_task : Copier (InferenceTask M T) ValueInferenceTask.InferenceTask
  inference_task = record (struct inference_task_layout) { copy = inference_task_deep_copy_into l }

  pub inference_task-IsDeep : (h : LibraryIsDeep l) → IsDeep inference_task
  unfolding inference_task_deep_copy_into
  inference_task-IsDeep h =
      struct-IsDeep inference_task_layout (λ a t. refl) (λ a t x. refl)
        (both-IsDeep h.object_meta
          (both-IsDeep inference_task_spec-IsDeep (task_status-IsDeep l h)))

  abbrev inference_task_list_layout :
      Layout
        (InferenceTaskList M L T)
        (L × Option (Ref (List (InferenceTask M T))))
        (List ValueInferenceTask.InferenceTask)
        (Unit {0} × List ValueInferenceTask.InferenceTask)
  inference_task_list_layout = record {
    parts = both l.list_meta (slice (each (inference_task)));
    fields = λ x. (x.meta, x.items);
    put = λ x f. record x { meta = f.0; items = f.1 };
    build = λ x v. v.1;
  }

  abbrev pub inference_task_list :
      Copier (InferenceTaskList M L T) (List ValueInferenceTask.InferenceTask)
  inference_task_list = record (struct inference_task_list_layout) {
    copy = inference_task_list_deep_copy_into l;
  }

  pub inference_task_list-IsDeep : (h : LibraryIsDeep l) → IsDeep inference_task_list
  unfolding inference_task_list_deep_copy_into
  inference_task_list-IsDeep h =
      struct-IsDeep inference_task_list_layout (λ a t. refl) (λ a t x. refl)
        (both-IsDeep h.list_meta (slice-IsDeep (each-IsDeep (inference_task-IsDeep h))))
