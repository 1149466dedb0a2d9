-- ===== src/Memory/Flat.antt =====
-- The types of api/v1alpha1 without pointers, slices and maps: their copies are assignments
-- (api/v1alpha1/zz_generated.deepcopy.go).
use kai_operator.Base.{String, Option}
use kai_operator.Api.Task.{
  EnvVar, VolumeMount, ResourceSpec, VolumeSpec, DataSourceSpec, HealthCheckSpec, AutoScalingSpec,
  Condition,
}
use kai_operator.Api.EvalTask.{ModelEvalConfig}
use kai_operator.Memory.{Ref, Alloc, pure, copy_ref}

-- `HuggingFaceSpec`, which no task type has.
pub record HuggingFaceSpec : Type 0 where
  pub modelid : String
  pub token : String
  pub mirrorurl : String

unfoldable pub auto_scaling_spec_deep_copy_into : AutoScalingSpec → Alloc AutoScalingSpec
auto_scaling_spec_deep_copy_into x = pure x

unfoldable pub auto_scaling_spec_deep_copy :
    Option (Ref AutoScalingSpec) → Alloc (Option (Ref AutoScalingSpec))
unfolding auto_scaling_spec_deep_copy_into
auto_scaling_spec_deep_copy x = copy_ref auto_scaling_spec_deep_copy_into x

unfoldable pub condition_deep_copy_into : Condition → Alloc Condition
condition_deep_copy_into x = pure x

unfoldable pub condition_deep_copy : Option (Ref Condition) → Alloc (Option (Ref Condition))
unfolding condition_deep_copy_into
condition_deep_copy x = copy_ref condition_deep_copy_into x

unfoldable pub data_source_spec_deep_copy_into : DataSourceSpec → Alloc DataSourceSpec
data_source_spec_deep_copy_into x = pure x

unfoldable pub data_source_spec_deep_copy :
    Option (Ref DataSourceSpec) → Alloc (Option (Ref DataSourceSpec))
unfolding data_source_spec_deep_copy_into
data_source_spec_deep_copy x = copy_ref data_source_spec_deep_copy_into x

unfoldable pub env_var_deep_copy_into : EnvVar → Alloc EnvVar
env_var_deep_copy_into x = pure x

unfoldable pub env_var_deep_copy : Option (Ref EnvVar) → Alloc (Option (Ref EnvVar))
unfolding env_var_deep_copy_into
env_var_deep_copy x = copy_ref env_var_deep_copy_into x

unfoldable pub health_check_spec_deep_copy_into : HealthCheckSpec → Alloc HealthCheckSpec
health_check_spec_deep_copy_into x = pure x

unfoldable pub health_check_spec_deep_copy :
    Option (Ref HealthCheckSpec) → Alloc (Option (Ref HealthCheckSpec))
unfolding health_check_spec_deep_copy_into
health_check_spec_deep_copy x = copy_ref health_check_spec_deep_copy_into x

unfoldable pub hugging_face_spec_deep_copy_into : HuggingFaceSpec → Alloc HuggingFaceSpec
hugging_face_spec_deep_copy_into x = pure x

unfoldable pub hugging_face_spec_deep_copy :
    Option (Ref HuggingFaceSpec) → Alloc (Option (Ref HuggingFaceSpec))
unfolding hugging_face_spec_deep_copy_into
hugging_face_spec_deep_copy x = copy_ref hugging_face_spec_deep_copy_into x

unfoldable pub model_eval_config_deep_copy_into : ModelEvalConfig → Alloc ModelEvalConfig
model_eval_config_deep_copy_into x = pure x

unfoldable pub model_eval_config_deep_copy :
    Option (Ref ModelEvalConfig) → Alloc (Option (Ref ModelEvalConfig))
unfolding model_eval_config_deep_copy_into
model_eval_config_deep_copy x = copy_ref model_eval_config_deep_copy_into x

unfoldable pub resource_spec_deep_copy_into : ResourceSpec → Alloc ResourceSpec
resource_spec_deep_copy_into x = pure x

unfoldable pub resource_spec_deep_copy :
    Option (Ref ResourceSpec) → Alloc (Option (Ref ResourceSpec))
unfolding resource_spec_deep_copy_into
resource_spec_deep_copy x = copy_ref resource_spec_deep_copy_into x

unfoldable pub volume_mount_deep_copy_into : VolumeMount → Alloc VolumeMount
volume_mount_deep_copy_into x = pure x

unfoldable pub volume_mount_deep_copy : Option (Ref VolumeMount) → Alloc (Option (Ref VolumeMount))
unfolding volume_mount_deep_copy_into
volume_mount_deep_copy x = copy_ref volume_mount_deep_copy_into x

unfoldable pub volume_spec_deep_copy_into : VolumeSpec → Alloc VolumeSpec
volume_spec_deep_copy_into x = pure x

unfoldable pub volume_spec_deep_copy : Option (Ref VolumeSpec) → Alloc (Option (Ref VolumeSpec))
unfolding volume_spec_deep_copy_into
volume_spec_deep_copy x = copy_ref volume_spec_deep_copy_into x
