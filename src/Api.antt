-- ===== src/Api.antt =====
-- The API types of api/v1alpha1 and the fields of the Kubernetes types that the operator fills or
-- reads. A pointer is an `Option`, an `int32` an integer, a string map an association list.
pub mod Meta
pub mod Kube
pub mod Task
pub mod DevTask
pub mod InferenceTask
pub mod TrainTask
pub mod FineTuneTask
pub mod EvalTask
