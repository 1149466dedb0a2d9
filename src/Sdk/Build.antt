-- ===== src/Sdk/Build.antt =====
-- The builders of tasks (sdk/devtask_builder.go, inferencetask_builder.go, evaltask_builder.go,
-- finetunetask_builder.go and traintask_builder.go). A builder holds a task that its methods change;
-- here a method gives the changed task. What the five share is in this file.
pub mod Dev
pub mod Inference
pub mod Eval
pub mod FineTune
pub mod Train
pub mod Built
pub mod Merged
mod Tests
use kai_operator.Base.{String, Bool, Option, none, some, List, [], ◌∷◌, ◌++◌}
use kai_operator.Base.Labels.{Labels, insert_all}
use kai_operator.Base.Text.{ℤ, pos}
use kai_operator.Api.Meta.{ObjectMeta}
use kai_operator.Api.Task.{
  RoutingSpec, ResourceSpec, EnvVar, VolumeSpec, DataSourceSpec, BaseToolSpec, no_tool,
  routing_enabled,
}

-- `for _, opt := range opts { opt(&spec) }`.
abbrev pub apply : {A : Type 0} → List (A → A) → A → A
apply [] spec = spec
apply (opt ∷ opts) spec = apply opts (opt spec)

-- `if s != nil { … }` on a section of the task.
abbrev pub if_set : {A : Type 0} → (A → A) → Option A → Option A
if_set f none = none
if_set f (some s) = some (f s)

-- `BaseToolSpec{Image: image, Port: port}`.
abbrev pub tool_with : String → ℤ → BaseToolSpec
tool_with image port = record no_tool { image = image; port = port }

abbrev pub resources_of : String → String → String → ResourceSpec
resources_of cpu memory gpu = record {
  cpu = cpu;
  memory = memory;
  gpu = gpu;
  storage = "";
  instance_type = "";
}

-- What `WithVolume` appends.
unfoldable pub volume_of : String → String → String → VolumeSpec
volume_of name capacity mount_path = record {
  name = name;
  type = "PersistentVolumeClaim";
  capacity = capacity;
  storage_class = "";
  mount_path = mount_path;
}

-- What `WithDataSource` appends.
abbrev pub data_source_of : String → String → DataSourceSpec
data_source_of uri mount_path = record { type = "PVC"; uri = uri; mount_path = mount_path }

abbrev pub add_env : String → String → BaseToolSpec → BaseToolSpec
add_env name value tool = record tool {
  env = tool.env ++ (record { name = name; value = value } ∷ []);
}

abbrev pub routing_of : Bool → List (RoutingSpec → RoutingSpec) → RoutingSpec
routing_of enabled opts = apply opts (routing_enabled enabled)

abbrev pub set_routing : RoutingSpec → BaseToolSpec → BaseToolSpec
set_routing spec tool = record tool { routing = some spec }

-- `WithLabels`: each label is written to the task's.
unfoldable pub add_labels : Labels → ObjectMeta → ObjectMeta
unfolding insert_all
add_labels labels meta = record meta { labels = insert_all labels meta.labels }
