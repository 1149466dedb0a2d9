-- ===== src/Builder.antt =====
-- The objects that the controllers share (internal/controller/builder/builder.go).
pub mod Selectors
pub mod Volumes
pub mod Resources
pub mod Services
mod Tests
use kai_operator.Base.{String, ◌<>◌, Option, none, some, List, [], ◌∷◌, ◌++◌, ◌==◌, if◌then◌else◌}
use kai_operator.Base.Labels.{Labels, insert, insert_all}
use kai_operator.Base.Text.{ℤ, pos, is_int}
use kai_operator.Api.Meta.{Key, ObjectMeta, new_meta}
use kai_operator.Api.Kube.{
  Quantity, Quantities, ResourceRequirements, no_resources, Env, Mount, ContainerPort, Container,
  VolumeSource, unset, empty_dir, persistent_volume_claim, config_map, secret, Volume, Deployment,
  Service,
}
use kai_operator.Api.Task.{ResourceSpec, VolumeSpec, DataSourceSpec}
use kai_operator.Client.{Error, is_not_found, Result, ok, Client, Action, pure, fail, lift, on}
use kai_operator.Client
use kai_operator.Client.Fallible
use kai_operator.Client.Calls.{get, create, delete, service_object}
use kai_operator.Reconcile.{must_parse}

abbrev pub common_labels : Labels
common_labels =
    ("app.kubernetes.io/name", "kai") ∷ ("app.kubernetes.io/managed-by", "kai-operator") ∷ []

-- The labels that `BuildDeployment` leaves in the map.
unfoldable pub deployment_labels : String → String → Labels → Labels
unfolding insert insert_all
deployment_labels framework task_type labels =
    insert "kai.io/task-type" task_type
      (insert "framework" framework (insert_all common_labels labels))

unfoldable pub build_deployment :
    String → String → String → String → String → ℤ → Container → Labels → Deployment
unfolding deployment_labels
build_deployment name namespace framework task_type image replicas container labels = record {
  meta =
      new_meta
        (if namespace == ""
          then name <> ("-" <> framework)
          else name <> ("-" <> (framework <> ("-" <> namespace))))
        namespace (deployment_labels framework task_type labels);
  replicas = some replicas;
  match_labels = ("kai.io/task-type", task_type) ∷ ("framework", framework) ∷ [];
  template = record {
    labels = deployment_labels framework task_type labels;
    restart_policy = "Always";
    init_containers = [];
    containers = container ∷ [];
    volumes = [];
  };
}

-- A text that is not empty, or a default.
abbrev non_empty_or : String → String → String
non_empty_or text default = if text == "" then default else text

module _ {W : Type 0} (c : Client W) where
  -- `resource.ParseQuantity` with its error dropped: the zero quantity on a bad text.
  abbrev parse_or_zero : String → Quantity
  parse_or_zero text = record { text = if c.is_quantity text then text else "0" }

  -- The lists for the three texts, which are not empty.
  unfoldable pub resource_list : String → String → String → Result Quantities
  resource_list cpu memory gpu = Fallible.◌>>=◌ (must_parse c cpu) λ cpu_qty.
      Fallible.◌>>=◌ (must_parse c memory) λ memory_qty. ok (
        ("cpu", cpu_qty)
        ∷ ("memory", memory_qty)
        ∷ (if gpu == "0" then [] else ("nvidia.com/gpu", parse_or_zero gpu) ∷ []))

  abbrev both : Quantities → Result ResourceRequirements
  both l = ok (record { requests = l; limits = l })

  unfoldable pub build_resources : Option ResourceSpec → Result ResourceRequirements
  unfolding resource_list
  build_resources none = Fallible.◌>>=◌ (resource_list "500m" "512Mi" "0") both
  build_resources (some r) =
      Fallible.◌>>=◌
        (resource_list (non_empty_or r.cpu "500m") (non_empty_or r.memory "512Mi")
          (non_empty_or r.gpu "0"))
        both

  unfoldable pub build_container :
      String → ℤ → List String → List String → List Env → Option ResourceSpec → Result Container
  unfolding build_resources
  build_container image port cmd args env resources =
      Fallible.◌>>=◌ (elim resources [ none ↦ ok no_resources | some r ↦ build_resources (some r) ])
        λ req. ok (record {
          name = "main";
          image = image;
          command = cmd;
          args = args;
          env = env;
          ports =
              record { name = ""; container_port = if is_int 0 port then pos 8080 else port } ∷ [];
          resources = req;
          volume_mounts = [];
        })

  -- The source of a volume by the text of its type; any other text leaves it unset.
  unfoldable pub volume_source : VolumeSpec → VolumeSource
  volume_source v =
      if v.type == "emptyDir"
      then empty_dir (
          if v.capacity == ""
          then none
          else if c.is_quantity v.capacity
          then some (record { text = v.capacity })
          else none)
      else if v.type == "persistentVolumeClaim"
      then persistent_volume_claim v.name
      else if v.type == "configMap"
      then config_map v.name
      else if v.type == "secret"
      then secret v.name
      else unset

  -- The loop over the volumes.
  unfoldable pub spec_volumes : List VolumeSpec → List Volume × List Mount
  unfolding volume_source
  spec_volumes [] = ([], [])
  spec_volumes (v ∷ rest) =
      let (vols, mounts) = spec_volumes rest in
      (
        record { name = v.name; source = volume_source v } ∷ vols,
        if v.mount_path == ""
            then mounts
            else record { name = v.name; mount_path = v.mount_path } ∷ mounts,
      )

  -- The loop over the data sources.
  unfoldable pub data_volumes : List DataSourceSpec → List Volume × List Mount
  data_volumes [] = ([], [])
  data_volumes (d ∷ rest) =
      let (vols, mounts) = data_volumes rest in
      (
        record { name = "datasource-" <> d.type; source = empty_dir none } ∷ vols,
        record { name = "datasource-" <> d.type; mount_path = d.mount_path } ∷ mounts,
      )

  unfoldable pub build_volumes : List VolumeSpec → List DataSourceSpec → List Volume × List Mount
  unfolding spec_volumes data_volumes
  build_volumes volumes data_sources =
      let (vols, mounts) = spec_volumes volumes in
      let (data_vols, data_mounts) = data_volumes data_sources in
      (vols ++ data_vols, mounts ++ data_mounts)

unfoldable pub build_service : String → String → ℤ → Labels → Service
unfolding insert insert_all
build_service name namespace port labels =
    let all = insert_all common_labels labels in
    record {
      meta = new_meta name namespace all;
      selector = all;
      ports =
          record { name = ""; port = port; target_port = port; node_port = pos 0; protocol = "" }
          ∷ [];
      service_type = "";
      ingress = [];
    }

module _ {W : Type 0} (c : Client W) where
  unfoldable pub create_service : ObjectMeta → Service → Action W (Unit {0})
  create_service owner svc =
      Client.◌>>=◌ (lift (c.set_controller_reference owner svc.meta))
        λ meta. Client.◌>>=◌ (create c.services (record svc { meta = meta })) λ _. pure tt

  unfoldable pub ensure_service : ObjectMeta → String → String → ℤ → Labels → Action W (Unit {0})
  unfolding create_service
  ensure_service owner name namespace port labels =
      on (get c.services (record { name = name; namespace = namespace })) (λ _. pure tt)
        λ e.
          if is_not_found e
          then create_service owner (build_service name namespace port labels)
          else fail e

  -- A read that fails is taken for an absent service; the error of the deletion is returned.
  unfoldable pub delete_service : String → String → Action W (Unit {0})
  delete_service name namespace =
      on (get c.services (record { name = name; namespace = namespace }))
        (λ existing. delete c.services existing) (λ _. pure tt)
