-- ===== src/Builder/Tests.antt =====
-- An instance of the theorem on the objects that the controllers share.
use kai_operator.Base.{List, [], ◌∷◌}
use kai_operator.Api.Task.{VolumeSpec, DataSourceSpec}
use kai_operator.Fake.{server}
use kai_operator.Builder.{build_volumes}
use kai_operator.Builder.Volumes.{AllNamed, mounts_have_volumes}

abbrev volumes : List VolumeSpec
volumes =
    record {
      name = "data";
      mount_path = "/data";
      type = "emptyDir";
      capacity = "1Gi";
      storage_class = "";
    }
    ∷ record {
      name = "cfg";
      mount_path = "";
      type = "configMap";
      capacity = "";
      storage_class = "";
    }
    ∷ []

abbrev sources : List DataSourceSpec
sources = record { type = "s3"; mount_path = "/s3"; uri = "" } ∷ []

mounts_have_volumes_example :
    (let (vols, mounts) = build_volumes server volumes sources in AllNamed vols mounts)
mounts_have_volumes_example = mounts_have_volumes server volumes sources
