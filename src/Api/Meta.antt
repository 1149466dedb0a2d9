-- ===== src/Api/Meta.antt =====
-- Names and metadata of an object, as the operator reads and writes them.
use kai_operator.Base.{ℕ, String, Option, List}
use kai_operator.Base.Labels.{Labels}

-- `types.NamespacedName` and `client.ObjectKey`.
pub record Key : Type 0 where
  pub name : String
  pub namespace : String

-- A point in time, in seconds.
abbrev pub Time : Type 0
Time = ℕ

-- `controller` is the owner that `SetControllerReference` records.
pub record ObjectMeta : Type 0 where
  pub name : String
  pub namespace : String
  pub labels : Labels
  pub finalizers : List String
  pub deletion_timestamp : Option Time
  pub controller : Option Key
  pub resource_version : String

abbrev pub key_of : ObjectMeta → Key
key_of m = record { name = m.name; namespace = m.namespace }

-- The metadata of a literal that gives a name, a namespace and labels.
abbrev pub new_meta : String → String → Labels → ObjectMeta
new_meta name namespace labels = record {
  name = name;
  namespace = namespace;
  labels = labels;
  finalizers = List.[];
  deletion_timestamp = Option.none;
  controller = Option.none;
  resource_version = "";
}
