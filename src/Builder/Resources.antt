-- ===== src/Builder/Resources.antt =====
-- The resources of a container (internal/controller/builder/builder.go).
use kai_operator.Base.{
  String, ◌≡◌, refl, true, false, Option, none, some, [], ◌∷◌, arith, if◌then◌else◌, ◌==◌, ◌&&◌,
}
use kai_operator.Api.Kube.{Quantities, ResourceRequirements}
use kai_operator.Api.Task.{ResourceSpec}
use kai_operator.Client.{ok, panic, Client}
use kai_operator.Builder.{non_empty_or, parse_or_zero, build_resources}

-- The texts of a spec that have to be quantities, with their defaults.
abbrev cpu_of : Option ResourceSpec → String
cpu_of none = "500m"
cpu_of (some r) = non_empty_or r.cpu "500m"

abbrev memory_of : Option ResourceSpec → String
memory_of none = "512Mi"
memory_of (some r) = non_empty_or r.memory "512Mi"

abbrev gpu_of : Option ResourceSpec → String
gpu_of none = "0"
gpu_of (some r) = non_empty_or r.gpu "0"

module _ {W : Type 0} (c : Client W) where
  abbrev amounts : Option ResourceSpec → Quantities
  amounts spec =
      ("cpu", record { text = cpu_of spec })
      ∷ ("memory", record { text = memory_of spec })
      ∷ (if gpu_of spec == "0" then [] else ("nvidia.com/gpu", parse_or_zero c (gpu_of spec)) ∷ [])

  -- If the CPU and the memory, or their defaults, are quantities, the resources are built, with the
  -- limits equal to the requests.
  pub resources_balanced :
      (spec : Option ResourceSpec)
      → c.is_quantity (cpu_of spec) ≡ true
      → c.is_quantity (memory_of spec) ≡ true
      → (r : ResourceRequirements) × (build_resources c spec ≡ ok r) × (r.requests ≡ r.limits)
  unfolding build_resources
  resources_balanced none h k =
      (record { requests = amounts none; limits = amounts none }, rw (h, k), refl)
  resources_balanced (some r) h k =
      (record { requests = amounts (some r); limits = amounts (some r) }, rw (h, k), refl)

  -- A CPU or a memory that is no quantity makes the operator panic.
  pub resources_panic :
      (spec : Option ResourceSpec)
      → (c.is_quantity (cpu_of spec) && c.is_quantity (memory_of spec)) ≡ false
      → build_resources c spec ≡ panic "cannot parse quantity"
  unfolding build_resources
  resources_panic none h = ground arith
  resources_panic (some r) h = ground arith
