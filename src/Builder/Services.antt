-- ===== src/Builder/Services.antt =====
-- The services that the controllers keep (internal/controller/builder/builder.go).
use kai_operator.Base.{String, arith, eq_iff}
use kai_operator.Base.Labels.{Labels}
use kai_operator.Base.Text.{ℤ}
use kai_operator.Api.Meta.{ObjectMeta}
use kai_operator.Client.{Client, run_at}
use kai_operator.Client.Calls.{calls}
use kai_operator.Client.Order.{After, is_create, is_missing}
use kai_operator.Builder.{ensure_service}

module _ {W : Type 0} (c : Client W) where
  -- A service is created only after a read that found none of its name.
  pub service_created_if_missing :
      (w : W) (owner : ObjectMeta) (name namespace : String) (port : ℤ) (labels : Labels)
      → After is_create
          (is_missing (record { name = name; namespace = namespace }))
          (ensure_service c owner name namespace port labels (run_at w)).1.log
  unfolding ensure_service calls
  service_created_if_missing w owner name namespace port labels =
      ground (arith, eq_iff name name, eq_iff namespace namespace)
