-- ===== src/Builder/Selectors.antt =====
-- The selector and the labels of a deployment (internal/controller/builder/builder.go).
use text.Mathlib.TextPositions.{eq_refl}
use kai_operator.Base.{String, ◌≡◌, true}
use kai_operator.Base.Labels.{Labels, lookup-insert, selects}
use kai_operator.Base.Text.{ℤ}
use kai_operator.Api.Kube.{Container}
use kai_operator.Builder.{build_deployment}

-- Whatever labels it is given, the deployment's selector matches the labels of its pod template.
pub deployment_selects_template :
    (name namespace framework task_type image : String) (replicas : ℤ) (container : Container)
    (labels : Labels)
    → let d = build_deployment name namespace framework task_type image replicas container labels in
      selects d.match_labels d.template.labels ≡ true
unfolding build_deployment
deployment_selects_template name namespace framework task_type image replicas container labels =
    simp (lookup-insert, eq_refl)
