-- ===== src/Manager/Role.antt =====
-- The role of the operator, as the `+kubebuilder:rbac` markers of cmd/main.go and of the five
-- reconcilers give it (config/rbac/role.yaml is generated from them).
use kai_operator.Base.{String, Bool, List, [], ◌∷◌, ◌<>◌, ◌++◌, ◌==◌, ◌&&◌}
use kai_operator.Base.Lists.{any}
use kai_operator.Client.{
  Kind, Event, got, listed, created, updated, status_updated, deleted, patched, deleted_all,
  spawned,
}

pub record Rule : Type 0 where
  pub group : String
  pub resource : String
  pub verbs : List String

abbrev all_verbs : List String
all_verbs = "get" ∷ "list" ∷ "watch" ∷ "create" ∷ "update" ∷ "patch" ∷ "delete" ∷ []

abbrev read_verbs : List String
read_verbs = "get" ∷ "list" ∷ "watch" ∷ []

abbrev status_verbs : List String
status_verbs = "get" ∷ "update" ∷ "patch" ∷ []

-- One group's rules for resources with the same verbs.
abbrev rules : String → List String → List String → List Rule
rules group verbs [] = []
rules group verbs (r ∷ rest) =
    record { group = group; resource = r; verbs = verbs } ∷ rules group verbs rest

-- The markers for the core group, in three parts by their verbs.
abbrev core_rules : List Rule
core_rules =
    rules "" all_verbs (
      "configmaps" ∷ "endpoints" ∷ "events" ∷ "pods" ∷ "podtemplates" ∷ "replicationcontrollers"
      ∷ "resourcequotas" ∷ "secrets" ∷ "serviceaccounts" ∷ "services" ∷ [])
    ++ (rules "" status_verbs (
          "configmaps/status" ∷ "endpoints/status" ∷ "events/status" ∷ "pods/status"
          ∷ "replicationcontrollers/status" ∷ "resourcequota/status" ∷ "secrets/status"
          ∷ "serviceaccounts/status" ∷ "services/status" ∷ "services/finalizers" ∷ [])
        ++ (rules "" ("create" ∷ []) ("pods/exec" ∷ "pods/portforward" ∷ [])
            ++ rules "" read_verbs ("pods/log" ∷ [])))

abbrev gateway_rules : List Rule
gateway_rules =
    rules "gateway.networking.k8s.io" all_verbs ("httproutes" ∷ [])
    ++ (rules "gateway.networking.k8s.io" status_verbs
          ("httproutes/status" ∷ "gateways/status" ∷ [])
        ++ (rules "gateway.networking.k8s.io" ("update" ∷ []) ("httproutes/finalizers" ∷ [])
            ++ rules "gateway.networking.k8s.io" read_verbs ("gateways" ∷ "gatewayclasses" ∷ [])))

-- The three markers on a reconciler.
unfoldable pub task_rules : String → List Rule
task_rules tasks =
    rules "kai.io" all_verbs (tasks ∷ [])
    ++ (rules "kai.io" status_verbs ((tasks <> "/status") ∷ [])
        ++ rules "kai.io" ("update" ∷ []) ((tasks <> "/finalizers") ∷ []))

-- The markers of cmd/main.go.
unfoldable pub main_role : List Rule
main_role =
    rules "" ("create" ∷ "update" ∷ "patch" ∷ []) ("events" ∷ [])
    ++ (rules "apps" all_verbs ("deployments" ∷ "daemonsets" ∷ "statefulsets" ∷ [])
        ++ (rules "apps" status_verbs
              ("statefulsets/status" ∷ "deployments/status" ∷ "daemonsets/status" ∷ [])
            ++ (rules "autoscaling" read_verbs ("horizontalpodautoscalers" ∷ [])
                ++ (rules "batch" all_verbs ("jobs" ∷ "cronjobs" ∷ [])
                    ++ (rules "batch" ("get" ∷ []) ("jobs/status" ∷ [])
                        ++ (rules "batch" status_verbs
                              ("cronjobs/status" ∷ "cronjobs/finalizers" ∷ [])
                            ++ (core_rules ++ gateway_rules)))))))

-- The role: the markers of main and those on each reconciler.
unfoldable pub role : List Rule
unfolding main_role task_rules
role =
    main_role
    ++ (task_rules "devtasks"
        ++ (task_rules "traintasks"
            ++ (task_rules "finetunetasks"
                ++ (task_rules "evaltasks" ++ task_rules "inferencetasks"))))

unfoldable pub allows : List Rule → String → String → String → Bool
allows rs group resource verb =
    any (λ r. r.group == group && r.resource == resource && any (λ v. v == verb) r.verbs) rs

-- The group and the resource of a kind.
abbrev group_of : Kind → String
group_of Kind.deployment = "apps"
group_of Kind.job = "batch"
group_of Kind.service = ""
group_of Kind.pod = ""
group_of Kind.http_route = "gateway.networking.k8s.io"
group_of Kind.gateway = "gateway.networking.k8s.io"
group_of _ = "kai.io"

abbrev resource_of : Kind → String
resource_of Kind.deployment = "deployments"
resource_of Kind.job = "jobs"
resource_of Kind.service = "services"
resource_of Kind.pod = "pods"
resource_of Kind.http_route = "httproutes"
resource_of Kind.gateway = "gateways"
resource_of Kind.dev_task = "devtasks"
resource_of Kind.inference_task = "inferencetasks"
resource_of Kind.train_task = "traintasks"
resource_of Kind.fine_tune_task = "finetunetasks"
resource_of Kind.eval_task = "evaltasks"

abbrev may : Kind → String → Bool
may k verb = allows role (group_of k) (resource_of k) verb

-- What the API server asks of a call. The manager's client reads from a cache, for which it lists and
-- watches what is read.
unfoldable pub permitted : Event → Bool
unfolding role allows
permitted (got k _ _) = may k "get" && may k "list" && may k "watch"
permitted (listed k _ _ _) = may k "list" && may k "watch"
permitted (created k _ _) = may k "create"
permitted (updated k _ _) = may k "update"
permitted (status_updated k _ _ _) = allows role (group_of k) (resource_of k <> "/status") "update"
permitted (deleted k _ _) = may k "delete"
permitted (patched k _ _) = may k "patch"
permitted (deleted_all k _ _) = may k "deletecollection"
permitted (spawned k _ _) = may k "delete"
