-- ===== src/Manager.antt =====
-- The start of the operator (cmd/main.go and the SetupWithManager of each reconciler).
pub mod Role
pub mod Start
pub mod Permitted
mod Tests
use kai_operator.Base.{String, Bool, Option, none, some, List, [], ◌∷◌, ◌&&◌, ℕ, if◌then◌else◌}
use kai_operator.Client.{Kind}

-- The command line flags of the operator, as `flag.Parse` leaves them; those of its logger are left
-- out.
pub record Flags : Type 0 where
  pub metrics_bind_address : String
  pub health_probe_bind_address : String
  pub leader_elect : Bool

-- The defaults that `main` gives to `flag.StringVar` and `flag.BoolVar`.
abbrev pub default_flags : Flags
default_flags = record {
  metrics_bind_address = ":8080";
  health_probe_bind_address = ":8081";
  leader_elect = Bool.false;
}

-- `ctrl.Options`, without the scheme and the webhook server.
pub record Options : Type 0 where
  pub metrics_bind_address : String
  pub health_probe_bind_address : String
  pub leader_election : Bool
  pub leader_election_id : String

unfoldable pub options_of : Flags → Options
options_of f = record {
  metrics_bind_address = f.metrics_bind_address;
  health_probe_bind_address = f.health_probe_bind_address;
  leader_election = f.leader_elect;
  leader_election_id = "c1d4b4c6.kai.io";
}

-- What a reconciler is set up with: the kind `For` which it is, the kinds that it `Owns`, and its
-- name, if it is `Named`.
pub record Setup : Type 0 where
  pub kind : Kind
  pub owns : List Kind
  pub name : Option String

abbrev pub dev_task_setup : Setup
dev_task_setup = record {
  kind = Kind.dev_task;
  owns = Kind.deployment ∷ Kind.pod ∷ Kind.service ∷ Kind.http_route ∷ [];
  name = none;
}

abbrev pub train_task_setup : Setup
train_task_setup = record { kind = Kind.train_task; owns = []; name = some "traintask" }

abbrev pub fine_tune_task_setup : Setup
fine_tune_task_setup = record {
  kind = Kind.fine_tune_task;
  owns = Kind.job ∷ Kind.service ∷ Kind.deployment ∷ Kind.http_route ∷ [];
  name = none;
}

abbrev pub eval_task_setup : Setup
eval_task_setup = record {
  kind = Kind.eval_task;
  owns = Kind.job ∷ Kind.service ∷ Kind.deployment ∷ [];
  name = some "evaltask";
}

abbrev pub inference_task_setup : Setup
inference_task_setup = record {
  kind = Kind.inference_task;
  owns = Kind.deployment ∷ Kind.pod ∷ Kind.service ∷ Kind.http_route ∷ [];
  name = none;
}

-- The steps of the start. The configuration of the cluster is read in the first: where there is none,
-- `ctrl.GetConfigOrDie` ends the process with code 1 as well.
pub data Step : Type 0 where
  new_manager : Options → Step
  set_up : Setup → Step
  add_healthz_check add_readyz_check : String → Step
  start : Step

-- The process: what the steps act on, the steps so far, the newest first, and the exit code once it
-- has ended.
pub record Process (W : Type 0) : Type 0 where
  pub world : W
  pub steps : List Step
  pub code : Option ℕ

-- The steps are calls of controller-runtime, whose error is all that `main` looks at: a parameter
-- gives whether there was none. A step that fails ends the process with code 1.
abbrev pub take :
    {W : Type 0} → (Step → W → Bool × W) → Step → (Process W → Process W) → Process W → Process W
take run step next p =
    let (fine, w) = run step p.world in
    let q = record p { world = w; steps = step ∷ p.steps } in
    if fine then next q else record q { code = some 1 }

unfoldable pub main : {W : Type 0} → (Step → W → Bool × W) → Flags → W → Process W
unfolding options_of
main run flags w =
    take run (new_manager (options_of flags))
      (take run (set_up dev_task_setup) (
        take run (set_up train_task_setup) (
          take run (set_up fine_tune_task_setup) (
            take run (set_up eval_task_setup) (
              take run (set_up inference_task_setup) (
                take run (add_healthz_check "healthz") (
                  take run (add_readyz_check "readyz")
                    (take run start (λ p. record p { code = some 0 })))))))))
      (record { world = w; steps = []; code = none })
