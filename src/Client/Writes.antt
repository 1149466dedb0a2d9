-- ===== src/Client/Writes.antt =====
-- The calls that a controller may make, and the phases of the statuses that it writes.
use Prim.Native.Nat.{compare, Ordering}
use kai_operator.Base.{ℕ, Bool, true, false, List}
use kai_operator.Base.Lists.{any}
use kai_operator.Api.Task.{TaskPhase}
use kai_operator.Client.{
  Kind, Event, got, listed, created, patched, deleted_all, updated, status_updated, deleted,
  spawned,
}

abbrev nat_eq : ℕ → ℕ → Bool
nat_eq a b = elim (compare a b) [ Ordering.eq ↦ true | _ ↦ false ]

abbrev index : Kind → ℕ
index Kind.dev_task = 0
index Kind.inference_task = 1
index Kind.train_task = 2
index Kind.fine_tune_task = 3
index Kind.eval_task = 4
index Kind.deployment = 5
index Kind.service = 6
index Kind.job = 7
index Kind.pod = 8
index Kind.http_route = 9
index Kind.gateway = 10

abbrev pub Holds : Bool → Type 0
Holds true = Unit
Holds false = ⊥

-- A kind of a list.
abbrev pub IsOneOf : List Kind → Kind → Type 0
IsOneOf ks k = Holds (any (λ j. nat_eq (index j) (index k)) ks)

-- For a task kind, `X`.
abbrev pub OfTask : Kind → Type 0 → Type 0
OfTask Kind.dev_task X = X
OfTask Kind.inference_task X = X
OfTask Kind.train_task X = X
OfTask Kind.fine_tune_task X = X
OfTask Kind.eval_task X = X
OfTask _ X = ⊥

abbrev pub IsUpdated : Kind → Type 0
IsUpdated Kind.http_route = Unit
IsUpdated k = OfTask k Unit

-- A status is written to a task, and has a phase with the property `Q`; tasks and routes are updated,
-- objects of the kinds `ks` are created and deleted, and anything is read.
abbrev pub WritesOf : List Kind → (TaskPhase → Type 0) → Event → Type 0
WritesOf ks Q (status_updated k _ status _) = OfTask k (Q status.phase)
WritesOf ks Q (got _ _ _) = Unit
WritesOf ks Q (listed _ _ _ _) = Unit
WritesOf ks Q (created k _ _) = IsOneOf ks k
WritesOf ks Q (updated k _ _) = IsUpdated k
WritesOf ks Q (deleted k _ _) = IsOneOf ks k
WritesOf ks Q (spawned k _ _) = OfTask k Unit
WritesOf ks Q (patched _ _ _) = ⊥
WritesOf ks Q (deleted_all _ _ _) = ⊥

pub of_task : (k : Kind) (X : Type 0) → OfTask k X → X
of_task Kind.dev_task X h = h
of_task Kind.inference_task X h = h
of_task Kind.train_task X h = h
of_task Kind.fine_tune_task X h = h
of_task Kind.eval_task X h = h
of_task _ X h = absurd h

-- No condition on the phase.
abbrev pub AnyPhase : TaskPhase → Type 0
AnyPhase _ = Unit
