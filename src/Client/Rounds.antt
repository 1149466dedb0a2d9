-- ===== src/Client/Rounds.antt =====
-- The phases that a task goes through over any number of reconciliations (the Reconcile of each
-- controller).
use kai_operator.Base.{◌≡◌, ◌≢◌, ◌⊎◌, inl, inr, refl, sym, subst, List, [], ◌∷◌}
use kai_operator.Base.Lists.{All}
use kai_operator.Api.Meta.{Key}
use kai_operator.Api.Task.{TaskPhase}
use kai_operator.Client.{
  ok, Kind, Resource, Event, got, listed, created, updated, status_updated, deleted, patched,
  deleted_all, spawned,
}
use kai_operator.Client.Writes.{WritesOf, of_task}

-- A status with the phase `p` that is sent to the server.
abbrev IsWrite : TaskPhase → Event → Type 0
IsWrite p (status_updated _ _ status _) = status.phase ≡ p
IsWrite p _ = ⊥

abbrev pub Wrote : TaskPhase → List Event → Type 0
Wrote p [] = ⊥
Wrote p (e ∷ l) = IsWrite p e ⊎ Wrote p l

module _ (ks : List Kind) (Q : TaskPhase → Type 0) (p : TaskPhase) where
  written : (e : Event) → WritesOf ks Q e → IsWrite p e → Q p
  written (status_updated j _ status _) h k = subst Q k (of_task j _ h)
  written (got _ _ _) h k = absurd k
  written (listed _ _ _ _) h k = absurd k
  written (created _ _ _) h k = absurd k
  written (updated _ _ _) h k = absurd k
  written (deleted _ _ _) h k = absurd k
  written (patched _ _ _) h k = absurd k
  written (deleted_all _ _ _) h k = absurd k
  written (spawned _ _ _) h k = absurd k

  all-Wrote : (l : List Event) → All (WritesOf ks Q) l → Wrote p l → Q p
  all-Wrote [] h k = absurd k
  all-Wrote (e ∷ l) h (inl k) = written e h.0 k
  all-Wrote (e ∷ l) h (inr k) = all-Wrote l h.1 k

-- A reconciliation, in a world of its own, that reads a task with the phase `q` and the property `P`,
-- and writes the phase `r`; `log` gives its calls.
pub record Round {W A : Type 0} (tasks : Resource W A) (phase : A → TaskPhase) (P : A → Type 0)
    (log : Key → W → List Event) (q r : TaskPhase) : Type 0 where
  pub key : Key
  pub world : W
  pub task : A
  pub starts : phase task ≡ q
  pub read : (tasks.get key world).0 ≡ ok task
  pub has : P task
  pub wrote : Wrote r (log key world)

-- Where every status that is written follows, by `Edge`, the phase that was read, a reconciliation
-- goes along it.
pub Round-follows :
    {W A : Type 0} (tasks : Resource W A) (phase : A → TaskPhase) (P : A → Type 0)
    (log : Key → W → List Event) (ks : List Kind) (Edge : TaskPhase → TaskPhase → Type 0)
    (q r : TaskPhase)
    → ((key : Key) (w : W) (t : A)
        → (tasks.get key w).0 ≡ ok t
        → P t
        → All (WritesOf ks (Edge (phase t))) (log key w))
    → Round tasks phase P log q r
    → Edge q r
Round-follows tasks phase P log ks Edge q r follows s =
    subst (λ x. Edge x r) s.starts
      (all-Wrote ks (Edge (phase s.task)) r _ (follows s.key s.world s.task s.read s.has) s.wrote)

-- Any number of steps, where each starts in the phase that an earlier one wrote.
pub data Rounds (S : TaskPhase → TaskPhase → Type 0) : TaskPhase → TaskPhase → Type 0 where
  here : {p : TaskPhase} → Rounds S p p
  round : {p q r : TaskPhase} → Rounds S p q → S q r → Rounds S p r

module _ (S : TaskPhase → TaskPhase → Type 0) where
  -- A phase that every step keeps is kept.
  pub Rounds-keep : (p r : TaskPhase) → ((x : TaskPhase) → S p x → x ≡ p) → Rounds S p r → r ≡ p
  Rounds-keep p r keep here = refl
  Rounds-keep p r keep (round {q = q} past s) =
      keep r (subst (λ x. S x r) (Rounds-keep p q keep past) s)

  -- If only the phase `a` leads to another phase `b`, what comes to `b` came through `a`.
  pub Rounds-through :
      (a b p r : TaskPhase)
      → ((x : TaskPhase) → S x b → (x ≡ a) ⊎ (x ≡ b))
      → p ≢ b
      → r ≡ b
      → Rounds S p r
      → Rounds S p a × Rounds S a b
  Rounds-through a b p r only other last here = absurd (other last)
  Rounds-through a b p r only other last (round {q = q} past s) =
      let step : S q b = subst (S q) last s in
      elim (only q step) [
        | inl e ↦ (subst (Rounds S p) e past, round (subst (λ x. Rounds S a x) (sym e) here) step)
        | inr e ↦ let before = Rounds-through a b p q only other e past in (before.0, before.1)
      ]

  -- A phase to which no other one leads is not reached from another one.
  pub Rounds-avoid :
      (b p r : TaskPhase) → ((x : TaskPhase) → S x b → x ≡ b) → p ≢ b → Rounds S p r → r ≢ b
  Rounds-avoid b p r only other here e = other e
  Rounds-avoid b p r only other (round {q = q} past s) e =
      Rounds-avoid b p q only other past (only q (subst (S q) e s))
