-- ===== src/Sdk/Tests.antt =====
-- Runs of the waits and instances of their theorems.
use kai_operator.Base.{ℕ, ◌≡◌, refl, Bool, true, false, some, List, [], ◌∷◌, ◌⊎◌}
use kai_operator.Api.Task.{TaskPhase, creating, running, completed, failed}
use kai_operator.Client.{Result, ok, err, not_found}
use kai_operator.Sdk.Wait.{Signal, timeout, tick, wait_for_phase, wait_for_terminal}
use kai_operator.Sdk.Waiting.{Saw, wait_for_terminal_lem}

-- A task that the reads see in these phases, one after the other, and then no more.
abbrev next : List TaskPhase → Result TaskPhase × List TaskPhase
next [] = (err (record { reason = not_found; text = "" }), [])
next (p ∷ ps) = (ok p, ps)

abbrev exists : List TaskPhase → Result Bool × List TaskPhase
exists [] = (ok false, [])
exists (p ∷ ps) = (ok true, ps)

abbrev signals : List Signal
signals = tick ∷ tick ∷ tick ∷ timeout ∷ []

seen :
    wait_for_phase next running signals (creating ∷ running ∷ completed ∷ [])
    ≡ (some (ok tt), completed ∷ [])
unfolding wait_for_phase
seen = refl

wait_for_terminal_lem_example :
    (let (round, end) = wait_for_terminal next signals (running ∷ failed ∷ []) in
      (r : Result (Unit {0})) × (round ≡ some r)
      × (r ≡ ok tt
          → Saw next (λ x. (x ≡ ok completed) ⊎ (x ≡ ok failed)) (running ∷ failed ∷ []) end))
wait_for_terminal_lem_example = wait_for_terminal_lem next signals (running ∷ failed ∷ []) refl

abbrev stuck : ℕ → Result TaskPhase × ℕ
stuck n = (ok failed, n)
