-- ===== src/Sdk/Wait.antt =====
-- The loops that poll a task (waitForPhase, waitForTerminal and waitForDeletion of sdk/wait.go). The
-- timer and the timeout are parameters: the list of the channels that `select` takes, one after the
-- other. Where both are ready it takes either, so any list may occur. The list of a run of the
-- program ends with the timeout at the latest; a shorter list is a wait that goes on.
use kai_operator.Base.{
  String, ◌<>◌, Bool, true, false, Option, none, some, List, [], ◌∷◌, ◌==◌, if◌then◌else◌,
}
use kai_operator.Base.Text.{ℤ, pos}
use kai_operator.Api.Task.{
  TaskPhase, unset, pending, creating, running, completed, failed, terminating, other,
}
use kai_operator.Client.{other_reason, is_not_found, Result, ok, err, panic}

-- The options of a wait, in nanoseconds.
pub record WaitOptions : Type 0 where
  pub interval : ℤ
  pub timeout : ℤ

-- `DefaultWaitOptions`: 2 seconds and 10 minutes.
abbrev pub default_wait_options : WaitOptions
default_wait_options = record { interval = pos 2000000000; timeout = pos 600000000000 }

abbrev pub with_interval : ℤ → WaitOptions → WaitOptions
with_interval interval o = record o { interval = interval }

abbrev pub with_timeout : ℤ → WaitOptions → WaitOptions
with_timeout t o = record o { timeout = t }

abbrev apply_wait_options : List (WaitOptions → WaitOptions) → WaitOptions → WaitOptions
apply_wait_options [] o = o
apply_wait_options (opt ∷ opts) o = apply_wait_options opts (opt o)

-- `parseWaitOptions`: each option in turn changes the defaults.
unfoldable pub parse_wait_options : List (WaitOptions → WaitOptions) → WaitOptions
parse_wait_options opts = apply_wait_options opts default_wait_options

-- `timeoutCtx.Done()` and `ticker.C`.
pub data Signal : Type 0 where
  timeout tick : Signal

-- The text of a phase, as the constants of api/v1alpha1 spell it.
abbrev pub phase_text : TaskPhase → String
phase_text unset = ""
phase_text pending = "pending"
phase_text creating = "creating"
phase_text running = "running"
phase_text completed = "completed"
phase_text failed = "failed"
phase_text terminating = "terminating"
phase_text (other x) = x

abbrev timed_out : String → Result (Unit {0})
timed_out text = err (record { reason = other_reason; text = text })

-- What the body of a loop does with a read: it returns, or `none` goes on to the next round.
abbrev pub Round : Type 0
Round = Option (Result (Unit {0}))

-- `if err != nil { if errors.IsNotFound(err) { continue }; return err }; if stop(phase) { return nil }`
unfoldable pub check_phase : (TaskPhase → Bool) → Result TaskPhase → Round
check_phase stop (ok p) = if stop p then some (ok tt) else none
check_phase stop (err e) = if is_not_found e then none else some (err e)
check_phase stop (panic x) = some (panic x)

-- `if err != nil { return err }; if !exists { return nil }`
unfoldable pub check_exists : Result Bool → Round
check_exists (ok true) = none
check_exists (ok false) = some (ok tt)
check_exists (err e) = some (err e)
check_exists (panic x) = some (panic x)

abbrev pub is_terminal : TaskPhase → Bool
is_terminal completed = true
is_terminal failed = true
is_terminal _ = false

-- What a round that read the world `w` comes to, where `later` is the rest of the loop.
abbrev pub settle : {W : Type 0} → Round → W → Round × W → Round × W
settle none w later = later
settle (some r) w later = (some r, w)

module _ {W A : Type 0} (read : W → Result A × W) (check : Result A → Round)
    (expired : String) where
  -- The loop: `none` is a wait that goes on after these signals.
  unfoldable pub poll : List Signal → W → Round × W
  poll [] w = (none, w)
  poll (timeout ∷ _) w = (some (timed_out expired), w)
  poll (tick ∷ rest) w =
      let (r, w1) = read w in let later = poll rest w1 in settle (check r) w1 later

module _ {W : Type 0} where
  unfoldable pub wait_for_phase :
      (W → Result TaskPhase × W) → TaskPhase → List Signal → W → Round × W
  unfolding check_phase poll
  wait_for_phase get target =
      poll get (check_phase (λ p. phase_text p == phase_text target))
        ("timeout waiting for phase " <> phase_text target)

  unfoldable pub wait_for_terminal : (W → Result TaskPhase × W) → List Signal → W → Round × W
  unfolding check_phase poll
  wait_for_terminal get = poll get (check_phase is_terminal) "timeout waiting for terminal phase"

  unfoldable pub wait_for_deletion : (W → Result Bool × W) → List Signal → W → Round × W
  unfolding check_exists poll
  wait_for_deletion exists = poll exists check_exists "timeout waiting for deletion"
