-- ===== src/Sdk/Waiting.antt =====
-- When the waits of the client library end, and what they saw (sdk/wait.go).
use kai_operator.Base.{
  ℕ, zero, suc, String, ◌<>◌, Bool, true, false, none, some, List, [], ◌∷◌, ◌≡◌, refl, ◌∙◌, ap,
  arith, ◌==◌, eq_iff, ◌⊎◌, inl, inr,
}
use kai_operator.Base.Lists.{any}
use kai_operator.Api.Task.{
  TaskPhase, unset, pending, creating, running, completed, failed, terminating, other,
}
use kai_operator.Client.{other_reason, Result, ok, err, panic}
use kai_operator.Sdk.Wait.{
  Signal, timeout, tick, Round, phase_text, check_phase, check_exists, is_terminal, settle, poll,
  wait_for_phase, wait_for_terminal, wait_for_deletion,
}

abbrev pub is_timeout : Signal → Bool
is_timeout timeout = true
is_timeout tick = false

-- The world after `n` reads.
abbrev pub after : {W A : Type 0} → (W → Result A × W) → ℕ → W → W
after read zero w = w
after read (suc n) w = after read n (read w).1

-- Some read, the last one that was made, gave `r` with `P r`.
abbrev pub Saw : {W A : Type 0} → (W → Result A × W) → (Result A → Type 0) → W → W → Type 0
Saw {W} {A} read P w end = (n : ℕ) × P (read (after read n w)).0 × (end ≡ after read (suc n) w)

module _ {W A : Type 0} (read : W → Result A × W) (check : Result A → Round)
    (expired : String) where
  poll-returns :
      (l : List Signal) (w : W)
      → any is_timeout l ≡ true
      → (r : Result (Unit {0})) × ((poll read check expired l w).0 ≡ some r)
  unfolding poll
  poll-returns [] w h = ground arith
  poll-returns (timeout ∷ l) w h = (_, refl)
  poll-returns (tick ∷ l) w h = go (check (read w).0) (poll-returns l (read w).1 h)
    where
      go :
          (x : Round)
          → ((r : Result (Unit {0})) × ((poll read check expired l (read w).1).0 ≡ some r))
          → (r : Result (Unit {0})) × ((settle x
                (read w).1
                (poll read check expired l (read w).1)).0
              ≡ some r)
      go none later = later
      go (some y) later = (y, refl)

  poll-Saw :
      (l : List Signal) (w : W)
      → (poll read check expired l w).0 ≡ some (ok tt)
      → Saw read (λ r. check r ≡ some (ok tt)) w (poll read check expired l w).1
  unfolding poll
  poll-Saw [] w h = ground arith
  poll-Saw (timeout ∷ l) w h = ground arith
  poll-Saw (tick ∷ l) w h = go (check (read w).0) refl h (poll-Saw l (read w).1)
    where
      go :
          (x : Round)
          → check (read w).0 ≡ x
          → (settle x (read w).1 (poll read check expired l (read w).1)).0 ≡ some (ok tt)
          → ((poll read check expired l (read w).1).0 ≡ some (ok tt)
              → Saw read
                  (λ r. check r ≡ some (ok tt))
                  (read w).1
                  (poll read check expired l (read w).1).1)
          → Saw read
              (λ r. check r ≡ some (ok tt))
              w
              (settle x (read w).1 (poll read check expired l (read w).1)).1
      go none e k later = let (n, p, q) = later k in (suc n, p, q)
      go (some y) e k later = (zero, e ∙ k, refl)

  poll_lem :
      (P : Result A → Type 0)
      → ((r : Result A) → check r ≡ some (ok tt) → P r)
      → (l : List Signal) (w : W) → any is_timeout l ≡ true
      → let (round, end) = poll read check expired l w in
        (r : Result (Unit {0})) × (round ≡ some r) × (r ≡ ok tt → Saw read P w end)
  poll_lem P f l w h =
      let (r, e) = poll-returns l w h in
      (r, e, λ k. let (n, p, q) = poll-Saw l w (e ∙ ap some k) in (n, f _ p, q))

-- Only two phases are an end.
terminal_cases : (p : TaskPhase) → is_terminal p ≡ true → (p ≡ completed) ⊎ (p ≡ failed)
terminal_cases completed e = inl refl
terminal_cases failed e = inr refl
terminal_cases unset e = ground arith
terminal_cases pending e = ground arith
terminal_cases creating e = ground arith
terminal_cases running e = ground arith
terminal_cases terminating e = ground arith
terminal_cases (other x) e = ground arith

exists-ok : (r : Result Bool) → check_exists r ≡ some (ok tt) → r ≡ ok false
unfolding check_exists
exists-ok (ok true) e = ground arith
exists-ok (ok false) e = refl
exists-ok (err x) e = ground arith
exists-ok (panic x) e = ground arith

module _ {W : Type 0} (get : W → Result TaskPhase × W) where
  stop-ok :
      (stop : TaskPhase → Bool) (r : Result TaskPhase)
      → check_phase stop r ≡ some (ok tt)
      → (p : TaskPhase) × (r ≡ ok p) × (stop p ≡ true)
  unfolding check_phase
  stop-ok stop (ok p) e = (p, refl, ground arith)
  stop-ok stop (err x) e = ground arith
  stop-ok stop (panic x) e = ground arith

  pub phase-Saw :
      (target : TaskPhase) (l : List Signal) (w : W)
      → (wait_for_phase get target l w).0 ≡ some (ok tt)
      → Saw get
          (λ x. (p : TaskPhase) × (x ≡ ok p) × (phase_text p ≡ phase_text target))
          w
          (wait_for_phase get target l w).1
  unfolding wait_for_phase
  phase-Saw target l w h =
      let stop : TaskPhase → Bool = λ r. phase_text r == phase_text target in
      let (n, e, q) =
        poll-Saw get (check_phase stop) ("timeout waiting for phase " <> phase_text target) l w h in
      let (p, k, same) = stop-ok stop _ e in
      (n, (p, k, (eq_iff (phase_text p) (phase_text target)).0 same), q)

  -- A wait for a phase ends once the timeout is there, and it succeeds only if its last read gave a
  -- phase of the target's text.
  pub wait_for_phase_lem :
      (target : TaskPhase) (l : List Signal) (w : W)
      → any is_timeout l ≡ true
      → let (round, end) = wait_for_phase get target l w in
        (r : Result (Unit {0})) × (round ≡ some r)
        × (r ≡ ok tt
            → Saw get
                (λ x. (p : TaskPhase) × (x ≡ ok p) × (phase_text p ≡ phase_text target))
                w
                end)
  unfolding wait_for_phase
  wait_for_phase_lem target l w h =
      poll_lem get _ _ (λ x. (p : TaskPhase) × (x ≡ ok p) × (phase_text p ≡ phase_text target))
        (λ r e.
          let (p, k, same) = stop-ok (λ q. phase_text q == phase_text target) r e in
          (p, k, (eq_iff (phase_text p) (phase_text target)).0 same))
        l w h

  -- A wait for the end of a task ends once the timeout is there, and it succeeds only if its last read
  -- gave a phase that is an end.
  pub wait_for_terminal_lem :
      (l : List Signal) (w : W)
      → any is_timeout l ≡ true
      → let (round, end) = wait_for_terminal get l w in
        (r : Result (Unit {0})) × (round ≡ some r)
        × (r ≡ ok tt → Saw get (λ x. (x ≡ ok completed) ⊎ (x ≡ ok failed)) w end)
  unfolding wait_for_terminal
  wait_for_terminal_lem l w h =
      poll_lem get _ _ (λ x. (x ≡ ok completed) ⊎ (x ≡ ok failed))
        (λ r e.
          let (p, k, end) = stop-ok is_terminal r e in
          elim (terminal_cases p end) [ inl c ↦ inl (k ∙ ap ok c) | inr f ↦ inr (k ∙ ap ok f) ])
        l w h

-- A wait for a deletion ends once the timeout is there, and it succeeds only if its last read found
-- nothing.
pub wait_for_deletion_lem :
    {W : Type 0} (exists : W → Result Bool × W) (l : List Signal) (w : W)
    → any is_timeout l ≡ true
    → let (round, end) = wait_for_deletion exists l w in
      (r : Result (Unit {0})) × (round ≡ some r)
      × (r ≡ ok tt → Saw exists (λ x. x ≡ ok false) w end)
unfolding wait_for_deletion
wait_for_deletion_lem exists l w h = poll_lem exists _ _ (λ x. x ≡ ok false) exists-ok l w h

-- A wait for a task to run, of which every read shows that it failed, goes on until the timeout.
pub failed_waited_out :
    {W : Type 0} (get : W → Result TaskPhase × W) (l : List Signal) (w : W)
    → ((v : W) → (get v).0 ≡ ok failed)
    → any is_timeout l ≡ true
    → (wait_for_phase get running l w).0
      ≡ some (err (record { reason = other_reason; text = "timeout waiting for phase running" }))
unfolding wait_for_phase
failed_waited_out get [] w all h = ground arith
failed_waited_out get (timeout ∷ l) w all h = refl
failed_waited_out get (tick ∷ l) w all h = rw (all w) (failed_waited_out get l (get w).1 all h)
