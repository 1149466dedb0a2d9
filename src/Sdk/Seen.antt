-- ===== src/Sdk/Seen.antt =====
-- What the waits of the clients saw, and that they end (WaitForRunning, WaitForCompleted and
-- WaitForDeletion of sdk/devtask.go and of the clients of the other kinds).
use kai_operator.Base.{
  ℕ, zero, suc, String, true, none, some, List, ◌≡◌, ◌≢◌, refl, sym, ap, subst, arith, eq_iff, inl,
  inr, Bool-cases,
}
use kai_operator.Base.Lists.{any}
use kai_operator.Api.Task.{TaskPhase, running, failed}
use kai_operator.Client.{Result, ok, err, panic, Run, pure, on, ◌>>=◌}
use kai_operator.Client.Calls.{Task}
use kai_operator.Sdk.Wait.{Signal, Round, phase_text, wait_for_phase}
use kai_operator.Sdk.Waiting.{is_timeout, after, wait_for_phase_lem, phase-Saw}
use kai_operator.Sdk.Client.{
  TaskClient, found, refused, same_phase, get, get_phase, read_again, wait_from, wait_for_running,
}

module _ {W A : Type 0} ⦃k : Task A⦄ (c : TaskClient W A) where
  read_again-not_none :
      (name : String) (r : Result (Unit {0})) (s : Run W)
      → (read_again c name (some r) s).0 ≢ ok none
  unfolding read_again
  read_again-not_none name (ok _) s h = go (get c name s).0 h
    where
      go :
          (r : Result A)
          → (on
              (λ _. (r, (get c name s).1))
              (λ t. pure (some (found t)))
              (λ e. pure (some (refused none e)))
              s).0
            ≢ ok none
      go (ok t) h = ground arith
      go (err e) h = ground arith
      go (panic x) h = ground arith
  read_again-not_none name (err e) s h = go (get c name s).0 h
    where
      go :
          (r : Result A)
          → (on
              (λ _. (r, (get c name s).1))
              (λ t. pure (some (refused (some t) e)))
              (λ _. pure (some (refused none e)))
              s).0
            ≢ ok none
      go (ok t) h = ground arith
      go (err e) h = ground arith
      go (panic x) h = ground arith
  read_again-not_none name (panic x) s h = ground arith

  wait_from-not_none :
      (name : String) (l : List Signal) (t : A) (s : Run W)
      → any is_timeout l ≡ true
      → (wait_from c name l t s).0 ≢ ok none
  unfolding wait_from
  wait_from-not_none name l t s h e = elim (Bool-cases (same_phase (k.status t).phase running)) [
    | inl y ↦ (let e' = rw y at e in ground arith)
    | inr y ↦ elim (Bool-cases (same_phase (k.status t).phase failed)) [
      | inl z ↦ (let e' = rw (y, z) at e in ground arith)
      | inr z ↦
          let (r, q, _) = wait_for_phase_lem (get_phase c name) running l s h in
          subst
            (λ x.
              (read_again c name x (wait_for_phase (get_phase c name) running l s).1).0 ≢ ok none)
            (sym q) (read_again-not_none name r _) (rw (y, z) at e)
    ]
  ]

  -- A wait for a task to run, of which the timeout comes at some time, ends, whatever the server
  -- answers.
  pub running_wait_ends :
      (name : String) (l : List Signal) (s : Run W)
      → any is_timeout l ≡ true
      → (wait_for_running c name l s).0 ≢ ok none
  unfolding wait_for_running
  running_wait_ends name l s h e = go (get c name s).0 e
    where
      go :
          (r : Result A)
          → (on
              (λ _. (r, (get c name s).1))
              (wait_from c name l)
              (λ e. pure (some (refused none e)))
              s).0
            ≢ ok none
      go (ok t) e = wait_from-not_none name l t _ h e
      go (err x) e = ground arith
      go (panic x) e = ground arith

  get_phase-eq_ok :
      (name : String) (s : Run W) (t : A)
      → (get c name s).0 ≡ ok t
      → get_phase c name s ≡ (ok (k.status t).phase, (get c name s).1)
  unfolding get_phase
  get_phase-eq_ok name s t e =
      subst
        (λ r.
          ((λ _. (r, (get c name s).1)) >>= (λ task. pure (k.status task).phase)) s
          ≡ (ok (k.status t).phase, (get c name s).1))
        (sym e) refl

  read_again-found :
      (name : String) (q : Round) (s : Run W) (t : A)
      → (read_again c name q s).0 ≡ ok (some (found t))
      → q ≡ some (ok tt)
  unfolding read_again
  read_again-found name none s t h = ground arith
  read_again-found name (some (ok tt)) s t h = refl
  read_again-found name (some (panic x)) s t h = ground arith
  read_again-found name (some (err e)) s t h = go (get c name s).0 h
    where
      go :
          (r : Result A)
          → (on
              (λ _. (r, (get c name s).1))
              (λ t. pure (some (refused (some t) e)))
              (λ _. pure (some (refused none e)))
              s).0
            ≡ ok (some (found t))
          → some (err e) ≡ some (ok tt)
      go (ok t) h = ground arith
      go (err e) h = ground arith
      go (panic x) h = ground arith

  -- Some read from the run `s` on gave a phase of the text of `running`.
  abbrev pub SeenRunning : String → Run W → Type 0
  SeenRunning name s =
      (n : ℕ) × (p : TaskPhase) × ((get_phase c name (after (get_phase c name) n s)).0 ≡ ok p)
      × (phase_text p ≡ phase_text running)

  wait_from-SeenRunning :
      (name : String) (l : List Signal) (s : Run W) (t0 t : A)
      → (get c name s).0 ≡ ok t0
      → (wait_from c name l t0 (get c name s).1).0 ≡ ok (some (found t))
      → SeenRunning name s
  unfolding wait_from
  wait_from-SeenRunning name l s t0 t e h =
      let read = get_phase-eq_ok name s t0 e in
      elim (Bool-cases (same_phase (k.status t0).phase running)) [
        | inl y ↦ (zero, (k.status t0).phase, ap (λ x. x.0) read, (eq_iff _ _).0 y)
        | inr y ↦ elim (Bool-cases (same_phase (k.status t0).phase failed)) [
          | inl z ↦ (let h' = rw (y, z) at h in ground arith)
          | inr z ↦
              let (n, (p, q, same), _) =
                phase-Saw (get_phase c name) running l (get c name s).1
                  (read_again-found name _ _ t (rw (y, z) at h)) in
              (
                suc n,
                p,
                subst (λ u. (get_phase c name (after (get_phase c name) n u)).0 ≡ ok p)
                    (sym (ap (λ x. x.1) read)) q,
                same,
              )
        ]
      ]

  -- A wait for a task to run that returns the task without an error has seen it run: some read since
  -- its start gave a phase of that text.
  pub running_was_seen :
      (name : String) (l : List Signal) (s : Run W) (t : A)
      → (wait_for_running c name l s).0 ≡ ok (some (found t))
      → SeenRunning name s
  unfolding wait_for_running
  running_was_seen name l s t h = go (get c name s).0 refl h
    where
      go :
          (r : Result A)
          → (get c name s).0 ≡ r
          → (on
              (λ _. (r, (get c name s).1))
              (wait_from c name l)
              (λ e. pure (some (refused none e)))
              s).0
            ≡ ok (some (found t))
          → SeenRunning name s
      go (ok t0) e h = wait_from-SeenRunning name l s t0 t e h
      go (err x) e h = ground arith
      go (panic x) e h = ground arith
