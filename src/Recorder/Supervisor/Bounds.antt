-- ===== src/Recorder/Supervisor/Bounds.antt =====
-- The supervisor cannot restart for ever.
use vox_streaming.Base.{
  ℕ, suc, ◌+◌, ◌*◌, ◌≤◌, ◌<◌, ◌≡◌, refl, ◌≢◌, true, false, List, [], ◌∷◌, Option, none, some, arith,
  length, subst, sym,
}
use vox_streaming.Base.Clock.{seconds}
use vox_streaming.Recorder.Supervisor.Loop.{
  Attempt, Supervisor, Ending, stopped, unproductive, too_many_restarts, restart_failed, Round,
  restarts, ends, max_total_restart_multiplier, max_restart_backoff, effective_max_attempts,
  count_attempt, backoff, restart, judge, round, start, run,
}

-- Between two rounds.
pub record IsRunning (s : Supervisor) : Type 0 where
  pub streak_low : s.fail_streak < s.max_attempts
  pub restarts_low : s.total_restarts < s.max_attempts * max_total_restart_multiplier
  pub streak_counted : s.fail_streak ≤ s.total_restarts
  pub numbered : s.attempt ≡ s.total_restarts + 1
  pub not_given_up : s.gave_up ≡ false

-- What a round leaves: a running supervisor that has restarted once more, after a pause of two to
-- thirty seconds, or an ending that says whether it gave up.
abbrev pub RoundFits : Supervisor → Round → Type 0
RoundFits s (restarts pause t) =
    IsRunning t
    × (t.total_restarts ≡ s.total_restarts + 1)
    × (t.max_attempts ≡ s.max_attempts)
    × (seconds 2 ≤ pause)
    × (pause ≤ max_restart_backoff)
RoundFits s (ends stopped t) = t.gave_up ≡ false
RoundFits s (ends why t) = t.gave_up ≡ true

pub round-RoundFits : (r : Attempt) (s : Supervisor) → IsRunning s → RoundFits s (round r s)
unfolding round judge restart count_attempt backoff
round-RoundFits r s v = ground arith

-- The verdict that an ending goes with.
abbrev pub Verdict : Supervisor × Option Ending → Type 0
Verdict (s, none) = s.gave_up ≡ false
Verdict (s, some stopped) = s.gave_up ≡ false
Verdict (s, some unproductive) = s.gave_up ≡ true
Verdict (s, some too_many_restarts) = s.gave_up ≡ true
Verdict (s, some restart_failed) = s.gave_up ≡ true

ends-Verdict : (s t : Supervisor) (why : Ending) → RoundFits s (ends why t) → Verdict (t, some why)
ends-Verdict s t stopped h = h
ends-Verdict s t unproductive h = h
ends-Verdict s t too_many_restarts h = h
ends-Verdict s t restart_failed h = h

-- The loop is over after as many attempts as it may still restart, and one more; and how it ended
-- says whether it gave up.
abbrev RunFits : ℕ → Supervisor → Supervisor × Option Ending → Type 0
RunFits rounds s p =
    Verdict p
    × (s.max_attempts * max_total_restart_multiplier ≤ s.total_restarts + rounds → p.1 ≢ none)

run-RunFits : (rs : List Attempt) (s : Supervisor) → IsRunning s → RunFits (length rs) s (run rs s)
unfolding run
run-RunFits [] s v = (v.not_given_up, λ h. absurd (omega (arith, v.restarts_low)))
run-RunFits (r ∷ rs) s v = go (round r s) refl (round-RoundFits r s v) (run-RunFits rs)
  where
    go :
        (x : Round)
        → round r s ≡ x
        → RoundFits s x
        → ((t : Supervisor) → IsRunning t → RunFits (length rs) t (run rs t))
        → RunFits (suc (length rs)) s (run (r ∷ rs) s)
    go (ends why t) e f ih = rw (e, run) (ends-Verdict s t why f, λ h k. cc)
    go (restarts pause t) e f ih =
        let k = ih t f.0 in
        rw (e, run)
          (
            k.0,
            λ h. k.1 (
                subst (λ (m : ℕ). m * max_total_restart_multiplier ≤ t.total_restarts + length rs)
                  (sym f.2) (omega (arith, f.1))),
          )

start-IsRunning : (n : ℕ) → IsRunning (start n)
unfolding start effective_max_attempts
start-IsRunning n = ground arith

-- Whatever its attempts do, a supervisor that is allowed n attempts in a row ends within 5 * n of
-- them (5, if n is 0), and it has given up exactly if it ended for another reason than being stopped.
pub run-ends :
    (n : ℕ) (rs : List Attempt)
    → Verdict (run rs (start n))
      × (effective_max_attempts n * max_total_restart_multiplier ≤ length rs
          → (run rs (start n)).1 ≢ none)
unfolding start
run-ends n rs =
    let k = run-RunFits rs (start n) (start-IsRunning n) in (k.0, λ h. k.1 (omega arith))
