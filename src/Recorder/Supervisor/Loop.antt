-- ===== src/Recorder/Supervisor/Loop.antt =====
-- supervisor.go: `run`. One attempt is what the world reports of it; a round of the loop is a function of
-- that report, and the loop goes over the reports of successive attempts.
use vox_streaming.Base.{
  ℕ, ◌+◌, ◌*◌, Bool, true, false, List, [], ◌∷◌, Option, none, some, leb, if◌then◌else◌, min, ltb,
}
use vox_streaming.Base.Clock.{seconds}

abbrev pub max_total_restart_multiplier : ℕ
max_total_restart_multiplier = 5

-- `maxRestartBackoff`, in nanoseconds.
abbrev pub max_restart_backoff : ℕ
max_restart_backoff = seconds 30

-- `StartRecorderSupervisor` takes at least one attempt.
unfoldable pub effective_max_attempts : ℕ → ℕ
effective_max_attempts n = if ltb n 1 then 1 else n

-- What happens while an attempt runs and after it: whether it produced a segment, whether it was
-- stopped, whether `stopCh` was closed by the time the attempt ended or during the pause, and
-- whether the next recorder starts.
pub record Attempt : Type 0 where
  pub produced_any : Bool
  pub was_stopped : Bool
  pub stop_seen : Bool
  pub stop_in_backoff : Bool
  pub next_starts : Bool

-- The loop's variables, and what it leaves for others to see.
pub record Supervisor : Type 0 where
  pub max_attempts : ℕ
  pub attempt : ℕ
  pub fail_streak : ℕ
  pub total_restarts : ℕ
  pub gave_up : Bool

-- Why a round returned.
pub data Ending : Type 0 where
  stopped unproductive too_many_restarts restart_failed : Ending

pub data Round : Type 0 where
  restarts : ℕ → Supervisor → Round
  ends : Ending → Supervisor → Round

-- `failStreak` and `totalRestarts` after an attempt that ended by itself.
unfoldable pub count_attempt : Bool → Supervisor → Supervisor
count_attempt produced s = record s {
  fail_streak = if produced then 0 else s.fail_streak + 1;
  total_restarts = s.total_restarts + 1;
}

abbrev pub give_up : Supervisor → Supervisor
give_up s = record s { gave_up = true }

unfoldable pub backoff : Supervisor → ℕ
backoff s = min (seconds ((s.fail_streak + 1) * 2)) max_restart_backoff

-- From the pause to the next recorder.
unfoldable pub restart : Attempt → Supervisor → Round
unfolding backoff
restart r s =
    let t = record s { attempt = s.attempt + 1 } in
    if r.stop_in_backoff
    then ends stopped s
    else if r.next_starts
    then restarts (backoff s) t
    else ends restart_failed (give_up t)

-- The limits, after the counters have moved.
unfoldable pub judge : Attempt → Supervisor → Round
unfolding restart
judge r s =
    if leb s.max_attempts s.fail_streak
    then ends unproductive (give_up s)
    else if leb (s.max_attempts * max_total_restart_multiplier) s.total_restarts
    then ends too_many_restarts (give_up s)
    else restart r s

unfoldable pub round : Attempt → Supervisor → Round
unfolding judge count_attempt
round r s =
    if r.was_stopped
    then ends stopped s
    else if r.stop_seen
    then ends stopped s
    else judge r (count_attempt r.produced_any s)

unfoldable pub start : ℕ → Supervisor
unfolding effective_max_attempts
start max_attempts = record {
  max_attempts = effective_max_attempts max_attempts;
  attempt = 1;
  fail_streak = 0;
  total_restarts = 0;
  gave_up = false;
}

-- The loop, over the reports of the attempts that it would make: the ending, or `none` if it is
-- still running after the last report.
unfoldable pub run : List Attempt → Supervisor → Supervisor × Option Ending
unfolding round
run [] s = (s, none)
run (r ∷ rs) s = elim (round r s) [ ends why t ↦ (t, some why) | restarts pause t ↦ run rs t ]
