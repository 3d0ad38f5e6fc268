-- ===== src/Task.antt =====
-- task/task.go: RunTask, PeriodicTask and ScheduleDailyTask. How each call of the task ends is given by the
-- environment, as are the readings of the clock and the choices of a select. Instants are nanoseconds.
mod Daily
mod Tests
use utils_go.Base.{ℕ, suc, ◌+◌, ◌-◌, Bool, true, false, List, [], ◌∷◌, ltb, if◌then◌else◌}

-- How a call of the task ends.
pub data Run : Type 0 where
  returned : Run
  panicked : Run

-- What becomes of the loop: it goes on, it is cancelled or done, or its panic is recovered and logged.
pub data Status : Type 0 where
  going : Status
  finished : Status
  recovered : Status

unfoldable pub run_task : Run → Status
run_task returned = finished
run_task panicked = recovered

-- The ready case that the select takes.
pub data Picked : Type 0 where
  done : Picked
  elapsed : Picked

pub record Turn : Type 0 where
  pub run : Run
  pub picked : Picked

-- The number of calls of the task, and what becomes of the loop.
unfoldable pub periodic_task : List Turn → ℕ × Status
periodic_task [] = (0, going)
periodic_task (t ∷ turns) =
    let rest = periodic_task turns in
    elim t.run [
      | panicked ↦ (1, recovered)
      | returned ↦ elim t.picked [ done ↦ (1, finished) | elapsed ↦ (suc rest.0, rest.1) ]
    ]

-- 24 * time.Hour
abbrev pub day : ℕ
day = 86400000000000

-- A round of the daily loop: the reading of the clock, and how fn ends after the sleep.
pub record Round : Type 0 where
  pub now : ℕ
  pub run : Run

-- A call of fn at an instant, before the later rounds, which a panic leaves out.
unfoldable pub run_then : Run → ℕ → List ℕ × Status → List ℕ × Status
run_then returned start later = (start ∷ later.0, later.1)
run_then panicked start later = (start ∷ [], recovered)

-- `date now` is time.Date of the day of now at the hour, minute and second, in the location of now.
module _ (date : ℕ → ℕ) where
  unfoldable pub next_run : ℕ → ℕ
  next_run now = let next = date now in if ltb next now then next + day else next

  -- next.Sub(now), which is never negative
  unfoldable pub sleep_time : ℕ → ℕ
  unfolding next_run
  sleep_time now = next_run now - now

  -- The instants at which the sleeps before the calls of fn end, and what becomes of the loop.
  unfoldable pub schedule_daily_task : List Round → List ℕ × Status
  unfolding sleep_time run_then
  schedule_daily_task [] = ([], going)
  schedule_daily_task (r ∷ rounds) =
      run_then r.run (r.now + sleep_time r.now) (schedule_daily_task rounds)
