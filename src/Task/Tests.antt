-- ===== src/Task/Tests.antt =====
-- task/task.go: the daily schedule at concrete readings of the clock.
use utils_go.Base.{ℕ, ◌+◌, ◌*◌, ◌/◌, ◌≤◌, ◌<◌, ◌≡◌, refl, List, [], ◌∷◌, arith}
use utils_go.Task.{
  returned, panicked, recovered, finished, done, elapsed, day, Round, next_run, periodic_task,
  schedule_daily_task,
}
use utils_go.Task.Daily.{IsFixed, schedule_daily_task_lem, every_day, calls}

-- Noon in UTC.
abbrev noon : ℕ → ℕ
noon now = 43200000000000 + (now / day) * day

abbrev noon-IsFixed : IsFixed noon
noon-IsFixed = record {
  first = 43200000000000;
  days = λ now. (now / day, refl);
  low = λ now. omega arith;
  high = λ now. omega arith;
}

-- At one o'clock, and a second after each of the next two noons; the second call panics.
abbrev at_one : Round
at_one = record { now = 46800000000000; run = returned }

abbrev later_rounds : List Round
later_rounds =
    record { now = 129601000000000; run = panicked }
    ∷ record { now = 216001000000000; run = returned }
    ∷ []

schedule_daily_task_lem_example :
    ((at_one.now ≤ next_run noon at_one.now) × (next_run noon at_one.now < at_one.now + day))
    × ((k : ℕ) × (next_run noon at_one.now ≡ 43200000000000 + k * day))
    × (schedule_daily_task noon (at_one ∷ later_rounds) ≡ (
      every_day (next_run noon at_one.now) (calls (at_one ∷ later_rounds)).0,
      (calls (at_one ∷ later_rounds)).1,
    ))
unfolding next_run
schedule_daily_task_lem_example =
    schedule_daily_task_lem noon noon-IsFixed at_one later_rounds
      (omega arith, omega arith, (omega arith, omega arith, tt))

two_noons :
    schedule_daily_task noon (at_one ∷ later_rounds)
    ≡ (129600000000000 ∷ 216000000000000 ∷ [], recovered)
unfolding schedule_daily_task next_run
two_noons = refl

-- The task runs once more than the waits that end before the context is done.
two_turns :
    periodic_task
      (record { run = returned; picked = elapsed } ∷ record { run = returned; picked = done } ∷ [])
    ≡ (2, finished)
unfolding periodic_task
two_turns = refl
