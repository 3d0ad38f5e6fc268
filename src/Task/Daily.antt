-- ===== src/Task/Daily.antt =====
-- task/task.go: when ScheduleDailyTask runs its task.
use utils_go.Base.{
  ℕ, zero, suc, ◌+◌, ◌*◌, ◌≤◌, ◌<◌, ◌≡◌, refl, ap, ◌∙◌, List, [], ◌∷◌, arith, ltb, Bool-cases, inl,
  inr, if◌then◌else◌,
}
use utils_go.Task.{
  Run, returned, panicked, Status, going, recovered, day, Round, run_then, next_run, sleep_time,
  schedule_daily_task,
}

-- In a location whose clocks are never changed, the instants that time.Date gives are whole days apart,
-- and the one for the day of now is less than a day away.
pub record IsFixed (date : ℕ → ℕ) : Type 0 where
  pub first : ℕ
  pub days : (now : ℕ) → (k : ℕ) × (date now ≡ first + k * day)
  pub low : (now : ℕ) → now < date now + day
  pub high : (now : ℕ) → date now < now + day

-- Each reading of the clock is after the instant that was due, by at most a day.
abbrev pub OnTime : ℕ → List Round → Type 0
OnTime due [] = Unit
OnTime due (r ∷ rounds) = (due < r.now) × (r.now ≤ due + day) × OnTime (due + day) rounds

-- n instants, a day apart.
unfoldable pub every_day : ℕ → ℕ → List ℕ
every_day due zero = []
every_day due (suc n) = due ∷ every_day (due + day) n

unfoldable count_then : Run → ℕ × Status → ℕ × Status
count_then returned later = (suc later.0, later.1)
count_then panicked later = (1, recovered)

-- The number of calls up to the first that panics, and what becomes of the loop.
unfoldable pub calls : List Round → ℕ × Status
unfolding count_then
calls [] = (0, going)
calls (r ∷ rounds) = count_then r.run (calls rounds)

run_then-every_day :
    (run : Run) (start : ℕ) (later : ℕ × Status)
    → run_then run start (every_day (start + day) later.0, later.1)
      ≡ (every_day start (count_then run later).0, (count_then run later).1)
unfolding run_then count_then every_day
run_then-every_day returned start later = refl
run_then-every_day panicked start later = refl

module _ (date : ℕ → ℕ) (fixed : IsFixed date) where
  next_run_bounds : (now : ℕ) → (now ≤ next_run date now) × (next_run date now < now + day)
  unfolding next_run
  next_run_bounds now = let low = fixed.low now in let high = fixed.high now in ground arith

  next_run_days : (now : ℕ) → (k : ℕ) × (next_run date now ≡ fixed.first + k * day)
  unfolding next_run
  next_run_days now =
      let (k, at) = fixed.days now in
      elim (Bool-cases (ltb (date now) now)) [
        | inl past ↦ (suc k, ap (λ b. if b then date now + day else date now) past ∙ omega arith)
        | inr ahead ↦ (k, ap (λ b. if b then date now + day else date now) ahead ∙ at)
      ]

  -- The next reading leads to the instant a day after the one that was due.
  next_run_step :
      (due now : ℕ) (j : ℕ)
      → due ≡ fixed.first + j * day
      → due < now
      → now ≤ due + day
      → next_run date now ≡ due + day
  next_run_step due now j at after before =
      let (low, high) = next_run_bounds now in let (k, next_at) = next_run_days now in omega arith

  start_at : (now : ℕ) → now + sleep_time date now ≡ next_run date now
  unfolding sleep_time
  start_at now = let (low, high) = next_run_bounds now in omega arith

  schedule_at :
      (due j : ℕ)
      → due ≡ fixed.first + j * day
      → (r : Round) (rounds : List Round) → next_run date r.now ≡ due
      → OnTime due rounds
      → schedule_daily_task date (r ∷ rounds)
        ≡ (every_day due (calls (r ∷ rounds)).0, (calls (r ∷ rounds)).1)
  unfolding schedule_daily_task calls every_day
  schedule_at due j at r [] first on_time =
      ap (λ n. run_then r.run n ([], going)) (start_at r.now ∙ first)
      ∙ run_then-every_day r.run due (0, going)
  schedule_at due j at r (q ∷ rounds) first (after, before, later) =
      let next = next_run_step due q.now j at after before in
      let ih = schedule_at (due + day) (suc j) (omega arith) q rounds next later in
      ap (λ n. run_then r.run n (schedule_daily_task date (q ∷ rounds))) (start_at r.now ∙ first)
      ∙ ap (run_then r.run due) ih
      ∙ run_then-every_day r.run due (calls (q ∷ rounds))

  -- In a location whose clocks are never changed, where each later reading of the clock is after the last
  -- due instant by at most a day: ScheduleDailyTask first calls fn at the daily instant that is next from
  -- the first reading, then once a day at that instant, up to and with the first call that panics, which
  -- ends the schedule.
  pub schedule_daily_task_lem :
      (r : Round) (rounds : List Round)
      → OnTime (next_run date r.now) rounds
      → ((r.now ≤ next_run date r.now) × (next_run date r.now < r.now + day))
        × ((k : ℕ) × (next_run date r.now ≡ fixed.first + k * day))
        × (schedule_daily_task date (r ∷ rounds)
            ≡ (every_day (next_run date r.now) (calls (r ∷ rounds)).0, (calls (r ∷ rounds)).1))
  schedule_daily_task_lem r rounds on_time =
      let (j, at) = next_run_days r.now in
      (next_run_bounds r.now, (j, at), schedule_at (next_run date r.now) j at r rounds refl on_time)
