-- ===== src/Common/Scheduler/Calendar.antt =====
-- common/scheduler.go's daily and weekly tasks. Package time's calendar is a parameter.
use Prim.Native.String.{◌++◌}
use mine_net.Base.Map.{lookup, insert}
use mine_net.Base.{
  panic, ap, ◌∙◌, ◌<◌, ℕ, ◌+◌, ◌-◌, ◌*◌, ◌%◌, ◌<◌, ◌≤◌, ◌≡◌, true, String, ltb, leb, arith,
  if◌then◌else◌,
}
use mine_net.Common.TaskHeap.{Task, nil_function, push, pop, up, down, swap}
use mine_net.Common.Scheduler.{new_scheduler, add_task, start, run_round, run_task, started}

-- `start_of_day now` is time.Date with now's day and the time 0:00. Sunday is weekday 0.
pub record Calendar : Type 0 where
  pub start_of_day : ℕ → ℕ
  pub weekday : ℕ → ℕ
  pub add_days : ℕ → ℕ → ℕ
  pub weekday-lt : (t : ℕ) → weekday t < 7
  pub start_of_day-le : (t : ℕ) → start_of_day t ≤ t
  pub weekday-start_of_day : (t : ℕ) → weekday (start_of_day t) ≡ weekday t
  pub weekday-add_days : (t d : ℕ) → weekday (add_days t d) ≡ (weekday t + d) % 7
  pub add_days-lt : (t d : ℕ) → t < add_days (start_of_day t) (d + 1)

abbrev pub day : ℕ
day = 24 * 60 * 60 * 1000000000

-- `days` of getNextWeekResetTime; Monday is weekday 1.
abbrev pub days_to_monday : ℕ → ℕ
days_to_monday weekday = if leb 1 weekday then 1 + 7 - weekday else 1 - weekday

days_to_monday-split :
    (w : ℕ)
    → w < 7
    → (d : ℕ) × (d < 7) × (days_to_monday w ≡ d + 1) × ((w + days_to_monday w) % 7 ≡ 1)
days_to_monday-split w p = (days_to_monday w - 1, ground arith, ground arith, ground arith)

module _ (c : Calendar) where
  unfoldable pub next_day_reset : ℕ → ℕ
  next_day_reset now = let next = c.start_of_day now in if ltb next now then next + day else next

  unfoldable pub next_week_reset : ℕ → ℕ
  next_week_reset now = c.add_days (c.start_of_day now) (days_to_monday (c.weekday now))

  -- A GameTask is its BaseTask here; nothing reads the other fields. No function is given.
  unfoldable pub new_daily_reset_task : ℕ → String → Task
  new_daily_reset_task now player_id = record {
    id = "daily_reset_" ++ player_id;
    next_time = next_day_reset now;
    execute = nil_function;
    is_repeat = true;
    interval = day;
  }

  unfoldable pub new_weekly_task : ℕ → String → Task
  new_weekly_task now player_id = record {
    id = "weekly_task_" ++ player_id;
    next_time = next_week_reset now;
    execute = nil_function;
    is_repeat = true;
    interval = 7 * day;
  }

  -- The daily time is the next start of a day, if today is no longer than 24 hours.
  pub next_day_reset_lem :
      (now : ℕ)
      → now ≤ c.start_of_day now + day
      → (now ≤ next_day_reset now) × (next_day_reset now < now + day)
  unfolding next_day_reset
  next_day_reset_lem now p = ground (arith, c.start_of_day-le now)

  -- The weekly time is a Monday after now, one to seven days after today's start.
  next_week_reset_lem :
      (now : ℕ)
      → (c.weekday (next_week_reset now) ≡ 1)
        × (now < next_week_reset now)
        × ((d : ℕ) × (d < 7) × (next_week_reset now ≡ c.add_days (c.start_of_day now) (d + 1)))
  unfolding next_week_reset
  next_week_reset_lem now =
      let today = c.start_of_day now in
      let w = c.weekday now in
      let days = days_to_monday-split w (c.weekday-lt now) in
      let monday : c.weekday (next_week_reset now) ≡ 1 =
        c.weekday-add_days today (days_to_monday w)
        ∙ ap (λ (v : ℕ). (v + days_to_monday w) % 7) (c.weekday-start_of_day now)
        ∙ days.3 in
      let counted : next_week_reset now ≡ c.add_days today (days.0 + 1) =
        ap (c.add_days today) (days.2) in
      (monday, omega (arith, counted, c.add_days-lt now (days.0)), (days.0, days.1, counted))

  -- A daily task alone on a running scheduler is started by the first round at or after its time,
  -- and its goroutine panics.
  pub daily_panics :
      (now later ending : ℕ) (player_id : String)
      → next_day_reset now ≤ later
      → let t = new_daily_reset_task now player_id in
        let round = run_round later (start (add_task t new_scheduler)) in
        (round.0 ≡ started t) × (run_task ending t (round.1) ≡ panic)
  unfolding new_daily_reset_task add_task start run_round run_task push up lookup insert pop down
      swap
  daily_panics now later ending player_id p = ground arith
