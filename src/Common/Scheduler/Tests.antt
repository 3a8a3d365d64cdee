-- ===== src/Common/Scheduler/Tests.antt =====
-- Runs of the scheduler, and its theorems at concrete schedulers.
use mine_net.Base.{◌+◌, ◌-◌, ◌*◌, ◌/◌, ◌%◌, ◌≡◌, refl, [], ◌∷◌, String, panic, ok, length, arith}
use mine_net.Base.Map.{lookup, string_key, insert, erase}
use mine_net.Common.TaskHeap.{Task, function, push, pop, up, down, swap, init, init_loop}
use mine_net.Common.TaskHeap.Order.{IsHeap}
use mine_net.Common.Scheduler.{
  Scheduler, started, new_scheduler, add_task, remove_task, start, run_round, run_task, new_task,
  new_repeat_task,
}
use mine_net.Common.Scheduler.Steps.{adds, starts, rounds, Reachable, fresh, next, Any}
use mine_net.Common.Scheduler.Spec.{plan, PlanStep}
use mine_net.Common.Scheduler.Refines.{Step-refines, Reachable-IsHeap}
use mine_net.Common.Scheduler.Rounds.{IsGood, due, rounds_at, rounds_at-due}
use mine_net.Common.Scheduler.Tracking.{copies, mapped, Quiet, copies_exact}
use mine_net.Common.Scheduler.Calendar.{
  Calendar, day, next_day_reset, new_daily_reset_task, daily_panics,
}

abbrev save : Task
save = new_task "save" 7 (function 0)

abbrev beat : Task
beat = new_repeat_task 0 "beat" 3 (function 1)

abbrev late : Task
late = new_task "late" 90 (function 2)

-- Three tasks and a run loop.
abbrev busy : Scheduler
busy = start (add_task beat (add_task late (add_task save new_scheduler)))

busy-Reachable : (P : Scheduler → String → Type 0) → Reachable P busy
busy-Reachable P =
    next (next (next (next fresh (adds save _)) (adds late _)) (adds beat _)) (starts _)

busy-IsGood : IsGood busy
unfolding add_task start lookup insert
busy-IsGood = record { heap = Reachable-IsHeap busy (busy-Reachable Any); active = refl }

busy_tasks : busy.tasks ≡ beat ∷ late ∷ save ∷ []
unfolding add_task start lookup insert push up swap
busy_tasks = refl

-- The repeated task is first, then the one-time task; the late one stays.
first_round : (run_round 8 busy).0 ≡ started beat
unfolding add_task start lookup insert push up swap run_round pop down
first_round = refl

three_rounds : (rounds_at 3 8 busy).running ≡ save ∷ beat ∷ []
unfolding add_task start lookup insert push up swap run_round pop down rounds_at
three_rounds = refl

removed : (remove_task "beat" busy).tasks ≡ save ∷ late ∷ []
unfolding add_task start lookup insert push up swap remove_task init init_loop down
removed = refl

-- RemoveTask while the repeated task runs: the task comes back, and its name is free.
abbrev removed_late : Scheduler
removed_late = remove_task "beat" ((run_round 8 busy).1)

comes_back :
    run_task 9 beat removed_late
    ≡ ok (record removed_late { tasks = save ∷ late ∷ (record beat { next_time = 12 }) ∷ [] })
unfolding add_task start lookup insert erase push up swap remove_task init init_loop down run_round
    pop run_task
comes_back = refl

Step-refines_example :
    PlanStep (plan busy) (plan ((run_round 8 busy).1)) × IsHeap ((run_round 8 busy).1).tasks
unfolding add_task start lookup insert
Step-refines_example =
    Step-refines {Allowed = Any} busy ((run_round 8 busy).1)
      (Reachable-IsHeap busy (busy-Reachable Any)) (rounds 8 busy (omega arith))

rounds_at-due_example :
    (due 8 (rounds_at 3 8 busy) ≡ due 8 busy - 3)
    × (length (rounds_at 3 8 busy).running + due 8 (rounds_at 3 8 busy)
        ≡ length busy.running + due 8 busy)
unfolding add_task start lookup insert
rounds_at-due_example = rounds_at-due 3 8 busy (Reachable-IsHeap busy (busy-Reachable Any)) refl

copies_exact_example : copies "beat" busy ≡ mapped (lookup "beat" busy.task_map)
copies_exact_example = copies_exact busy "beat" (busy-Reachable Quiet)

-- Coordinated universal time: every day has 24 hours; 1 January 1970 was a Thursday.
abbrev utc : Calendar
utc = record {
  start_of_day = λ t. t / 86400000000000 * 86400000000000;
  weekday = λ t. (t / 86400000000000 + 4) % 7;
  add_days = λ t d. t + d * 86400000000000;
  weekday-lt = λ t. omega arith;
  start_of_day-le = λ t. omega arith;
  weekday-start_of_day = λ t. omega arith;
  weekday-add_days = λ t d. omega arith;
  add_days-lt = λ t d. omega arith;
}

daily_panics_example :
    let t = new_daily_reset_task utc 5 "ann" in
    let round = run_round day (start (add_task t new_scheduler)) in
    (round.0 ≡ started t) × (run_task day t (round.1) ≡ panic)
unfolding next_day_reset
daily_panics_example = daily_panics utc 5 day day "ann" (omega arith)
