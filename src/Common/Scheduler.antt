-- ===== src/Common/Scheduler.antt =====
-- common/scheduler.go's Scheduler: the tasks, the map of their names, the run loops and the goroutines
-- that run a task. Each operation runs under the scheduler's mutex, so it is one step. Times are
-- nanoseconds; the clock's reading is an argument.
pub mod Steps
pub mod Spec
pub mod Refines
pub mod Rounds
pub mod Tracking
pub mod Calendar
pub mod Tests
use mine_net.Base.{
  ℕ, ◌+◌, ◌-◌, Bool, true, false, Option, none, some, List, [], ◌∷◌, String, length, Outcome, ok,
  panic, ◌>>=◌, ltb, ◌==◌, if◌then◌else◌,
}
use mine_net.Base.Map.{Map, lookup, insert, erase, string_key}
use text.Mathlib.Text.{◌==◌ as str_eq}
use mine_net.Common.TaskHeap.{Task, Execute, nil_function, function, push, pop, init}

-- `cancelled` is the context's state; `loops` counts the goroutines in run, and `running` holds the
-- tasks whose goroutine has not ended.
pub record Scheduler : Type 0 where
  pub tasks : List Task
  pub task_map : Map String Task
  pub cancelled : Bool
  pub loops : ℕ
  pub running : List Task

abbrev pub new_scheduler : Scheduler
new_scheduler = record { tasks = []; task_map = []; cancelled = false; loops = 0; running = [] }

-- AddTask behind its lookup.
abbrev pub add_unless : Option Task → Task → Scheduler → Scheduler
add_unless (some old) t s = s
add_unless none t s = record s { tasks = push s.tasks t; task_map = insert t.id t s.task_map }

unfoldable pub add_task : Task → Scheduler → Scheduler
add_task t s = add_unless (lookup t.id s.task_map) t s

-- RemoveTask's loop.
abbrev pub has_id : String → Task → Bool
has_id id t = str_eq t.id id

abbrev pub without : (Task → Bool) → List Task → List Task
without test [] = []
without test (t ∷ h) = if test t then without test h else t ∷ without test h

unfoldable pub remove_task : String → Scheduler → Scheduler
remove_task id s = record s {
  tasks = init (without (has_id id) s.tasks);
  task_map = erase id s.task_map;
}

unfoldable pub start : Scheduler → Scheduler
start s = record s { loops = s.loops + 1 }

unfoldable pub stop : Scheduler → Scheduler
stop s = record s { cancelled = true }

-- What one round of the loop in run comes to.
pub data Round : Type 0 where
  ended slept : Round
  started : Task → Round

-- The round's part behind heap.Pop.
abbrev pub dispatch : ℕ → Task → List Task → Scheduler → Round × Scheduler
dispatch now t rest s =
    if ltb now t.next_time
    then (slept, record s { tasks = push rest t })
    else (started t, record s { tasks = rest; running = t ∷ s.running })

unfoldable pub run_round : ℕ → Scheduler → Round × Scheduler
run_round now s =
    let popped = pop s.tasks in
    if s.cancelled
    then (ended, record s { loops = s.loops - 1 })
    else if length s.tasks == 0
    then (slept, s)
    else dispatch now (popped.0) (popped.1) s

-- Execute calls the function, and a nil function panics. An error is logged, and changes nothing.
abbrev pub call : Execute → Outcome String (Unit {0})
call nil_function = panic
call (function f) = ok tt

-- The task that a repeated one leaves, which calls the same function.
abbrev pub rescheduled : ℕ → Task → Task
rescheduled now t = record t { next_time = now + t.interval; is_repeat = true }

abbrev pub after_execute : ℕ → Task → Scheduler → Scheduler
after_execute now t s =
    if t.is_repeat
    then record s { tasks = push s.tasks (rescheduled now t) }
    else record s { task_map = erase t.id s.task_map }

-- The goroutine of a task; nothing recovers its panic, which ends the program.
unfoldable pub run_task : ℕ → Task → Scheduler → Outcome String Scheduler
run_task now t s = call t.execute >>= λ done. ok (after_execute now t s)

abbrev pub new_task : String → ℕ → Execute → Task
new_task id execute_time f = record {
  id = id;
  next_time = execute_time;
  execute = f;
  is_repeat = false;
  interval = 0;
}

abbrev pub new_repeat_task : ℕ → String → ℕ → Execute → Task
new_repeat_task now id interval f = record {
  id = id;
  next_time = now + interval;
  execute = f;
  is_repeat = true;
  interval = interval;
}
