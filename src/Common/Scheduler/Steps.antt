-- ===== src/Common/Scheduler/Steps.antt =====
-- What can happen to a scheduler, one step after another in any order.
use mine_net.Base.{ℕ, ◌<◌, ◌≡◌, List, ◌∷◌, ◌++◌, String, ok}
use mine_net.Common.TaskHeap.{Task}
use mine_net.Common.Scheduler.{
  Scheduler, new_scheduler, add_task, remove_task, start, stop, run_round, run_task,
}

-- A goroutine ends wherever its task stands among the running ones. `Allowed` limits the calls of
-- RemoveTask.
pub data Step (Allowed : Scheduler → String → Type 0) : Scheduler → Scheduler → Type 0 where
  adds : (t : Task) (s : Scheduler) → Step Allowed s (add_task t s)
  removes : (id : String) (s : Scheduler) → Allowed s id → Step Allowed s (remove_task id s)
  starts : (s : Scheduler) → Step Allowed s (start s)
  stops : (s : Scheduler) → Step Allowed s (stop s)
  rounds : (now : ℕ) (s : Scheduler) → 0 < s.loops → Step Allowed s ((run_round now s).1)
  finishes :
      (now : ℕ) (s s' : Scheduler) (t : Task) (before after : List Task)
      → s.running ≡ before ++ (t ∷ after)
      → run_task now t (record s { running = before ++ after }) ≡ ok s'
      → Step Allowed s s'

pub data Reachable (Allowed : Scheduler → String → Type 0) : Scheduler → Type 0 where
  fresh : Reachable Allowed new_scheduler
  next : {s s' : Scheduler} → Reachable Allowed s → Step Allowed s s' → Reachable Allowed s'

-- Any call of RemoveTask.
abbrev pub Any : Scheduler → String → Type 0
Any s id = Unit
