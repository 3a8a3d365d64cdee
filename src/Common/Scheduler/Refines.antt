-- ===== src/Common/Scheduler/Refines.antt =====
-- Each step of the scheduler is one of its plan, and keeps the tasks a heap.
use mathlib.Core.Path.{subst}
use mine_net.Base.{
  if-cases, ◌∙◌, ℕ, ◌<◌, ◌≡◌, refl, sym, ap, false, none, some, List, ◌∷◌, ◌++◌, length, String,
  Option-cases, inl, inr, ltb, ◌==◌, arith, ok, ◌>>=◌,
}
use mine_net.Base.Map.{string_key, lookup, insert, erase}
use mine_net.Common.TaskHeap.{Task, Execute, nil_function, function, push, pop}
use mine_net.Common.TaskHeap.Order.{IsHeap}
use mine_net.Common.TaskHeap.Up.{push-IsHeapOf}
use mine_net.Common.TaskHeap.Down.{init-IsHeapOf}
use mine_net.Common.TaskHeap.Pop.{IsPopped, pop-IsPopped}
use mine_net.Common.TaskHeap.Contents.{
  contents, put, count, count-first, is_before, count-not_due_empty, contents-put_back,
  count-not_due, contents-push, contents-init,
}
use mine_net.Common.Scheduler.{
  start, stop, add_unless, Scheduler, add_task, remove_task, run_round, run_task, Round, dispatch,
  call, after_execute, rescheduled, without, has_id,
}
use mine_net.Common.Scheduler.Steps.{
  Step, adds, removes, starts, stops, rounds, finishes, Reachable, fresh, next,
}
use mine_net.Common.Scheduler.Spec.{
  leave, plan, PlanStep, ignored, added, removed, opened, stopped, over, idle, took, repeated,
  finished,
}

-- A step of the plan that ends with a heap.
abbrev pub Refines : Scheduler → Scheduler → Type 0
Refines s s' = PlanStep (plan s) (plan s') × IsHeap s'.tasks

pub add_task_known :
    (t old : Task) (s : Scheduler) → lookup t.id s.task_map ≡ some old → add_task t s ≡ s
unfolding add_task
add_task_known t old s e = ap (λ o. add_unless o t s) e

pub add_task_new :
    (t : Task) (s : Scheduler)
    → lookup t.id s.task_map ≡ none
    → add_task t s ≡ record s { tasks = push s.tasks t; task_map = insert t.id t s.task_map }
unfolding add_task
add_task_new t s e = ap (λ o. add_unless o t s) e

add_task-Refines : (t : Task) (s : Scheduler) → IsHeap s.tasks → Refines s (add_task t s)
add_task-Refines t s h = elim (Option-cases (lookup t.id s.task_map)) [
  | inr (old, e) ↦ rw (add_task_known t old s e) (ignored (plan s) t.id old e, h)
  | inl e ↦ rw (add_task_new t s e) (
    subst (λ b. PlanStep (plan s) (record (plan s) { bag = b; names = insert t.id t s.task_map }))
        (sym (contents-push s.tasks t h)) (added (plan s) t e),
    (push-IsHeapOf s.tasks t h).0,
  )
]

remove_task-Refines : (id : String) (s : Scheduler) → Refines s (remove_task id s)
unfolding remove_task leave
remove_task-Refines id s =
    let rest = without (has_id id) s.tasks in
    (
      subst (λ b. PlanStep (plan s) (record (plan s) { bag = b; names = erase id s.task_map }))
          (sym (contents-init rest)) (removed (plan s) id),
      (init-IsHeapOf rest).0,
    )

dispatch-Refines :
    (now : ℕ) (t : Task) (rest : List Task) (s : Scheduler)
    → IsHeap s.tasks
    → 0 < length s.tasks
    → s.cancelled ≡ false
    → IsPopped s.tasks t rest
    → Refines s ((dispatch now t rest s).1)
dispatch-Refines now t rest s h n c q =
    let whole : put t (contents rest) ≡ contents s.tasks =
      contents-put_back t rest s.tasks q.same in
    if-cases (λ (r : Round × Scheduler). Refines s (r.1)) (ltb now t.next_time)
      (λ early. (
        subst (λ b. PlanStep (plan s) (record (plan s) { bag = b }))
            (sym (contents-push rest t q.ordered ∙ whole))
            (idle now (plan s) c (count-not_due now s.tasks h (ground (arith, q.first)))),
        (push-IsHeapOf rest t q.ordered).0,
      ))
      (λ due. (
        took now t (contents rest) (plan s) c (sym whole)
            (subst (λ u. count (is_before u.next_time) (contents s.tasks) ≡ 0) (sym q.first)
              (count-first s.tasks h))
            (ground arith),
        q.ordered,
      ))

run_round-Refines : (now : ℕ) (s : Scheduler) → IsHeap s.tasks → Refines s ((run_round now s).1)
unfolding run_round
run_round-Refines now s h =
    if-cases (λ (r : Round × Scheduler). Refines s (r.1)) s.cancelled (λ e. (over (plan s) e, h))
      (λ c.
        if-cases (λ (r : Round × Scheduler). Refines s (r.1)) (length s.tasks == 0)
          (λ e. (idle now (plan s) c (count-not_due_empty now s.tasks (ground arith)), h))
          (λ e.
            let n : 0 < length s.tasks = ground arith in
            dispatch-Refines now ((pop s.tasks).0) ((pop s.tasks).1) s h n c
              (pop-IsPopped s.tasks n h)))

-- The part of a goroutine behind Execute, with the running tasks it leaves.
after_execute-Refines :
    (now f : ℕ) (t : Task) (before after : List Task) (s : Scheduler)
    → IsHeap s.tasks
    → s.running ≡ before ++ (t ∷ after)
    → t.execute ≡ function f
    → Refines s (after_execute now t (record s { running = before ++ after }))
after_execute-Refines now f t before after s h e x =
    if-cases (Refines s) t.is_repeat
      (λ r.
        let again = rescheduled now t in
        (
          subst (λ b. PlanStep (plan s) (record (plan s) { bag = b; running = before ++ after }))
              (sym (contents-push s.tasks again h)) (repeated now f t before after (plan s) e r x),
          (push-IsHeapOf s.tasks again h).0,
        ))
      (λ r. (finished f t before after (plan s) e r x, h))

called :
    (x : Execute) {u s' : Scheduler}
    → (call x >>= λ done. ok u) ≡ ok s'
    → (f : ℕ) × (x ≡ function f) × (s' ≡ u)
called nil_function e = cc
called (function f) e = (f, refl, cc)

-- A goroutine that ends had a function to call.
pub run_task-inv :
    (now : ℕ) (t : Task) (s s' : Scheduler)
    → run_task now t s ≡ ok s'
    → (f : ℕ) × (t.execute ≡ function f) × (s' ≡ after_execute now t s)
unfolding run_task
run_task-inv now t s s' e = called t.execute e

pub Step-refines :
    {Allowed : Scheduler → String → Type 0} (s s' : Scheduler)
    → IsHeap s.tasks
    → Step Allowed s s'
    → PlanStep (plan s) (plan s') × IsHeap s'.tasks
unfolding start stop
Step-refines _ _ h (adds t s) = add_task-Refines t s h
Step-refines _ _ h (removes id s a) = remove_task-Refines id s
Step-refines _ _ h (starts s) = (opened (plan s), h)
Step-refines _ _ h (stops s) = (stopped (plan s), h)
Step-refines _ _ h (rounds now s l) = run_round-Refines now s h
Step-refines _ _ h (finishes now s s' t before after e r) =
    let called = run_task-inv now t (record s { running = before ++ after }) s' r in
    subst (Refines s) (sym called.2)
      (after_execute-Refines now (called.0) t before after s h e (called.1))

pub Reachable-IsHeap :
    {Allowed : Scheduler → String → Type 0} (s : Scheduler) → Reachable Allowed s → IsHeap s.tasks
Reachable-IsHeap _ fresh = λ c p q r. absurd (omega arith)
Reachable-IsHeap _ (next {s} {s'} r step) = (Step-refines s s' (Reachable-IsHeap s r) step).1
