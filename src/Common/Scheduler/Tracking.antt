-- ===== src/Common/Scheduler/Tracking.antt =====
-- How the map of names and the tasks go together.
use mine_net.Base.{
  if-cases, ℕ, suc, ◌+◌, ◌≤◌, ◌≡◌, refl, sym, ◌∙◌, ap, Bool, List, [], ◌∷◌, ◌++◌, Option, none,
  some, Option-cases, Bool-cases, inl, inr, length, ltb, ◌==◌, arith, if◌then◌else◌, String,
}
use mine_net.Base.Map.{string_key, lookup, insert, lookup-insert, lookup-erase}
use text.Mathlib.Text.{◌==◌ as str_eq}
use text.Mathlib.TextEquality.{eq_iff}
use mathlib.Core.Path.{subst}
use mine_net.Common.TaskHeap.{Task, push, pop, init}
use mine_net.Common.TaskHeap.Order.{IsHeap}
use mine_net.Common.TaskHeap.Up.{push-IsHeapOf}
use mine_net.Common.TaskHeap.Down.{init-IsHeapOf}
use mine_net.Common.TaskHeap.Pop.{IsPopped, pop-IsPopped}
use mine_net.Common.TaskHeap.Contents.{tally, tally-perm}
use mine_net.Common.Scheduler.{
  Scheduler, Round, add_task, remove_task, start, stop, dispatch, run_round, after_execute,
  rescheduled, has_id, without,
}
use mine_net.Common.Scheduler.Steps.{
  Step, adds, removes, starts, stops, rounds, finishes, Reachable, fresh, next, Any,
}
use mine_net.Common.Scheduler.Refines.{add_task_known, add_task_new, run_task-inv, Reachable-IsHeap}

-- How many tasks of the name wait or run.
abbrev pub copies : String → Scheduler → ℕ
copies id s = tally (has_id id) s.tasks + tally (has_id id) s.running

-- 1 for a name in the map, 0 for another.
abbrev pub mapped : Option Task → ℕ
mapped none = 0
mapped (some t) = 1

tally-append :
    (test : Task → Bool) (g h : List Task) → tally test (g ++ h) ≡ tally test g + tally test h
tally-append test [] h = omega arith
tally-append test (t ∷ g) h = omega (arith, tally-append test g h)

tally-without :
    (a id : String) (h : List Task)
    → tally (has_id a) (without (has_id id) h) ≡ (if str_eq a id then 0 else tally (has_id a) h)
tally-without a id [] = ground arith
tally-without a id (t ∷ h) =
    ground (arith, eq_iff a id, eq_iff t.id a, eq_iff t.id id, tally-without a id h)

-- What a step does to a name: nothing, or it takes it in, drops it, or ends its task.
data Change (Allowed : Scheduler → String → Type 0) (a : String) (s s' : Scheduler) : Type 0 where
  same :
      copies a s' ≡ copies a s
      → mapped (lookup a s'.task_map) ≡ mapped (lookup a s.task_map)
      → Change Allowed a s s'
  taken_in :
      copies a s' ≡ suc (copies a s)
      → mapped (lookup a s.task_map) ≡ 0
      → mapped (lookup a s'.task_map) ≡ 1
      → Change Allowed a s s'
  dropped :
      Allowed s a
      → copies a s' ≡ tally (has_id a) s.running
      → mapped (lookup a s'.task_map) ≡ 0
      → Change Allowed a s s'
  ended_one :
      suc (copies a s') ≡ copies a s → mapped (lookup a s'.task_map) ≡ 0 → Change Allowed a s s'

tally-push :
    (test : Task → Bool) (h : List Task) (t : Task)
    → IsHeap h
    → tally test (push h t) ≡ tally test (t ∷ h)
tally-push test h t p = tally-perm test (push h t) (t ∷ h) ((push-IsHeapOf h t p).1)

module _ {Allowed : Scheduler → String → Type 0} (a : String) where
  add_new-Change :
      (t : Task) (s : Scheduler)
      → IsHeap s.tasks
      → lookup t.id s.task_map ≡ none
      → Change Allowed a s
          (record s { tasks = push s.tasks t; task_map = insert t.id t s.task_map })
  add_new-Change t s h e =
      let stored = ap mapped (lookup-insert t.id a t s.task_map) in
      let size = tally-push (has_id a) s.tasks t h in
      elim (Bool-cases (str_eq t.id a)) [
        | inl b ↦
            taken_in (ground (arith, size))
              (ap mapped (subst (λ x. lookup x s.task_map ≡ none) ((eq_iff t.id a).0 b) e))
              (ground (arith, stored))
        | inr b ↦ same (ground (arith, size)) (ground (arith, stored))
      ]

  add_task-Change : (t : Task) (s : Scheduler) → IsHeap s.tasks → Change Allowed a s (add_task t s)
  add_task-Change t s h = elim (Option-cases (lookup t.id s.task_map)) [
    | inr (old, e) ↦ rw (add_task_known t old s e) (same refl refl)
    | inl e ↦ rw (add_task_new t s e) (add_new-Change t s h e)
  ]

  remove_task-Change :
      (id : String) (s : Scheduler) → Allowed s id → Change Allowed a s (remove_task id s)
  unfolding remove_task
  remove_task-Change id s p =
      let rest = without (has_id id) s.tasks in
      let size = tally-perm (has_id a) (init rest) rest ((init-IsHeapOf rest).1) in
      let left = tally-without a id s.tasks in
      let stored = ap mapped (lookup-erase id a s.task_map) in
      elim (Bool-cases (str_eq id a)) [
        | inl b ↦
            dropped (subst (Allowed s) ((eq_iff id a).0 b) p)
              (ground (arith, size, left, eq_iff a id, eq_iff id a)) (ground (arith, stored))
        | inr b ↦
            same (ground (arith, size, left, eq_iff a id, eq_iff id a)) (ground (arith, stored))
      ]

  dispatch-Change :
      (now : ℕ) (t : Task) (rest : List Task) (s : Scheduler)
      → IsPopped s.tasks t rest
      → Change Allowed a s ((dispatch now t rest s).1)
  dispatch-Change now t rest s q =
      let whole = tally-perm (has_id a) (t ∷ rest) s.tasks q.same in
      if-cases (λ (r : Round × Scheduler). Change Allowed a s (r.1)) (ltb now t.next_time)
        (λ e. same (omega (arith, tally-push (has_id a) rest t q.ordered)) refl)
        (λ e. same (omega arith) refl)

  run_round-Change :
      (now : ℕ) (s : Scheduler) → IsHeap s.tasks → Change Allowed a s ((run_round now s).1)
  unfolding run_round
  run_round-Change now s h =
      let Good = λ (r : Round × Scheduler). Change Allowed a s (r.1) in
      if-cases Good s.cancelled (λ e. same refl refl)
        (λ c.
          if-cases Good (length s.tasks == 0) (λ e. same refl refl)
            (λ e.
              dispatch-Change now ((pop s.tasks).0) ((pop s.tasks).1) s
                (pop-IsPopped s.tasks (ground arith) h)))

  after_execute-Change :
      (now : ℕ) (t : Task) (before after : List Task) (s : Scheduler)
      → IsHeap s.tasks
      → s.running ≡ before ++ (t ∷ after)
      → Change Allowed a s (after_execute now t (record s { running = before ++ after }))
  after_execute-Change now t before after s h e =
      let ran = ap (tally (has_id a)) e ∙ tally-append (has_id a) before (t ∷ after) in
      let left = tally-append (has_id a) before after in
      let stored = ap mapped (lookup-erase t.id a s.task_map) in
      if-cases (Change Allowed a s) t.is_repeat
        (λ r.
          same (ground (arith, ran, left, tally-push (has_id a) s.tasks (rescheduled now t) h))
            refl)
        (λ r. elim (Bool-cases (str_eq t.id a)) [
          | inl b ↦ ended_one (ground (arith, ran, left)) (ground (arith, stored))
          | inr b ↦ same (ground (arith, ran, left)) (ground (arith, stored))
        ])

  Step-Change : (s s' : Scheduler) → IsHeap s.tasks → Step Allowed s s' → Change Allowed a s s'
  unfolding start stop
  Step-Change _ _ h (adds t s) = add_task-Change t s h
  Step-Change _ _ h (removes id s p) = remove_task-Change id s p
  Step-Change _ _ h (starts s) = same refl refl
  Step-Change _ _ h (stops s) = same refl refl
  Step-Change _ _ h (rounds now s l) = run_round-Change now s h
  Step-Change _ _ h (finishes now s s' t before after e r) =
      let called = run_task-inv now t (record s { running = before ++ after }) s' r in
      subst (Change Allowed a s) (sym called.2) (after_execute-Change now t before after s h e)

known-step :
    {Allowed : Scheduler → String → Type 0} (a : String) (s s' : Scheduler)
    → Change Allowed a s s'
    → mapped (lookup a s.task_map) ≤ copies a s
    → mapped (lookup a s'.task_map) ≤ copies a s'
known-step a s s' (same c m) p = omega arith
known-step a s s' (taken_in c m n) p = omega arith
known-step a s s' (dropped q c m) p = omega arith
known-step a s s' (ended_one c m) p = omega arith

-- In any history, a name in the map has a task that waits or runs.
known-copies :
    (s : Scheduler) (a : String) → Reachable Any s → mapped (lookup a s.task_map) ≤ copies a s
unfolding lookup
known-copies _ a fresh = omega arith
known-copies _ a (next {s} {s'} r step) =
    known-step a s s' (Step-Change a s s' (Reachable-IsHeap s r) step) (known-copies s a r)

-- RemoveTask is called for no task that runs.
abbrev pub Quiet : Scheduler → String → Type 0
Quiet s id = tally (has_id id) s.running ≡ 0

mapped-le : (o : Option Task) → mapped o ≤ 1
mapped-le none = omega arith
mapped-le (some t) = omega arith

exact-step :
    (a : String) (s s' : Scheduler)
    → Change Quiet a s s'
    → copies a s ≡ mapped (lookup a s.task_map)
    → copies a s' ≡ mapped (lookup a s'.task_map)
exact-step a s s' (same c m) p = omega arith
exact-step a s s' (taken_in c m n) p = omega arith
exact-step a s s' (dropped q c m) p = omega arith
exact-step a s s' (ended_one c m) p = omega (arith, mapped-le (lookup a s.task_map))

-- In any history in which RemoveTask is called for no task that runs, a name has one task that waits
-- or runs if the map has it, and else none.
pub copies_exact :
    (s : Scheduler) (a : String) → Reachable Quiet s → copies a s ≡ mapped (lookup a s.task_map)
unfolding lookup
copies_exact _ a fresh = refl
copies_exact _ a (next {s} {s'} r step) =
    exact-step a s s' (Step-Change a s s' (Reachable-IsHeap s r) step) (copies_exact s a r)
