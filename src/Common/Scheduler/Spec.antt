-- ===== src/Common/Scheduler/Spec.antt =====
-- What a scheduler promises, over a bag of tasks: no order is kept, and a round takes any task that no
-- other precedes, once it is due.
use mathlib.Core.List
use mathlib.Core.List.Perm
use mathlib.Core.List.{Perm}
use mathlib.Core.Quot
use mathlib.Core.Quot.{Quot-set}
use mine_net.Base.{
  ℕ, ◌+◌, ◌-◌, ◌≤◌, ◌≡◌, refl, sym, List, [], ◌∷◌, ◌++◌, Bool, true, false, String, Option, none,
  some, if◌then◌else◌, arith,
}
use mine_net.Base.Map.{Map, string_key, lookup, insert, erase}
use mine_net.Common.TaskHeap.{Task, function}
use mine_net.Common.TaskHeap.Contents.{Bag, contents, put, count, is_due, is_before}
use mine_net.Common.Scheduler.{Scheduler, has_id, without, rescheduled}

kept : (Task → Bool) → Task → Option Task
kept test t = if test t then none else some t

without-filter_map :
    (test : Task → Bool) (h : List Task) → List.filter_map (kept test) h ≡ without test h
unfolding kept List.filter_map
without-filter_map test [] = refl
without-filter_map test (t ∷ h) = ground (arith, without-filter_map test h)

pub without-perm :
    (test : Task → Bool) (g h : List Task) → Perm g h → Perm (without test g) (without test h)
without-perm test g h p =
    rw (sym (without-filter_map test g), sym (without-filter_map test h))
      (Perm.filter_map (kept test) p)

unfoldable pub leave : (Task → Bool) → Bag → Bag
leave test =
    Quot.lift Quot-set (λ h. contents (without test h))
      (λ g h p. Quot.sound (without-perm test g h p))

pub record Plan : Type 0 where
  pub bag : Bag
  pub names : Map String Task
  pub cancelled : Bool
  pub loops : ℕ
  pub running : List Task

abbrev pub plan : Scheduler → Plan
plan s = record {
  bag = contents s.tasks;
  names = s.task_map;
  cancelled = s.cancelled;
  loops = s.loops;
  running = s.running;
}

-- No task of the bag is due before this one.
abbrev pub IsNext : Task → Bag → Type 0
IsNext t b = count (is_before t.next_time) b ≡ 0

pub data PlanStep : Plan → Plan → Type 0 where
  ignored : (p : Plan) (id : String) (old : Task) → lookup id p.names ≡ some old → PlanStep p p
  added :
      (p : Plan) (t : Task)
      → lookup t.id p.names ≡ none
      → PlanStep p (record p { bag = put t p.bag; names = insert t.id t p.names })
  removed :
      (p : Plan) (id : String)
      → PlanStep p (record p { bag = leave (has_id id) p.bag; names = erase id p.names })
  opened : (p : Plan) → PlanStep p (record p { loops = p.loops + 1 })
  stopped : (p : Plan) → PlanStep p (record p { cancelled = true })
  over : (p : Plan) → p.cancelled ≡ true → PlanStep p (record p { loops = p.loops - 1 })
  idle : (now : ℕ) (p : Plan) → p.cancelled ≡ false → count (is_due now) p.bag ≡ 0 → PlanStep p p
  took :
      (now : ℕ) (t : Task) (b : Bag) (p : Plan)
      → p.cancelled ≡ false
      → p.bag ≡ put t b
      → IsNext t p.bag
      → t.next_time ≤ now
      → PlanStep p (record p { bag = b; running = t ∷ p.running })
  repeated :
      (now f : ℕ) (t : Task) (before after : List Task) (p : Plan)
      → p.running ≡ before ++ (t ∷ after)
      → t.is_repeat ≡ true
      → t.execute ≡ function f
      → PlanStep p (record p { bag = put (rescheduled now t) p.bag; running = before ++ after })
  finished :
      (f : ℕ) (t : Task) (before after : List Task) (p : Plan)
      → p.running ≡ before ++ (t ∷ after)
      → t.is_repeat ≡ false
      → t.execute ≡ function f
      → PlanStep p (record p { names = erase t.id p.names; running = before ++ after })
