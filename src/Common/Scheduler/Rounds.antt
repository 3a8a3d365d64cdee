-- ===== src/Common/Scheduler/Rounds.antt =====
-- What rounds of the scheduler's loop start.
use mine_net.Base.{
  if-cases, ℕ, zero, suc, ◌+◌, ◌-◌, ◌<◌, ◌≤◌, ◌≡◌, refl, ◌∙◌, ap, false, List, ◌∷◌, length, ltb,
  ◌==◌, arith, ◌⊎◌, inl, inr,
}
use mine_net.Common.TaskHeap.{Task, time_at, push, pop}
use mine_net.Common.TaskHeap.Order.{IsHeap}
use mine_net.Common.TaskHeap.Up.{push-IsHeapOf}
use mine_net.Common.TaskHeap.Pop.{IsPopped, pop-IsPopped, first-IsLeast}
use mine_net.Common.TaskHeap.Contents.{
  tally, tally-perm, is_due, count, count-not_due, count-not_due_empty,
}
use mine_net.Common.Scheduler.{Scheduler, Round, slept, started, dispatch, run_round}

-- How many of the scheduler's tasks are due.
abbrev pub due : ℕ → Scheduler → ℕ
due now s = tally (is_due now) s.tasks

-- A round of a scheduler that is not stopped: it starts the first task, or none is due.
pub record IsStart (now : ℕ) (s : Scheduler) (t : Task) (s' : Scheduler) : Type 0 where
  pub timely : t.next_time ≤ now
  pub first : (c : ℕ) → c < length s.tasks → t.next_time ≤ time_at s.tasks c
  pub fewer : due now s ≡ suc (due now s')
  pub queued : s'.running ≡ t ∷ s.running

pub record IsIdle (now : ℕ) (s : Scheduler) (s' : Scheduler) : Type 0 where
  pub none_due : due now s ≡ 0
  pub none_left : due now s' ≡ 0
  pub unchanged : s'.running ≡ s.running

pub record IsGood (s : Scheduler) : Type 0 where
  pub heap : IsHeap s.tasks
  pub active : s.cancelled ≡ false

unfoldable pub IsRound : ℕ → Scheduler → Round × Scheduler → Type 0
IsRound now s r =
    ((r.0 ≡ slept) × IsIdle now s (r.1)) ⊎ ((t : Task) × (r.0 ≡ started t) × IsStart now s t (r.1))

dispatch-IsRound :
    (now : ℕ) (t : Task) (rest : List Task) (s : Scheduler)
    → IsGood s
    → 0 < length s.tasks
    → IsPopped s.tasks t rest
    → IsRound now s (dispatch now t rest s) × IsGood ((dispatch now t rest s).1)
unfolding IsRound count
dispatch-IsRound now t rest s g n q =
    let same : tally (is_due now) (t ∷ rest) ≡ due now s =
      tally-perm (is_due now) (t ∷ rest) s.tasks q.same in
    if-cases (λ (r : Round × Scheduler). IsRound now s r × IsGood (r.1)) (ltb now t.next_time)
      (λ early.
        let back = push-IsHeapOf rest t q.ordered in
        let none : due now s ≡ 0 = count-not_due now s.tasks g.heap (ground (arith, q.first)) in
        (
          inl (
            refl,
            record {
              none_due = none;
              none_left = tally-perm (is_due now) (push rest t) (t ∷ rest) back.1 ∙ same ∙ none;
              unchanged = refl;
            },
          ),
          record { heap = back.0; active = g.active },
        ))
      (λ late. (
        inr (
          t,
          refl,
          record {
            timely = ground arith;
            first = λ c p. ground (arith, q.first, first-IsLeast s.tasks c g.heap p);
            fewer = ground (arith, same);
            queued = refl;
          },
        ),
        record { heap = q.ordered; active = g.active },
      ))

-- A round of a scheduler that is not stopped and whose tasks form a heap starts a due task that no
-- other precedes, or it sleeps and no task is due; either way a heap is left.
run_round_lem :
    (now : ℕ) (s : Scheduler)
    → IsGood s
    → IsRound now s (run_round now s) × IsGood ((run_round now s).1)
unfolding run_round IsRound count
run_round_lem now s g =
    let Good = λ (r : Round × Scheduler). IsRound now s r × IsGood (r.1) in
    if-cases Good s.cancelled (λ e. cc)
      (λ open_context.
        if-cases Good (length s.tasks == 0)
          (λ e.
            let none = count-not_due_empty now s.tasks (ground arith) in
            (inl (refl, record { none_due = none; none_left = none; unchanged = refl }), g))
          (λ e.
            let n : 0 < length s.tasks = ground arith in
            dispatch-IsRound now ((pop s.tasks).0) ((pop s.tasks).1) s g n
              (pop-IsPopped s.tasks n g.heap)))

-- `k` rounds at one reading of the clock.
unfoldable pub rounds_at : ℕ → ℕ → Scheduler → Scheduler
rounds_at zero now s = s
rounds_at (suc k) now s = rounds_at k now ((run_round now s).1)

progress :
    (now : ℕ) (s : Scheduler) (r : Round × Scheduler)
    → IsRound now s r
    → (due now (r.1) ≡ due now s - 1)
      × (length (r.1).running + due now (r.1) ≡ length s.running + due now s)
unfolding IsRound
progress now s r (inl (e, i)) = (
  omega (arith, i.none_due, i.none_left),
  omega (arith, i.none_due, i.none_left, ap length i.unchanged),
)
progress now s r (inr (t, e, i)) =
    (omega (arith, i.fewer), omega (arith, i.fewer, ap length i.queued))

pub rounds_at-due :
    (k now : ℕ) (s : Scheduler)
    → IsHeap s.tasks
    → s.cancelled ≡ false
    → (due now (rounds_at k now s) ≡ due now s - k)
      × (length (rounds_at k now s).running + due now (rounds_at k now s)
          ≡ length s.running + due now s)
unfolding rounds_at
rounds_at-due zero now s h c = (omega arith, refl)
rounds_at-due (suc k) now s h c =
    let round = run_round_lem now s (record { heap = h; active = c }) in
    let one = progress now s (run_round now s) (round.0) in
    let rest = rounds_at-due k now ((run_round now s).1) (round.1).heap (round.1).active in
    (omega (arith, one.0, rest.0), rest.1 ∙ one.1)
