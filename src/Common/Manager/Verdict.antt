-- ===== src/Common/Manager/Verdict.antt =====
-- What a call of the manager's Stop returns, and that it returns.
use mathlib.Core.Path.{subst}
use mine_net.Base.{
  ℕ, suc, ◌≡◌, refl, sym, Bool, Option, none, some, List, [], ◌∷◌, ◌++◌, length, inl, inr, arith,
}
use mine_net.Common.Manager.{
  Manager, Phase, collecting, waiting, returned, Stopping, begin_stop, receive, result,
}
use mine_net.Common.Manager.Shutdown.{
  Step, answers, receives, times_out, loop_ends, start_returns, wait_ends, Reached, begun, next,
  failures, failed_in, Verdict, Sound, answers-IsCounted, receive-IsCounted, failures-reverse,
  length-reverse,
}

module _ {C E : Type 0} (stop_of : C → Option E) (returns : C → Bool) (timeout : E) where
  result-Verdict :
      (m : Manager C) (errs : List E) (pending : List C)
      → length errs ≡ failures stop_of returns timeout m.components
      → pending ≡ []
      → Verdict stop_of returns timeout m pending (result errs)
  unfolding Verdict
  result-Verdict m [] pending e p = (sym e, p)
  result-Verdict m (x ∷ errs) pending e p = inl (e, p)

  failed_in_none :
      (as_sent : List (Option E))
      → length as_sent ≡ 0
      → failed_in stop_of returns timeout as_sent ≡ 0
  failed_in_none [] e = refl
  failed_in_none (a ∷ rest) e = absurd (omega arith)

  failures_none : (cs : List C) → length cs ≡ 0 → failures stop_of returns timeout cs ≡ 0
  failures_none [] e = refl
  failures_none (c ∷ cs) e = absurd (omega arith)

  answers-Sound :
      (m : Manager C) (s : Stopping C E) (c : C) (before after : List C) (p : Phase E)
      → s.unanswered ≡ before ++ (c ∷ after)
      → Sound stop_of returns timeout m s p
      → Sound stop_of returns timeout m
          (record s { unanswered = before ++ after; channel = s.channel ++ (stop_of c ∷ []) })
          p
  unfolding Sound
  answers-Sound m s c before after collecting e h =
      answers-IsCounted stop_of returns timeout m s c before after e h
  answers-Sound m s c before after waiting e h =
      (answers-IsCounted stop_of returns timeout m s c before after e (h.0), h.1)
  answers-Sound m s c before after (returned r) e h = h

  -- Once Stop waited for all, no Start is left to return.
  starts-Verdict :
      (m : Manager C) (pending less : List C) (r : Option (List E))
      → (pending ≡ [] → less ≡ [])
      → Verdict stop_of returns timeout m pending r
      → Verdict stop_of returns timeout m less r
  unfolding Verdict
  starts-Verdict m pending less none f h = (h.0, f (h.1))
  starts-Verdict m pending less (some errs) f (inl h) = inl (h.0, f (h.1))
  starts-Verdict m pending less (some errs) f (inr h) = inr h

  starts-Sound :
      (m : Manager C) (s : Stopping C E) (less : List C) (p : Phase E)
      → (s.manager.pending ≡ [] → less ≡ [])
      → Sound stop_of returns timeout m s p
      → Sound stop_of returns timeout m
          (record s { manager = record s.manager { pending = less } })
          p
  unfolding Sound
  starts-Sound m s less collecting f h = record { awaited = h.awaited; counted = h.counted }
  starts-Sound m s less waiting f h = (record { awaited = h.0.awaited; counted = h.0.counted }, h.1)
  starts-Sound m s less (returned r) f h = starts-Verdict m s.manager.pending less r f h

  none_split :
      (c : C) (pending before after : List C)
      → pending ≡ before ++ (c ∷ after)
      → pending ≡ []
      → before ++ after ≡ []
  none_split c pending [] after e p = cc
  none_split c pending (b ∷ before) after e p = cc

  -- The steps that wait for a phase, from it.
  receives-Sound :
      (m : Manager C) (s : Stopping C E) (answer : Option E) (rest : List (Option E)) (left : ℕ)
      → s.channel ≡ answer ∷ rest
      → s.left ≡ suc left
      → Sound stop_of returns timeout m s collecting
      → Sound stop_of returns timeout m (receive answer rest left s) collecting
  unfolding Sound
  receives-Sound m s answer rest left =
      receive-IsCounted stop_of returns timeout m s answer rest left

  times_out-Verdict :
      (m : Manager C) (s : Stopping C E)
      → Sound stop_of returns timeout m s collecting
      → Verdict stop_of returns timeout m s.manager.pending (some (s.errs ++ (timeout ∷ [])))
  unfolding Sound Verdict
  times_out-Verdict m s h = inr (s.errs, refl, omega (arith, h.counted))

  loop_ends-Sound :
      (m : Manager C) (s : Stopping C E)
      → s.left ≡ 0
      → Sound stop_of returns timeout m s collecting
      → Sound stop_of returns timeout m (record s { phase = waiting }) waiting
  unfolding Sound
  loop_ends-Sound m s e h = (record { awaited = h.awaited; counted = h.counted }, e)

  wait_ends-Verdict :
      (m : Manager C) (s : Stopping C E)
      → s.manager.pending ≡ []
      → Sound stop_of returns timeout m s waiting
      → Verdict stop_of returns timeout m s.manager.pending (result s.errs)
  unfolding Sound
  wait_ends-Verdict m s p h =
      result-Verdict m s.errs s.manager.pending
        (omega (
          arith,
          h.0.awaited,
          h.1,
          h.0.counted,
          failed_in_none s.channel,
          failures_none s.unanswered,
        ))
        p

  Step-Sound :
      (m : Manager C) (s s' : Stopping C E)
      → Step stop_of returns timeout s s'
      → Sound stop_of returns timeout m s s.phase
      → Sound stop_of returns timeout m s' s'.phase
  unfolding Sound
  Step-Sound m _ _ (answers s c before after e) h = answers-Sound m s c before after s.phase e h
  Step-Sound m _ _ (receives s answer rest left c e l) h =
      subst (Sound stop_of returns timeout m (receive answer rest left s)) (sym c)
        (receives-Sound m s answer rest left e l (subst (Sound stop_of returns timeout m s) c h))
  Step-Sound m _ _ (times_out s c p) h =
      times_out-Verdict m s (subst (Sound stop_of returns timeout m s) c h)
  Step-Sound m _ _ (loop_ends s c e) h =
      loop_ends-Sound m s e (subst (Sound stop_of returns timeout m s) c h)
  Step-Sound m _ _ (start_returns s c before after e back) h =
      starts-Sound m s (before ++ after) s.phase (none_split c s.manager.pending before after e) h
  Step-Sound m _ _ (wait_ends s w p) h =
      wait_ends-Verdict m s p (subst (Sound stop_of returns timeout m s) w h)

  pub Reached-Sound :
      (m : Manager C) (s : Stopping C E)
      → Reached stop_of returns timeout m s
      → Sound stop_of returns timeout m s s.phase
  unfolding Sound begin_stop
  Reached-Sound m _ begun = record {
    awaited = omega (arith, length-reverse stop_of returns timeout m.components);
    counted = omega (arith, failures-reverse stop_of returns timeout m.components);
  }
  Reached-Sound m _ (next {s} {s'} r step) = Step-Sound m s s' step (Reached-Sound m s r)

  -- Whatever steps led to it, Stop returns nil only if no component's Stop failed and every Start is
  -- back; its errors count the failed ones, with every Start back, or end with the timeout's.
  pub returned-Verdict :
      (m : Manager C) (s : Stopping C E) (r : Option (List E))
      → Reached stop_of returns timeout m s
      → s.phase ≡ returned r
      → Verdict stop_of returns timeout m s.manager.pending r
  unfolding Sound
  returned-Verdict m s r reached e =
      subst (Sound stop_of returns timeout m s) e (Reached-Sound m s reached)
