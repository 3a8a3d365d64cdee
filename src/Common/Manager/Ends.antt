-- ===== src/Common/Manager/Ends.antt =====
-- The manager's Stop returns, if the goroutines that it waits for do.
use mathlib.Core.Path.{subst}
use mine_net.Base.{
  ℕ, zero, suc, ◌+◌, ◌*◌, ◌≡◌, ◌<◌, refl, ap, Bool, true, All, All-append, All-middle, Option, List,
  [], ◌∷◌, ◌++◌, length, length-append, ◌⊎◌, inl, inr, arith,
}
use mine_net.Common.Manager.{
  Manager, Phase, collecting, waiting, returned, Stopping, receive, result, begin_stop,
}
use mine_net.Common.Manager.Shutdown.{
  Step, answers, receives, times_out, loop_ends, start_returns, wait_ends, Reached, begun, next,
  Sound,
}
use mine_net.Common.Manager.Verdict.{Reached-Sound}

abbrev rank : {E : Type 0} → Phase E → ℕ
rank collecting = 2
rank waiting = 1
rank (returned r) = 0

module _ {C E : Type 0} where
  -- What is still to happen before Stop returns.
  abbrev pub remaining : Stopping C E → ℕ
  remaining s = 2 * length s.unanswered + length s.channel + length s.manager.pending + rank s.phase

  abbrev pub IsReturned : Stopping C E → Type 0
  IsReturned s = (r : Option (List E)) × (s.phase ≡ returned r)

module _ {C E : Type 0} (stop_of : C → Option E) (returns : C → Bool) (timeout : E) where
  -- The components of the list whose Start is waited for: each returns.
  abbrev pub AllReturn : List C → Type 0
  AllReturn = All (λ c. returns c ≡ true)

  -- A step other than the timeout's.
  abbrev pub IsTimely : {s s' : Stopping C E} → Step stop_of returns timeout s s' → Type 0
  IsTimely (times_out s c p) = ⊥
  IsTimely (answers s c before after e) = Unit
  IsTimely (receives s answer rest left c e l) = Unit
  IsTimely (loop_ends s c e) = Unit
  IsTimely (start_returns s c before after e back) = Unit
  IsTimely (wait_ends s w p) = Unit

  -- Some such steps, one after another.
  pub data Run : Stopping C E → Stopping C E → Type 0 where
    stays : (s : Stopping C E) → Run s s
    goes :
        {s s' s'' : Stopping C E} (step : Step stop_of returns timeout s s')
        → IsTimely step
        → Run s' s''
        → Run s s''

  -- There is a step, and less remains.
  Goes : Stopping C E → Type 0
  Goes s =
      (s' : Stopping C E) × (step : Step stop_of returns timeout s s') × IsTimely step
      × (remaining s' < remaining s)

  collecting-Goes :
      (m : Manager C) (s : Stopping C E) (channel : List (Option E)) (unanswered : List C)
      (left : ℕ)
      → s.phase ≡ collecting
      → s.channel ≡ channel
      → s.unanswered ≡ unanswered
      → s.left ≡ left
      → left ≡ length channel + length unanswered
      → Goes s
  unfolding Goes
  collecting-Goes m s channel unanswered zero p c u l n =
      (record s { phase = waiting }, loop_ends s p l, tt, omega (arith, ap rank p))
  collecting-Goes m s (a ∷ channel) unanswered (suc left) p c u l n =
      (receive a channel left s, receives s a channel left p c l, tt, omega (arith, ap length c))
  collecting-Goes m s [] (d ∷ unanswered) (suc left) p c u l n = (
    record s { unanswered = unanswered; channel = s.channel ++ (stop_of d ∷ []) },
    answers s d [] unanswered u,
    tt,
    omega (arith, ap length u, length-append s.channel (stop_of d ∷ [])),
  )
  collecting-Goes m s [] [] (suc left) p c u l n = absurd (omega arith)

  waiting-Goes :
      (s : Stopping C E) (pending : List C)
      → s.phase ≡ waiting
      → s.manager.pending ≡ pending
      → AllReturn pending
      → Goes s
  unfolding Goes
  waiting-Goes s [] p e back =
      (record s { phase = returned (result s.errs) }, wait_ends s p e, tt, omega (arith, ap rank p))
  waiting-Goes s (c ∷ pending) p e back = (
    record s { manager = record s.manager { pending = pending } },
    start_returns s c [] pending e back.0,
    tt,
    omega (arith, ap length e),
  )

  step-AllReturn :
      (s s' : Stopping C E)
      → Step stop_of returns timeout s s'
      → AllReturn s.manager.pending
      → AllReturn s'.manager.pending
  step-AllReturn _ _ (start_returns s c before after e back) h =
      let (first, _, rest) =
        All-middle (λ d. returns d ≡ true) before after c (subst AllReturn e h) in
      All-append (λ d. returns d ≡ true) before after first rest
  step-AllReturn _ _ (answers s c before after e) h = h
  step-AllReturn _ _ (receives s answer rest left p e l) h = h
  step-AllReturn _ _ (times_out s p l) h = h
  step-AllReturn _ _ (loop_ends s p l) h = h
  step-AllReturn _ _ (wait_ends s p l) h = h

  Reached-AllReturn :
      (m : Manager C) (s : Stopping C E)
      → AllReturn m.pending
      → Reached stop_of returns timeout m s
      → AllReturn s.manager.pending
  unfolding begin_stop
  Reached-AllReturn m _ h begun = h
  Reached-AllReturn m _ h (next {s} {s'} r step) =
      step-AllReturn s s' step (Reached-AllReturn m s h r)

  progress :
      (m : Manager C) (s : Stopping C E) (phase : Phase E)
      → s.phase ≡ phase
      → Sound stop_of returns timeout m s phase
      → AllReturn s.manager.pending
      → IsReturned s ⊎ Goes s
  unfolding Sound
  progress m s collecting p h back =
      inr (collecting-Goes m s s.channel s.unanswered s.left p refl refl refl h.awaited)
  progress m s waiting p h back = inr (waiting-Goes s s.manager.pending p refl back)
  progress m s (returned r) p h back = inl (r, p)

  End : Stopping C E → Type 0
  End s = (s' : Stopping C E) × Run s s' × IsReturned s'

  ends :
      (fuel : ℕ) (m : Manager C) (s : Stopping C E)
      → remaining s < fuel
      → AllReturn m.pending
      → Reached stop_of returns timeout m s
      → End s
  unfolding Goes End
  ends zero m s f back r = absurd (omega arith)
  ends (suc fuel) m s f back r =
      elim (progress m s s.phase refl (Reached-Sound stop_of returns timeout m s r)
        (Reached-AllReturn m s back r)) [
          | inl e ↦ (s, stays s, e)
          | inr (s', step, timely, less) ↦
              let rest = ends fuel m s' (omega arith) back (next r step) in
              (rest.0, goes step timely (rest.1), rest.2)
        ]

  -- If the Start of every component that Stop waits for returns: from every state of the call of
  -- Stop, some steps other than the timeout's lead to its return.
  pub Reached-ends :
      (m : Manager C) (s : Stopping C E)
      → AllReturn m.pending
      → Reached stop_of returns timeout m s
      → (s' : Stopping C E) × Run s s' × IsReturned s'
  unfolding End
  Reached-ends m s back r = ends (remaining s + 1) m s (omega arith) back r
