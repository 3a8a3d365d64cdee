-- ===== src/Common/Manager/Tests.antt =====
-- A manager of two components, one of which fails to stop.
use mine_net.Base.{ℕ, zero, suc, ◌≡◌, refl, Bool, true, Option, none, some, [], ◌∷◌}
use mine_net.Common.Manager.{Manager, returned, Stopping, new_manager, register, start, begin_stop}
use mine_net.Common.Manager.Shutdown.{
  answers, receives, loop_ends, start_returns, wait_ends, Reached, begun, next, Verdict,
}
use mine_net.Common.Manager.Verdict.{returned-Verdict}
use mine_net.Common.Manager.Ends.{Run, IsReturned, Reached-ends}

-- Component 1 fails with error 7; 99 is the timeout.
abbrev stop_of : ℕ → Option ℕ
stop_of zero = none
stop_of (suc n) = some 7

-- Each Start returns.
abbrev always : ℕ → Bool
always c = true

abbrev two_parts : Manager ℕ
two_parts = start (register 1 (register 0 new_manager))

two_components : two_parts.components ≡ 0 ∷ 1 ∷ []
unfolding start register
two_components = refl

-- Stop after both answers, in the order in which they came, and after both Starts.
abbrev stopped : Stopping ℕ ℕ
stopped = record {
  manager = record { components = 0 ∷ 1 ∷ []; cancelled = true; pending = []; handlers = 1 };
  unanswered = [];
  channel = [];
  left = 0;
  errs = 7 ∷ [];
  phase = returned (some (7 ∷ []));
}

stopped-Reached : Reached stop_of always 99 two_parts stopped
unfolding start register begin_stop
stopped-Reached =
    next
      (next
        (next
          (next
            (next
              (next (next (next begun (answers _ 0 (1 ∷ []) [] refl)) (answers _ 1 [] [] refl))
                (receives _ none (some 7 ∷ []) 1 refl refl refl))
              (receives _ (some 7) [] 0 refl refl refl))
            (loop_ends _ refl refl))
          (start_returns _ 0 [] (1 ∷ []) refl refl))
        (start_returns _ 1 [] [] refl refl))
      (wait_ends _ refl refl)

returned-Verdict_example : Verdict stop_of always 99 two_parts [] (some (7 ∷ []))
returned-Verdict_example =
    returned-Verdict stop_of always 99 two_parts stopped (some (7 ∷ [])) stopped-Reached refl

Reached-ends_example :
    (s : Stopping ℕ ℕ) × Run stop_of always 99 (begin_stop two_parts) s × IsReturned s
unfolding start register
Reached-ends_example =
    Reached-ends stop_of always 99 two_parts (begin_stop two_parts) (refl, (refl, tt)) begun
