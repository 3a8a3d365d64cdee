-- ===== src/Common/Manager.antt =====
-- common/manager.go's ComponentManager. C: the components, of which only what Stop returns is known;
-- E: errors. Whether and when a goroutine ends is a matter of Manager/Shutdown's steps.
pub mod Shutdown
pub mod Verdict
pub mod Ends
pub mod Tests
use mine_net.Base.{
  ℕ, ◌-◌, ◌+◌, Bool, true, false, Option, none, some, List, [], ◌∷◌, ◌++◌, length, ◌⊎◌, inl, inr,
}

-- `pending` holds the components whose Start has not returned: the wait group's counter is their
-- number. `handlers` counts the goroutines in handleSignals.
pub record Manager (C : Type 0) : Type 0 where
  pub components : List C
  pub cancelled : Bool
  pub pending : List C
  pub handlers : ℕ

-- Where a call of Stop stands: in its loop, at the wait group, or back with its result.
pub data Phase (E : Type 0) : Type 0 where
  collecting waiting : Phase E
  returned : Option (List E) → Phase E

-- A call of Stop: the components whose Stop has not returned, the channel's answers, how many answers
-- the loop still takes, and the errors it has.
pub record Stopping (C E : Type 0) : Type 0 where
  pub manager : Manager C
  pub unanswered : List C
  pub channel : List (Option E)
  pub left : ℕ
  pub errs : List E
  pub phase : Phase E

pub data Wake : Type 0 where
  signal context_done : Wake

module _ {C : Type 0} where
  abbrev pub new_manager : Manager C
  new_manager = record { components = []; cancelled = false; pending = []; handlers = 0 }

  unfoldable pub register : C → Manager C → Manager C
  register c m = record m { components = m.components ++ (c ∷ []) }

  -- An error of a component's Start is logged, and nothing else.
  unfoldable pub start : Manager C → Manager C
  start m = record m { pending = m.pending ++ m.components; handlers = m.handlers + 1 }

  abbrev pub reverse : List C → List C
  reverse [] = []
  reverse (c ∷ cs) = reverse cs ++ (c ∷ [])

module _ {E : Type 0} where
  abbrev pub collect : Option E → List E → List E
  collect none errs = errs
  collect (some e) errs = errs ++ (e ∷ [])

  -- What Stop returns of the errors it has.
  abbrev pub result : List E → Option (List E)
  result [] = none
  result (e ∷ errs) = some (e ∷ errs)

module _ {C E : Type 0} where
  -- Stop up to its loop: each component's Stop runs in a goroutine of its own.
  unfoldable pub begin_stop : Manager C → Stopping C E
  begin_stop m = record {
    manager = record m { cancelled = true };
    unanswered = reverse m.components;
    channel = [];
    left = length m.components;
    errs = [];
    phase = collecting;
  }

  unfoldable pub handle_signals : Wake → Manager C → Manager C ⊎ Stopping C E
  handle_signals signal m = inr (begin_stop (record m { handlers = m.handlers - 1 }))
  handle_signals context_done m = inl (record m { handlers = m.handlers - 1 })

  -- The loop takes an answer.
  abbrev pub receive : Option E → List (Option E) → ℕ → Stopping C E → Stopping C E
  receive answer rest left s = record s {
    channel = rest;
    left = left;
    errs = collect answer s.errs;
  }
