-- ===== src/Common/Manager/Shutdown.antt =====
-- What a call of the manager's Stop comes to, whatever the order in which the goroutines go on.
use mine_net.Base.{
  ℕ, suc, ◌+◌, ◌≡◌, ◌<◌, ◌≤◌, refl, ap, ◌∙◌, Bool, true, Option, none, some, List, [], ◌∷◌, ◌++◌,
  length, length-append, ◌⊎◌, arith,
}
use mine_net.Common.Manager.{
  Manager, Phase, collecting, waiting, returned, Stopping, reverse, begin_stop, collect, receive,
  result,
}

-- `stop_of` is what a component's Stop returns, `returns` whether its Start ever does; `timeout` is
-- the error of the 30 seconds.
module _ {C E : Type 0} (stop_of : C → Option E) (returns : C → Bool) (timeout : E) where
  pub data Step : Stopping C E → Stopping C E → Type 0 where
    answers :
        (s : Stopping C E) (c : C) (before after : List C)
        → s.unanswered ≡ before ++ (c ∷ after)
        → Step s
            (record s { unanswered = before ++ after; channel = s.channel ++ (stop_of c ∷ []) })
    receives :
        (s : Stopping C E) (answer : Option E) (rest : List (Option E)) (left : ℕ)
        → s.phase ≡ collecting
        → s.channel ≡ answer ∷ rest
        → s.left ≡ suc left
        → Step s (receive answer rest left s)
    times_out :
        (s : Stopping C E)
        → s.phase ≡ collecting
        → 0 < s.left
        → Step s (record s {
          errs = s.errs ++ (timeout ∷ []);
          phase = returned (some (s.errs ++ (timeout ∷ [])));
        })
    loop_ends :
        (s : Stopping C E)
        → s.phase ≡ collecting
        → s.left ≡ 0
        → Step s (record s { phase = waiting })
    start_returns :
        (s : Stopping C E) (c : C) (before after : List C)
        → s.manager.pending ≡ before ++ (c ∷ after)
        → returns c ≡ true
        → Step s (record s { manager = record s.manager { pending = before ++ after } })
    wait_ends :
        (s : Stopping C E)
        → s.phase ≡ waiting
        → s.manager.pending ≡ []
        → Step s (record s { phase = returned (result s.errs) })

  -- The states of a call of Stop on a manager.
  pub data Reached (m : Manager C) : Stopping C E → Type 0 where
    begun : Reached m (begin_stop m)
    next : {s s' : Stopping C E} → Reached m s → Step s s' → Reached m s'

  abbrev pub failed : Option E → ℕ
  failed none = 0
  failed (some e) = 1

  abbrev pub failed_in : List (Option E) → ℕ
  failed_in [] = 0
  failed_in (a ∷ rest) = failed a + failed_in rest

  -- How many components' Stop fails.
  abbrev pub failures : List C → ℕ
  failures [] = 0
  failures (c ∷ cs) = failed (stop_of c) + failures cs

  failed_in-append : (g h : List (Option E)) → failed_in (g ++ h) ≡ failed_in g + failed_in h
  failed_in-append [] h = omega arith
  failed_in-append (a ∷ g) h = omega (arith, failed_in-append g h)

  failures-append : (g h : List C) → failures (g ++ h) ≡ failures g + failures h
  failures-append [] h = omega arith
  failures-append (c ∷ g) h = omega (arith, failures-append g h)

  pub failures-reverse : (cs : List C) → failures (reverse cs) ≡ failures cs
  failures-reverse [] = refl
  failures-reverse (c ∷ cs) =
      omega (arith, failures-append (reverse cs) (c ∷ []), failures-reverse cs)

  pub length-reverse : (cs : List C) → length (reverse cs) ≡ length cs
  length-reverse [] = refl
  length-reverse (c ∷ cs) = omega (arith, length-append (reverse cs) (c ∷ []), length-reverse cs)

  length-collect : (a : Option E) (errs : List E) → length (collect a errs) ≡ length errs + failed a
  length-collect none errs = omega arith
  length-collect (some e) errs = length-append errs (e ∷ [])

  -- Every answer is awaited, in the channel or counted.
  pub record IsCounted (m : Manager C) (s : Stopping C E) : Type 0 where
    pub awaited : s.left ≡ length s.channel + length s.unanswered
    pub counted :
        length s.errs + failed_in s.channel + failures s.unanswered ≡ failures m.components

  -- What a result of Stop says: nil, or the errors; the last of them may be the timeout's.
  unfoldable pub Verdict : Manager C → List C → Option (List E) → Type 0
  Verdict m pending none = (failures m.components ≡ 0) × (pending ≡ [])
  Verdict m pending (some errs) =
      ((length errs ≡ failures m.components) × (pending ≡ []))
      ⊎ ((before : List E) × (errs ≡ before ++ (timeout ∷ []))
          × (length before ≤ failures m.components))

  unfoldable pub Sound : Manager C → Stopping C E → Phase E → Type 0
  Sound m s collecting = IsCounted m s
  Sound m s waiting = IsCounted m s × (s.left ≡ 0)
  Sound m s (returned r) = Verdict m s.manager.pending r

  pub answers-IsCounted :
      (m : Manager C) (s : Stopping C E) (c : C) (before after : List C)
      → s.unanswered ≡ before ++ (c ∷ after)
      → IsCounted m s
      → IsCounted m
          (record s { unanswered = before ++ after; channel = s.channel ++ (stop_of c ∷ []) })
  answers-IsCounted m s c before after e h =
      let sent = length-append s.channel (stop_of c ∷ []) in
      let size = ap length e ∙ length-append before (c ∷ after) in
      let rest = length-append before after in
      record {
        awaited = omega (arith, h.awaited, sent, size, rest);
        counted = omega (
          arith,
          h.counted,
          failed_in-append s.channel (stop_of c ∷ []),
          ap failures e ∙ failures-append before (c ∷ after),
          failures-append before after,
        );
      }

  pub receive-IsCounted :
      (m : Manager C) (s : Stopping C E) (answer : Option E) (rest : List (Option E)) (left : ℕ)
      → s.channel ≡ answer ∷ rest
      → s.left ≡ suc left
      → IsCounted m s
      → IsCounted m (receive answer rest left s)
  receive-IsCounted m s answer rest left e l h = record {
    awaited = omega (arith, h.awaited, ap length e);
    counted = omega (arith, h.counted, ap failed_in e, length-collect answer s.errs);
  }
