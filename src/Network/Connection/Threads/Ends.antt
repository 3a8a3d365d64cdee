-- ===== src/Network/Connection/Threads/Ends.antt =====
-- How the calls of Send and Close end, interleaved in any order.
use mathlib.Core.Path.{subst}
use mine_net.Base.{
  ℕ, ◌+◌, ◌*◌, ◌≤◌, ◌≡◌, sym, ap, Bool, true, List, [], ◌∷◌, ◌++◌, All, All-middle, All-join,
  Outcome, length, arith,
}
use mine_net.Network.Errors.{Error}
use mine_net.Network.RateLimiter.{LimiterLib}
use mine_net.Network.Connection.State.{Connection, update_last_active, queue_size}
use mine_net.Network.Connection.Send.{select_send}
use mine_net.Network.Connection.Threads.{
  Task, swapping, closing_channel, stopping_heartbeat, setting_gauge, closing_socket, closed_with,
  checking, marking, limiting, numbering, selecting, sent_with, after_stop, swap_flag,
  close_channel, set_gauge, close_socket, check_closed, limited, number_packet, select_queue, act,
  World, ask, advance, Step, acts, calls_close, calls_send, receives, Reachable, here, next,
}
use mine_net.Network.Connection.Threads.Invariant.{closers, IsSettled}
use mine_net.Network.Connection.Threads.Safety.{calls-IsCoherent}

-- How many accesses a call has left.
abbrev pub left : Task → ℕ
left swapping = 5
left closing_channel = 4
left stopping_heartbeat = 3
left setting_gauge = 2
left closing_socket = 1
left (closed_with o) = 0
left (checking p) = 5
left (marking p) = 4
left (limiting p) = 3
left (numbering p) = 2
left (selecting p) = 1
left (sent_with o) = 0

abbrev pub all_left : List Task → ℕ
all_left [] = 0
all_left (t ∷ ts) = left t + all_left ts

-- 1 for a call that has not returned.
abbrev pub running : Task → ℕ
running (closed_with o) = 0
running (sent_with o) = 0
running _ = 1

all_left-append : (xs ys : List Task) → all_left (xs ++ ys) ≡ all_left xs + all_left ys
all_left-append [] ys = omega arith
all_left-append (t ∷ xs) ys = omega (arith, all_left-append xs ys)

module _ {H V : Type 0} where
  act-left :
      (now : ℕ) (allowed pick : Bool) (t : Task) (c : Connection H V)
      → left (act now allowed pick t c).1 + running t ≤ left t
  unfolding act swap_flag close_channel after_stop set_gauge close_socket check_closed limited
      number_packet select_queue
  act-left now allowed pick stopping_heartbeat c = ground (arith)
  act-left now allowed pick _ c = ground arith

  -- A call of Close behind the swap finds the flag set.
  abbrev Knows : Connection H V → Task → Type 0
  Knows c closing_channel = c.closed ≡ true
  Knows c stopping_heartbeat = c.closed ≡ true
  Knows c setting_gauge = c.closed ≡ true
  Knows c closing_socket = c.closed ≡ true
  Knows c (closed_with o) = c.closed ≡ true
  Knows c _ = Unit

  -- No access takes the flag back.
  pub act-closed :
      (now : ℕ) (allowed pick : Bool) (t : Task) (c : Connection H V)
      → c.closed ≡ true
      → (act now allowed pick t c).0.closed ≡ true
  unfolding act swap_flag close_channel after_stop set_gauge close_socket check_closed limited
      number_packet select_queue select_send update_last_active
  act-closed now allowed pick stopping_heartbeat c h = ground arith
  act-closed now allowed pick _ c h = ground arith

  act-Knows :
      (now : ℕ) (allowed pick : Bool) (t : Task) (c : Connection H V)
      → Knows c t
      → Knows (act now allowed pick t c).0 (act now allowed pick t c).1
  unfolding act swap_flag close_channel after_stop set_gauge close_socket check_closed limited
      number_packet select_queue
  act-Knows now allowed pick stopping_heartbeat c h = ground arith
  act-Knows now allowed pick _ c h = ground arith

  All-Knows :
      (c d : Connection H V) (ts : List Task)
      → (c.closed ≡ true → d.closed ≡ true)
      → All (Knows c) ts
      → All (Knows d) ts
  All-Knows c d [] f h = tt
  All-Knows c d (t ∷ ts) f (p, h) = (known t p, All-Knows c d ts f h)
    where
      known : (t : Task) → Knows c t → Knows d t
      known closing_channel p = f p
      known stopping_heartbeat p = f p
      known setting_gauge p = f p
      known closing_socket p = f p
      known (closed_with o) p = f p
      known _ p = tt

module _ {H V : Type 0} (lib : LimiterLib) where
  step-Knows :
      (w w' : World lib H V)
      → Step lib w w'
      → All (Knows w.conn) w.tasks
      → All (Knows w'.conn) w'.tasks
  unfolding advance
  step-Knows w _ (acts _ before after t now pick e) h =
      let (allowed, r) = ask lib now t w.limiter in
      let (c, t') = act now allowed pick t w.conn in
      let (known_before, known, known_after) =
        All-middle (Knows w.conn) before after t (subst (All (Knows w.conn)) e h) in
      let keeps = act-closed now allowed pick t w.conn in
      All-join (Knows c) before after t' (All-Knows w.conn c before keeps known_before)
        (act-Knows now allowed pick t w.conn known) (All-Knows w.conn c after keeps known_after)
  step-Knows w _ (calls_close _) h = (tt, h)
  step-Knows w _ (calls_send _ p) h = (tt, h)
  step-Knows w _ (receives _ p ps e) h =
      All-Knows w.conn (record (w.conn) { send_chan = ps }) w.tasks (λ closed. closed) h

  reach-Knows :
      {start w : World lib H V}
      → start.tasks ≡ []
      → Reachable lib start w
      → All (Knows w.conn) w.tasks
  reach-Knows {start} none here = subst (All (Knows start.conn)) (sym none) tt
  reach-Knows none (next {w} {w'} r step) = step-Knows w w' step (reach-Knows none r)

  -- However the calls are interleaved: when a Close has returned and no other is behind the swap of
  -- the flag, the connection is closed, with its channel, its heartbeat and its socket.
  pub closed_all :
      {start w : World lib H V} (before after : List Task) (o : Outcome Error (Unit {0}))
      → start.tasks ≡ []
      → IsSettled start.conn
      → length start.conn.send_chan ≤ queue_size
      → Reachable lib start w
      → w.tasks ≡ before ++ (closed_with o ∷ after)
      → closers w.tasks ≡ 0
      → (w.conn.closed ≡ true)
        × (w.conn.close_chan_closed ≡ true)
        × (w.conn.heartbeat.stopped ≡ true)
        × (w.conn.socket_closed ≡ true)
  closed_all {start} {w} before after o none s b r e z =
      let known =
        (All-middle (Knows w.conn) before after (closed_with o)
          (subst (All (Knows w.conn)) e (reach-Knows none r))).1 in
      ground (arith, (calls-IsCoherent lib none s b r).settled z)

  abbrev pub step_accesses : {w w' : World lib H V} → Step lib w w' → ℕ
  step_accesses (acts w before after t now pick e) = running t
  step_accesses (calls_close w) = 0
  step_accesses (calls_send w p) = 0
  step_accesses (receives w p ps e) = 0

  abbrev pub step_calls : {w w' : World lib H V} → Step lib w w' → ℕ
  step_calls (acts w before after t now pick e) = 0
  step_calls (calls_close w) = 1
  step_calls (calls_send w p) = 1
  step_calls (receives w p ps e) = 0

  -- The accesses that calls have made in a history, and the calls that it started.
  abbrev pub accesses : {start w : World lib H V} → Reachable lib start w → ℕ
  accesses here = 0
  accesses (next r step) = accesses r + step_accesses step

  abbrev pub calls : {start w : World lib H V} → Reachable lib start w → ℕ
  calls here = 0
  calls (next r step) = calls r + step_calls step

  step-left :
      (w w' : World lib H V) (step : Step lib w w')
      → all_left w'.tasks + step_accesses step ≤ all_left w.tasks + 5 * step_calls step
  unfolding advance
  step-left w _ (acts _ before after t now pick e) =
      let (allowed, r) = ask lib now t w.limiter in
      let (c, t') = act now allowed pick t w.conn in
      omega (
        arith,
        act-left now allowed pick t w.conn,
        all_left-append before (t ∷ after),
        all_left-append before (t' ∷ after),
        ap all_left e,
      )
  step-left w _ (calls_close _) = omega arith
  step-left w _ (calls_send _ p) = omega arith
  step-left w _ (receives _ p ps e) = omega arith

  pub accesses-calls :
      {start w : World lib H V}
      → start.tasks ≡ []
      → (r : Reachable lib start w) → accesses r + all_left w.tasks ≤ 5 * calls r
  accesses-calls none here = omega (arith, ap all_left none)
  accesses-calls none (next {w} {w'} r step) =
      omega (arith, accesses-calls none r, step-left w w' step)
