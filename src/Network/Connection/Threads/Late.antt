-- ===== src/Network/Connection/Threads/Late.antt =====
-- How many Sends a Close can still let through, in any interleaving of their accesses.
use mine_net.Base.{
  ℕ, ◌+◌, ◌≤◌, ◌≡◌, ap, Bool, true, List, [], ◌∷◌, ◌++◌, length, length-append, arith,
}
use mine_net.Network.Packet.{Packet}
use mine_net.Network.RateLimiter.{LimiterLib}
use mine_net.Network.Connection.State.{Connection, update_last_active}
use mine_net.Network.Connection.Send.{select_send}
use mine_net.Network.Connection.Threads.{
  Task, stopping_heartbeat, marking, limiting, numbering, selecting, after_stop, swap_flag,
  close_channel, set_gauge, close_socket, check_closed, limited, number_packet, select_queue, act,
  World, ask, advance, Step, acts, calls_close, calls_send, receives, Reachable, here, next,
}
use mine_net.Network.Connection.Threads.Ends.{act-closed}

-- 1 for a Send that has looked at the flag and has not come to its select.
abbrev pub late : Task → ℕ
late (marking p) = 1
late (limiting p) = 1
late (numbering p) = 1
late (selecting p) = 1
late _ = 0

abbrev pub all_late : List Task → ℕ
all_late [] = 0
all_late (t ∷ ts) = late t + all_late ts

all_late-append : (xs ys : List Task) → all_late (xs ++ ys) ≡ all_late xs + all_late ys
all_late-append [] ys = omega arith
all_late-append (t ∷ xs) ys = omega (arith, all_late-append xs ys)

module _ {H V : Type 0} where
  select_send-length :
      (pick : Bool) (p : Packet) (c : Connection H V)
      → length (select_send pick p c).0.send_chan ≤ length c.send_chan + 1
  unfolding select_send
  select_send-length pick p c = ground (arith, length-append c.send_chan (p ∷ []))

  -- What an access queues, a Send has paid for by being late.
  act-late :
      (now : ℕ) (allowed pick : Bool) (t : Task) (c : Connection H V)
      → c.closed ≡ true
      → length (act now allowed pick t c).0.send_chan + late (act now allowed pick t c).1
        ≤ length c.send_chan + late t
  unfolding act swap_flag close_channel after_stop set_gauge close_socket check_closed limited
      number_packet select_queue update_last_active
  act-late now allowed pick stopping_heartbeat c h = ground arith
  act-late now allowed pick (selecting p) c h = omega (arith, select_send-length pick p c)
  act-late now allowed pick _ c h = ground arith

module _ {H V : Type 0} (lib : LimiterLib) where
  abbrev pub step_takes : {w w' : World lib H V} → Step lib w w' → ℕ
  step_takes (acts w before after t now pick e) = 0
  step_takes (calls_close w) = 0
  step_takes (calls_send w p) = 0
  step_takes (receives w p ps e) = 1

  -- How many packets writeLoop has taken in a history.
  abbrev pub takes : {start w : World lib H V} → Reachable lib start w → ℕ
  takes here = 0
  takes (next r step) = takes r + step_takes step

  step-closed_flag :
      (w w' : World lib H V) → Step lib w w' → w.conn.closed ≡ true → w'.conn.closed ≡ true
  unfolding advance
  step-closed_flag w _ (acts _ before after t now pick e) h =
      act-closed now (ask lib now t w.limiter).0 pick t w.conn h
  step-closed_flag w _ (calls_close _) h = h
  step-closed_flag w _ (calls_send _ p) h = h
  step-closed_flag w _ (receives _ p ps e) h = h

  reach-closed_flag :
      {start w : World lib H V}
      → start.conn.closed ≡ true
      → Reachable lib start w
      → w.conn.closed ≡ true
  reach-closed_flag h here = h
  reach-closed_flag h (next {w} {w'} r step) = step-closed_flag w w' step (reach-closed_flag h r)

  step-late :
      (w w' : World lib H V) (step : Step lib w w')
      → w.conn.closed ≡ true
      → step_takes step + length w'.conn.send_chan + all_late w'.tasks
        ≤ length w.conn.send_chan + all_late w.tasks
  unfolding advance
  step-late w _ (acts _ before after t now pick e) h =
      let (allowed, r) = ask lib now t w.limiter in
      let (c, t') = act now allowed pick t w.conn in
      omega (
        arith,
        act-late now allowed pick t w.conn h,
        all_late-append before (t ∷ after),
        all_late-append before (t' ∷ after),
        ap all_late e,
      )
  step-late w _ (calls_close _) h = omega arith
  step-late w _ (calls_send _ p) h = omega arith
  step-late w _ (receives _ p ps e) h = omega (arith, ap length e)

  -- From a state in which the flag of the connection is set, however calls of Send and Close and
  -- writeLoop are interleaved from there: the packets that writeLoop takes, with those that are left
  -- in the queue and the Sends still between their look at the flag and their select, are at most as
  -- many as were queued, with the Sends that were between the two, when the history began. So a Send
  -- that is called behind Close queues nothing.
  pub late_sends :
      {start w : World lib H V}
      → start.conn.closed ≡ true
      → (r : Reachable lib start w)
      → takes r + length w.conn.send_chan + all_late w.tasks
        ≤ length start.conn.send_chan + all_late start.tasks
  late_sends h here = omega arith
  late_sends h (next {w} {w'} r step) =
      omega (arith, late_sends h r, step-late w w' step (reach-closed_flag h r))
