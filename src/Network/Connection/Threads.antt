-- ===== src/Network/Connection/Threads.antt =====
-- network/conn.go: Send and Close as the goroutines run them, one access of the shared state at a
-- time: the compare-and-swap, the closing of a channel, an atomic addition, the select.
pub mod Alone
pub mod Invariant
pub mod Safety
pub mod Ends
pub mod Late
pub mod Tests
use mine_net.Base.{
  ℕ, ◌≡◌, Bool, true, false, List, ◌∷◌, ◌++◌, Outcome, ok, err, panic, if◌then◌else◌,
}
use mine_net.Network.Errors.{Error, connection_closed, rate_limit_exceeded}
use mine_net.Network.Packet.{Packet}
use mine_net.Network.RateLimiter.{LimiterLib, RateLimiter, is_allowed}
use mine_net.Network.Heartbeat
use mine_net.Network.Heartbeat.{HeartbeatManager}
use mine_net.Network.Connection.State.{Connection, update_last_active, drop_message, socket_result}
use mine_net.Network.Connection.Send.{next_seq, select_send}

-- Where a call stands: in front of the access that it makes next, or returned.
pub data Task : Type 0 where
  swapping closing_channel stopping_heartbeat setting_gauge closing_socket : Task
  closed_with : Outcome Error (Unit {0}) → Task
  checking marking limiting numbering selecting : Packet → Task
  sent_with : Outcome Error (Unit {0}) → Task

module _ {H V : Type 0} where
  unfoldable pub after_stop :
      Connection H V → Outcome Error HeartbeatManager → Connection H V × Task
  after_stop c (ok h) = (record c { heartbeat = h }, setting_gauge)
  after_stop c (err e) = (c, closed_with (err e))
  after_stop c panic = (c, closed_with panic)

  -- The next access of Close.
  unfoldable pub swap_flag : Connection H V → Connection H V × Task
  swap_flag c =
      if c.closed then (c, closed_with (ok tt)) else (record c { closed = true }, closing_channel)

  unfoldable pub close_channel : Connection H V → Connection H V × Task
  close_channel c =
      if c.close_chan_closed
      then (c, closed_with panic)
      else (record c { close_chan_closed = true }, stopping_heartbeat)

  unfoldable pub set_gauge : Connection H V → Connection H V × Task
  set_gauge c = (record c { metrics = record (c.metrics) { connected = 0 } }, closing_socket)

  unfoldable pub close_socket : Connection H V → Connection H V × Task
  close_socket c = (record c { socket_closed = true }, closed_with (socket_result c.socket_error))

  -- The next access of Send.
  unfoldable pub check_closed : Packet → Connection H V → Task
  check_closed p c = if c.closed then sent_with (err connection_closed) else marking p

  unfoldable pub limited : Bool → Packet → Connection H V → Connection H V × Task
  limited true p c = (c, numbering p)
  limited false p c = (drop_message c, sent_with (err rate_limit_exceeded))

  unfoldable pub number_packet : Packet → Connection H V → Connection H V × Task
  number_packet p c =
      (record c { message_seq = next_seq c }, selecting (record p { seq_id = next_seq c }))

  unfoldable pub select_queue : Bool → Packet → Connection H V → Connection H V × Task
  select_queue pick p c = let (c', result) = select_send pick p c in (c', sent_with result)

  -- The connection and the call behind its next access; the limiter's answer is `allowed`.
  unfoldable pub act : ℕ → Bool → Bool → Task → Connection H V → Connection H V × Task
  act now allowed pick swapping c = swap_flag c
  act now allowed pick closing_channel c = close_channel c
  act now allowed pick stopping_heartbeat c = after_stop c (Heartbeat.stop c.heartbeat)
  act now allowed pick setting_gauge c = set_gauge c
  act now allowed pick closing_socket c = close_socket c
  act now allowed pick (closed_with o) c = (c, closed_with o)
  act now allowed pick (checking p) c = (c, check_closed p c)
  act now allowed pick (marking p) c = (update_last_active now c, limiting p)
  act now allowed pick (limiting p) c = limited allowed p c
  act now allowed pick (numbering p) c = number_packet p c
  act now allowed pick (selecting p) c = select_queue pick p c
  act now allowed pick (sent_with o) c = (c, sent_with o)

module _ (lib : LimiterLib) (H V : Type 0) where
  pub record World : Type 0 where
    pub limiter : RateLimiter lib
    pub conn : Connection H V
    pub tasks : List Task

module _ (lib : LimiterLib) where
  -- Only Send's `limiting` asks the limiter.
  unfoldable pub ask : ℕ → Task → RateLimiter lib → Bool × RateLimiter lib
  ask now (limiting p) r = is_allowed lib now r
  ask now t r = (true, r)

module _ {H V : Type 0} (lib : LimiterLib) where
  unfoldable pub advance :
      ℕ → Bool → Task → RateLimiter lib → Connection H V → RateLimiter lib × Connection H V × Task
  advance now pick t r c =
      let (allowed, r') = ask lib now t r in let (c', t') = act now allowed pick t c in (r', c', t')

  -- One access by one of the calls, a new call of Close or Send, or writeLoop's receive from the
  -- queue.
  pub data Step : World lib H V → World lib H V → Type 0 where
    acts :
        (w : World lib H V) (before after : List Task) (t : Task) (now : ℕ) (pick : Bool)
        → w.tasks ≡ before ++ (t ∷ after)
        → Step w (
            let (r, c, t') = advance now pick t w.limiter w.conn in
            record { limiter = r; conn = c; tasks = before ++ (t' ∷ after) })
    calls_close : (w : World lib H V) → Step w (record w { tasks = swapping ∷ w.tasks })
    calls_send :
        (w : World lib H V) (p : Packet) → Step w (record w { tasks = checking p ∷ w.tasks })
    receives :
        (w : World lib H V) (p : Packet) (ps : List Packet)
        → w.conn.send_chan ≡ p ∷ ps
        → Step w (record w { conn = record (w.conn) { send_chan = ps } })

  pub data Reachable (start : World lib H V) : World lib H V → Type 0 where
    here : Reachable start start
    next : {w w' : World lib H V} → Reachable start w → Step w w' → Reachable start w'
