-- ===== src/Network/Connection/Loops.antt =====
-- network/conn.go: readLoop and writeLoop as whole loops; network/heartbeat.go: the ticks of
-- pingLoop and checkLoop.
use mine_net.Base.{
  ℕ, zero, suc, Bool, true, false, ◌&&◌, not, none, Outcome, ok, err, panic, if◌then◌else◌,
}
use mine_net.Base.Int.{pos}
use mine_net.Network.Errors.{Error, connection_closed, rate_limit_exceeded}
use mine_net.Network.Packet.{Packet}
use mine_net.Network.Packet.Transform.{Transforms}
use mine_net.Network.RateLimiter.{LimiterLib, is_allowed}
use mine_net.Network.Heartbeat
use mine_net.Network.Heartbeat.{Json, HeartPacket, HeartbeatManager, new_heart_packet, inc_failed}
use mine_net.Network.Connection.State.{Connection, update_last_active, drop_message, close}
use mine_net.Network.Connection.Send.{next_seq, send, write_step}
use mine_net.Network.Connection.Receive.{Node, on_heartbeat, read_step}

module _ {H V : Type 0} where
  -- Rounds of writeLoop while the socket takes what is written, and at most `fuel`.
  unfoldable pub write_loop : Transforms → Bool → ℕ → Connection H V × Bool → Connection H V × Bool
  write_loop t pick zero s = s
  write_loop t pick (suc fuel) (c, true) = write_loop t pick fuel (write_step t pick none c)
  write_loop t pick (suc fuel) (c, false) = (c, false)

module _ {H V : Type 0} (lib : LimiterLib) where
  -- readLoop for at most `fuel` rounds; `clock` is the time with so many rounds to go.
  unfoldable pub read_loop : Transforms → Json → (ℕ → ℕ) → Bool → ℕ → Node lib H V → Node lib H V
  read_loop t json clock pick zero n = n
  read_loop t json clock pick (suc fuel) n =
      let next = read_loop t json clock pick fuel (read_step lib t json (clock fuel) pick n) in
      if n.reading then next else n

  abbrev pub on_ping :
      ℕ → Outcome Error (Unit {0}) → Node lib H V → Node lib H V × Outcome Error Bool
  on_ping now (ok u) n = (on_heartbeat lib (λ h. record h { last_ping = now }) n, ok true)
  on_ping now (err e) n = (on_heartbeat lib inc_failed n, ok false)
  on_ping now panic n = (n, panic)

  -- Send of a nil packet: the checks in front of the first use of the packet, which has been given a
  -- number by then, and a panic.
  unfoldable pub send_nil : ℕ → Node lib H V → Node lib H V × Outcome Error (Unit {0})
  send_nil now n =
      let (allowed, r) = is_allowed lib now n.limiter in
      let c = update_last_active now n.conn in
      if n.conn.closed
      then (n, err connection_closed)
      else if allowed
      then (record n { limiter = r; conn = record c { message_seq = next_seq c } }, panic)
      else (record n { limiter = r; conn = drop_message c }, err rate_limit_exceeded)

  -- pingLoop ignores the error of NewHeartPacket, and then sends no packet but nil.
  unfoldable pub send_ping :
      ℕ → Bool → Outcome Error Packet → Node lib H V → Node lib H V × Outcome Error Bool
  send_ping now pick (ok p) n =
      let (r, c, result) = send lib now pick n.limiter n.conn p in
      on_ping now result (record n { limiter = r; conn = c })
  send_ping now pick failed n = let (m, result) = send_nil now n in on_ping now result m

  -- A tick of pingLoop: a packet with nothing but a time in it. `ok false` ends the loop.
  -- When the heartbeat is stopped and a tick is at hand, select may take either: `late` if the tick.
  unfoldable pub ping_tick :
      Json → ℕ → Bool → Bool → Node lib H V → Node lib H V × Outcome Error Bool
  ping_tick json now late pick n =
      if n.conn.heartbeat.stopped && not late
      then (n, ok false)
      else send_ping now pick
          (new_heart_packet json now (record { seq = 0; timestamp = pos now; kind = 0 })) n

module _ {H V : Type 0} where
  -- A tick of checkLoop; a connection that is not alive and does not reconnect is closed.
  -- `late` is select's choice, if the heartbeat is stopped.
  unfoldable pub check_tick : ℕ → Bool → Connection H V → Connection H V
  check_tick now late c =
      let (h, dead) = Heartbeat.check now late c.heartbeat in
      let d = record c { heartbeat = h } in if dead then (close d).0 else d
