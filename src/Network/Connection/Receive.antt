-- ===== src/Network/Connection/Receive.antt =====
-- network/conn.go: readLoop and handleHeartbeat; network/heartbeat.go: the ticks that use the
-- connection.
use mine_net.Base.{
  ℕ, ◌+◌, ◌%◌, ◌^◌, Bool, false, Option, none, some, List, [], ◌∷◌, ◌++◌, Outcome, ok, err, panic,
  length, ◌==◌, if◌then◌else◌,
}
use mine_net.Base.Int.{pos}
use mine_net.Base.Map.{nat_key, lookup}
use mine_net.Network.Errors.{Error, eof, net, timeout}
use mine_net.Network.Packet.{Packet, Event, decode, cmd_ping}
use mine_net.Network.Packet.Transform.{Transforms}
use mine_net.Network.RateLimiter.{LimiterLib, RateLimiter}
use mine_net.Network.Heartbeat.{
  Json, HeartPacket, HeartbeatManager, new_heart_packet, heartbeat_ping, heartbeat_pong,
  handle_pong, inc_failed,
}
use mine_net.Network.Connection.State.{
  Connection, ConnMetrics, update_last_active, count_error, close,
}
use mine_net.Network.Connection.Send.{send}

module _ (lib : LimiterLib) (H V : Type 0) where
  -- What a goroutine of the connection works on: the limiter, the connection, what is still to be
  -- read, the handler calls that readLoop has started, and whether readLoop runs.
  pub record Node : Type 0 where
    pub limiter : RateLimiter lib
    pub conn : Connection H V
    pub input : List Event
    pub dispatched : List (H × Packet)
    pub reading : Bool

abbrev pub count_received : Packet → ConnMetrics → ConnMetrics
count_received p m = record m {
  bytes_in = m.bytes_in + length p.body;
  msg_in = m.msg_in + 1;
  msg_total = m.msg_total + 1;
}

module _ {H V : Type 0} (lib : LimiterLib) where
  abbrev pub on_heartbeat : (HeartbeatManager → HeartbeatManager) → Node lib H V → Node lib H V
  on_heartbeat f n = record n { conn = record (n.conn) { heartbeat = f n.conn.heartbeat } }

  -- A failure counts as a failed heartbeat.
  abbrev pub count_failed :
      Outcome Error (Unit {0}) → Node lib H V → Node lib H V × Outcome Error (Unit {0})
  count_failed (ok u) n = (n, ok u)
  count_failed (err e) n = (on_heartbeat inc_failed n, err e)
  count_failed panic n = (n, panic)

  unfoldable pub send_pong :
      ℕ → Bool → Outcome Error Packet → Node lib H V → Node lib H V × Outcome Error (Unit {0})
  send_pong now pick (ok p) n =
      let (r, c, result) = send lib now pick n.limiter n.conn p in
      count_failed result (record n { limiter = r; conn = c })
  send_pong now pick (err e) n = count_failed (err e) n
  send_pong now pick panic n = (n, panic)

  -- A ping is answered by a pong with the next heartbeat number, and a pong is recorded; any other
  -- type is ignored. The source parses the data a second time in each case, with the same outcome.
  unfoldable pub answer :
      Json
      → ℕ
      → Bool
      → Outcome Error HeartPacket
      → Node lib H V
      → Node lib H V × Outcome Error (Unit {0})
  answer json now pick (ok h) n =
      if h.kind == heartbeat_ping
      then (let seq = (n.conn.heartbeat_seq + 1) % 2 ^ 64 in
          send_pong now pick
            (new_heart_packet json now
              (record { seq = seq; timestamp = pos now; kind = heartbeat_pong }))
            (record n { conn = record (n.conn) { heartbeat_seq = seq } }))
      else if h.kind == heartbeat_pong
      then (on_heartbeat (handle_pong now h) n, ok tt)
      else (n, ok tt)
  answer json now pick (err e) n = (n, err e)
  answer json now pick panic n = (n, panic)

  unfoldable pub handle_heartbeat :
      Json → ℕ → Bool → Packet → Node lib H V → Node lib H V × Outcome Error (Unit {0})
  handle_heartbeat json now pick p n =
      answer json now pick (json.unmarshal p.body)
        (record n { conn = update_last_active now n.conn })

  -- The loop ends, and with it the deferred Close.
  unfoldable pub stop_reading : Node lib H V → Node lib H V
  stop_reading n = record n { conn = (close n.conn).0; reading = false }

  abbrev pub on_metrics : (ConnMetrics → ConnMetrics) → Connection H V → Connection H V
  on_metrics f c = record c { metrics = f c.metrics }

  -- A packet that is no heartbeat goes to the handler of its command, in a goroutine of its own.
  unfoldable pub dispatch : Packet → Option H → Node lib H V → Node lib H V
  dispatch p (some h) n = record n { dispatched = n.dispatched ++ ((h, p) ∷ []) }
  dispatch p none n = record n {
    conn = on_metrics (λ m. record m { error_total = m.error_total + 1 }) n.conn;
  }

  -- readLoop logs an error of handleHeartbeat and goes on; a panic ends it.
  unfoldable pub after_heartbeat : Node lib H V × Outcome Error (Unit {0}) → Node lib H V
  after_heartbeat (n, ok u) = n
  after_heartbeat (n, err e) = n
  after_heartbeat (n, panic) = stop_reading n

  -- What readLoop does with the outcome of Decode.
  unfoldable pub receive : Json → ℕ → Bool → Outcome Error Packet → Node lib H V → Node lib H V
  receive json now pick (ok p) n =
      let m = record n { conn = on_metrics (count_received p) (update_last_active now n.conn) } in
      if p.cmd_id == cmd_ping
      then after_heartbeat (handle_heartbeat json now pick p m)
      else dispatch p (lookup p.cmd_id m.conn.handlers) m
  receive json now pick (err eof) n = stop_reading n
  receive json now pick (err (net timeout)) n = record n {
    conn = on_metrics (λ m. record m { timeout_total = m.timeout_total + 1 }) n.conn;
  }
  receive json now pick (err e) n = stop_reading (record n {
    conn =
        count_error (record (n.conn.metrics) { recv_errors = n.conn.metrics.recv_errors + 1 })
          n.conn;
  })
  receive json now pick panic n = stop_reading n

  -- A round of readLoop.
  unfoldable pub read_step : Transforms → Json → ℕ → Bool → Node lib H V → Node lib H V
  read_step t json now pick n =
      let (outcome, rest) = decode t n.conn.codec n.input in
      if n.conn.close_chan_closed
      then stop_reading n
      else receive json now pick outcome (record n { input = rest })
