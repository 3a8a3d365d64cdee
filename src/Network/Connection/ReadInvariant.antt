-- ===== src/Network/Connection/ReadInvariant.antt =====
-- Send and readLoop keep a connection sound.
use mine_net.Base.{
  ℕ, Bool, true, false, Option, none, some, Outcome, ok, err, panic, arith, ◌==◌, if◌then◌else◌,
}
use mine_net.Network.Errors.{Error, eof, net, timeout}
use mine_net.Network.Packet.{Packet, cmd_ping}
use mine_net.Network.Packet.Transform.{Transforms}
use mine_net.Network.RateLimiter.{LimiterLib, RateLimiter}
use mine_net.Network.Heartbeat
use mine_net.Network.Heartbeat.{Json, HeartPacket, HeartbeatManager, heartbeat_ping, heartbeat_pong}
use mine_net.Network.Connection.State.{Connection, update_last_active}
use mine_net.Network.Connection.Send.{send}
use mine_net.Network.Connection.Receive.{
  Node, count_failed, send_pong, answer, handle_heartbeat, stop_reading, after_heartbeat, dispatch,
  receive, read_step,
}
use mine_net.Network.Connection.Invariant.{IsSound, close-IsSound, send_limited-IsSound}

module _ {H V : Type 0} (lib : LimiterLib) where
  pub send-IsSound :
      (now : ℕ) (pick : Bool) (n : Node lib H V) (p : Packet)
      → IsSound n.conn
      → IsSound (send lib now pick n.limiter n.conn p).1
  unfolding send update_last_active
  send-IsSound now pick n p v =
      triple n.conn.closed _ _ v (send_limited-IsSound _ pick p _ (ground arith))
    where
      triple :
          (b : Bool) (x y : RateLimiter lib × Connection H V × Outcome Error (Unit {0}))
          → IsSound x.1
          → IsSound y.1
          → IsSound (if b then x else y).1
      triple true x y hx hy = hx
      triple false x y hx hy = hy

  pub IsSound-node :
      (b : Bool) (x y : Node lib H V)
      → IsSound x.conn
      → IsSound y.conn
      → IsSound (if b then x else y).conn
  IsSound-node true x y hx hy = hx
  IsSound-node false x y hx hy = hy

  count_failed-IsSound :
      (o : Outcome Error (Unit {0})) (n : Node lib H V)
      → IsSound n.conn
      → IsSound (count_failed lib o n).0.conn
  count_failed-IsSound (ok u) n v = v
  count_failed-IsSound (err e) n v = ground arith
  count_failed-IsSound panic n v = v

  send_pong-IsSound :
      (now : ℕ) (pick : Bool) (o : Outcome Error Packet) (n : Node lib H V)
      → IsSound n.conn
      → IsSound (send_pong lib now pick o n).0.conn
  unfolding send_pong
  send_pong-IsSound now pick (ok p) n v = count_failed-IsSound _ _ (send-IsSound now pick n p v)
  send_pong-IsSound now pick (err e) n v = count_failed-IsSound (err e) n v
  send_pong-IsSound now pick panic n v = v

  answer-IsSound :
      (json : Json) (now : ℕ) (pick : Bool) (o : Outcome Error HeartPacket) (n : Node lib H V)
      → IsSound n.conn
      → IsSound (answer lib json now pick o n).0.conn
  unfolding answer Heartbeat.handle_pong
  answer-IsSound json now pick (ok h) n v =
      node (h.kind == heartbeat_ping) _ _ (send_pong-IsSound now pick _ _ (ground arith))
        (node (h.kind == heartbeat_pong) _ _ (ground arith) v)
    where
      node :
          (b : Bool) (x y : Node lib H V × Outcome Error (Unit {0}))
          → IsSound x.0.conn
          → IsSound y.0.conn
          → IsSound (if b then x else y).0.conn
      node true x y hx hy = hx
      node false x y hx hy = hy
  answer-IsSound json now pick (err e) n v = v
  answer-IsSound json now pick panic n v = v

  dispatch-IsSound :
      (p : Packet) (o : Option H) (n : Node lib H V)
      → IsSound n.conn
      → IsSound (dispatch lib p o n).conn
  unfolding dispatch
  dispatch-IsSound p (some h) n v = v
  dispatch-IsSound p none n v = ground arith

  stop_reading-IsSound : (n : Node lib H V) → IsSound n.conn → IsSound (stop_reading lib n).conn
  unfolding stop_reading
  stop_reading-IsSound n v = close-IsSound n.conn v

  after_heartbeat-IsSound :
      (o : Node lib H V × Outcome Error (Unit {0}))
      → IsSound o.0.conn
      → IsSound (after_heartbeat lib o).conn
  unfolding after_heartbeat
  after_heartbeat-IsSound (n, ok u) v = v
  after_heartbeat-IsSound (n, err e) v = v
  after_heartbeat-IsSound (n, panic) v = stop_reading-IsSound n v

  receive-IsSound :
      (json : Json) (now : ℕ) (pick : Bool) (o : Outcome Error Packet) (n : Node lib H V)
      → IsSound n.conn
      → IsSound (receive lib json now pick o n).conn
  unfolding receive handle_heartbeat update_last_active
  receive-IsSound json now pick (ok p) n v =
      IsSound-node (p.cmd_id == cmd_ping) _ _
        (after_heartbeat-IsSound _
          (answer-IsSound json now pick (json.unmarshal p.body) _ (ground arith)))
        (dispatch-IsSound p _ _ (ground arith))
  receive-IsSound json now pick (err eof) n v = stop_reading-IsSound n v
  receive-IsSound json now pick (err (net timeout)) n v = ground arith
  receive-IsSound json now pick (err e) n v = stop_reading-IsSound _ (ground arith)
  receive-IsSound json now pick panic n v = stop_reading-IsSound n v

  pub read_step-IsSound :
      (t : Transforms) (json : Json) (now : ℕ) (pick : Bool) (n : Node lib H V)
      → IsSound n.conn
      → IsSound (read_step lib t json now pick n).conn
  unfolding read_step
  read_step-IsSound t json now pick n v =
      IsSound-node n.conn.close_chan_closed _ _ (stop_reading-IsSound n v)
        (receive-IsSound json now pick _ (record n { input = _ }) v)
