-- ===== src/Network/Connection/Steps.antt =====
-- Every step that the goroutines and the callers of a connection can make, in any order, and what
-- all of them keep.
use mine_net.Base.{
  String, ℕ, Bool, true, false, Option, List, [], ◌∷◌, ◌&&◌, not, Outcome, ok, err, panic, arith,
  if◌then◌else◌,
}
use mine_net.Network.Errors.{Error}
use mine_net.Network.Packet.{Packet}
use mine_net.Network.Packet.Transform.{Transforms}
use mine_net.Network.RateLimiter.{LimiterLib, is_allowed}
use mine_net.Network.Heartbeat.{Json}
use mine_net.Network.Connection.State.{
  Connection, close, update_last_active, set_handler, set_property,
}
use mine_net.Network.Connection.Send.{send, write_step}
use mine_net.Network.Connection.Receive.{Node, read_step}
use mine_net.Network.Connection.Loops.{send_nil, send_ping, on_ping, ping_tick, check_tick}
use mine_net.Network.Connection.Invariant.{
  IsSound, close-IsSound, check_tick-IsSound, write_step-IsSound,
}
use mine_net.Network.Connection.ReadInvariant.{IsSound-node, send-IsSound, read_step-IsSound}

-- What can happen next: calls of the interface, rounds of the two loops, ticks of the heartbeat.
pub data Op (H V : Type 0) : Type 0 where
  sends : ℕ → Bool → Packet → Op H V
  closes : Op H V
  handles : ℕ → H → Op H V
  sets : String → V → Op H V
  reads : ℕ → Bool → Op H V
  writes : Bool → Option Error → Op H V
  pings : ℕ → Bool → Bool → Op H V
  checks : ℕ → Bool → Op H V

module _ {H V : Type 0} (lib : LimiterLib) (t : Transforms) (json : Json) where
  abbrev with_conn : Node lib H V → Connection H V → Node lib H V
  with_conn n c = record n { conn = c }

  unfoldable pub step : Op H V → Node lib H V → Node lib H V
  step (sends now pick p) n =
      let (r, c, result) = send lib now pick n.limiter n.conn p in
      record n { limiter = r; conn = c }
  step closes n = with_conn n (close n.conn).0
  step (handles cmd h) n = with_conn n (set_handler cmd h n.conn)
  step (sets k v) n = with_conn n (set_property k v n.conn)
  step (reads now pick) n = if n.reading then read_step lib t json now pick n else n
  step (writes pick failure) n = with_conn n (write_step t pick failure n.conn).0
  step (pings now late pick) n = (ping_tick lib json now late pick n).0
  step (checks now late) n = with_conn n (check_tick now late n.conn)

  unfoldable pub run : List (Op H V) → Node lib H V → Node lib H V
  run [] n = n
  run (o ∷ os) n = run os (step o n)

  on_ping-IsSound :
      (now : ℕ) (o : Outcome Error (Unit {0})) (n : Node lib H V)
      → IsSound n.conn
      → IsSound (on_ping lib now o n).0.conn
  on_ping-IsSound now (ok u) n v = ground arith
  on_ping-IsSound now (err e) n v = ground arith
  on_ping-IsSound now panic n v = v

  IsSound-result :
      {R : Type 0} (b : Bool) (x y : Node lib H V × R)
      → IsSound x.0.conn
      → IsSound y.0.conn
      → IsSound (if b then x else y).0.conn
  IsSound-result true x y hx hy = hx
  IsSound-result false x y hx hy = hy

  send_nil-IsSound :
      (now : ℕ) (n : Node lib H V) → IsSound n.conn → IsSound (send_nil lib now n).0.conn
  unfolding send_nil update_last_active
  send_nil-IsSound now n v =
      IsSound-result n.conn.closed _ _ v
        (IsSound-result (is_allowed lib now n.limiter).0 _ _ (ground arith) (ground arith))

  send_ping-IsSound :
      (now : ℕ) (pick : Bool) (o : Outcome Error Packet) (n : Node lib H V)
      → IsSound n.conn
      → IsSound (send_ping lib now pick o n).0.conn
  unfolding send_ping
  send_ping-IsSound now pick (ok p) n v = on_ping-IsSound now _ _ (send-IsSound lib now pick n p v)
  send_ping-IsSound now pick (err e) n v =
      on_ping-IsSound now (send_nil lib now n).1 _ (send_nil-IsSound now n v)
  send_ping-IsSound now pick panic n v =
      on_ping-IsSound now (send_nil lib now n).1 _ (send_nil-IsSound now n v)

  ping_tick-IsSound :
      (now : ℕ) (late pick : Bool) (n : Node lib H V)
      → IsSound n.conn
      → IsSound (ping_tick lib json now late pick n).0.conn
  unfolding ping_tick
  ping_tick-IsSound now late pick n v =
      IsSound-result (n.conn.heartbeat.stopped && not late) _ _ v (send_ping-IsSound now pick _ n v)

  step-IsSound : (o : Op H V) (n : Node lib H V) → IsSound n.conn → IsSound (step o n).conn
  unfolding step set_handler set_property
  step-IsSound (sends now pick p) n v = send-IsSound lib now pick n p v
  step-IsSound closes n v = close-IsSound n.conn v
  step-IsSound (handles cmd h) n v = ground arith
  step-IsSound (sets k x) n v = ground arith
  step-IsSound (reads now pick) n v =
      IsSound-node lib n.reading _ _ (read_step-IsSound lib t json now pick n v) v
  step-IsSound (writes pick failure) n v = write_step-IsSound t pick failure n.conn v
  step-IsSound (pings now late pick) n v = ping_tick-IsSound now late pick n v
  step-IsSound (checks now late) n v = check_tick-IsSound now late n.conn v

  -- From a sound connection, in any history, the flag, the closed channel, the stopped heartbeat and the closed socket agree,
  -- and the send queue keeps to its capacity.
  pub run-IsSound :
      (os : List (Op H V)) (n : Node lib H V) → IsSound n.conn → IsSound (run os n).conn
  unfolding run
  run-IsSound [] n v = v
  run-IsSound (o ∷ os) n v = run-IsSound os (step o n) (step-IsSound o n v)
