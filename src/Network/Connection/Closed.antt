-- ===== src/Network/Connection/Closed.antt =====
-- A closed connection stays closed and does nothing more for its callers.
use mine_net.Base.{
  ℕ, ◌≤◌, ◌≡◌, refl, ap, Bool, true, false, ◌&&◌, Option, List, [], ◌∷◌, not, Outcome, ok, err,
  panic, length, arith, ◌∙◌, if◌then◌else◌,
}
use mine_net.Network.Errors.{Error, connection_closed}
use mine_net.Network.Packet.{Packet}
use mine_net.Network.Packet.Transform.{Transforms}
use mine_net.Network.RateLimiter.{LimiterLib}
use mine_net.Network.Heartbeat
use mine_net.Network.Heartbeat.{Json, HeartPacket, HeartbeatManager, heartbeat_ping, heartbeat_pong}
use mine_net.Network.Connection.State.{Connection, close, set_handler, set_property}
use mine_net.Network.Connection.Send.{
  send, write_frame, write_packet, defer_close, write_select, write_step,
}
use mine_net.Network.Connection.Receive.{Node, stop_reading, read_step}
use mine_net.Network.Connection.Loops.{on_ping, send_nil, send_ping, ping_tick, check_tick}
use mine_net.Network.Connection.Invariant.{IsSound}
use mine_net.Network.Connection.Steps.{
  Op, sends, closes, handles, sets, reads, writes, pings, checks, step,
}

module _ {H V : Type 0} where
  pub close-closed_id : (c : Connection H V) → c.closed ≡ true → close c ≡ (c, ok tt)
  unfolding close
  close-closed_id c h = simp h

  -- What writeLoop can still do: take packets that were queued before.
  record Drains (c d : Connection H V) : Type 0 where
    pub closed : d.closed ≡ true
    pub numbers : d.message_seq ≡ c.message_seq
    pub queue : length d.send_chan ≤ length c.send_chan

  defer_close-Drains :
      (c : Connection H V) (s : Connection H V × Bool) → Drains c s.0 → Drains c (defer_close s).0
  unfolding defer_close
  defer_close-Drains c (d, true) v = v
  defer_close-Drains c (d, false) v = simp (close-closed_id d v.closed) v

  write_frame-Drains :
      (c d : Connection H V) (failure : Option Error) (frame : Outcome Error (List ℕ))
      → Drains c d
      → Drains c (write_frame failure frame d).0
  unfolding write_frame
  write_frame-Drains c d failure frame v = ground arith

  Drains-if :
      (c : Connection H V) (b : Bool) (x y : Connection H V × Bool)
      → Drains c x.0
      → Drains c y.0
      → Drains c (if b then x else y).0
  Drains-if c true x y hx hy = hx
  Drains-if c false x y hx hy = hy

  write_select-Drains :
      (t : Transforms) (pick : Bool) (failure : Option Error) (ps : List Packet)
      (c : Connection H V)
      → c.send_chan ≡ ps
      → c.closed ≡ true
      → Drains c (write_select t pick failure ps c).0
  unfolding write_select write_packet
  write_select-Drains t pick failure [] c q h =
      let same : Drains c c = ground arith in
      Drains-if c c.close_chan_closed _ _ (defer_close-Drains c (c, false) same) same
  write_select-Drains t pick failure (p ∷ ps) c q h =
      let same : Drains c c = ground arith in
      Drains-if c (c.close_chan_closed && pick) _ _ (defer_close-Drains c (c, false) same) (
        defer_close-Drains c _ (
          write_frame-Drains c _ failure _
            (record { closed = h; numbers = refl; queue = omega (arith, ap length q) })))

module _ {H V : Type 0} (lib : LimiterLib) (t : Transforms) (json : Json) where
  pub record IsQuiet (n m : Node lib H V) : Type 0 where
    pub closed : m.conn.closed ≡ true
    pub calls : m.dispatched ≡ n.dispatched
    pub numbers : m.conn.message_seq ≡ n.conn.message_seq
    pub queue : length m.conn.send_chan ≤ length n.conn.send_chan

  IsQuiet-self : (n : Node lib H V) → n.conn.closed ≡ true → IsQuiet n n
  IsQuiet-self n h = record { closed = h; calls = refl; numbers = refl; queue = omega arith }

  IsQuiet-if :
      (n : Node lib H V) (b : Bool) (x y : Node lib H V)
      → IsQuiet n x
      → IsQuiet n y
      → IsQuiet n (if b then x else y)
  IsQuiet-if n true x y hx hy = hx
  IsQuiet-if n false x y hx hy = hy

  read_step-closed :
      (now : ℕ) (pick : Bool) (n : Node lib H V)
      → IsSound n.conn
      → n.conn.closed ≡ true
      → IsQuiet n (read_step lib t json now pick n)
  unfolding read_step stop_reading
  read_step-closed now pick n v h =
      let channel = v.channel ∙ h in
      simp (channel, close-closed_id n.conn h)
        (record { closed = h; calls = refl; numbers = refl; queue = omega arith })

  -- A ping that pingLoop sends all the same is refused.
  on_ping-refused :
      (now : ℕ) (e : Error) (n : Node lib H V)
      → n.conn.closed ≡ true
      → IsQuiet n (on_ping lib now (err e) n).0
  on_ping-refused now e n h = record {
    closed = h;
    calls = refl;
    numbers = refl;
    queue = omega arith;
  }

  pub send-closed :
      (now : ℕ) (pick : Bool) (p : Packet) (n : Node lib H V)
      → n.conn.closed ≡ true
      → send lib now pick n.limiter n.conn p ≡ (n.limiter, n.conn, err connection_closed)
  unfolding send
  send-closed now pick p n h = simp h

  send_nil-closed :
      (now : ℕ) (n : Node lib H V)
      → n.conn.closed ≡ true
      → send_nil lib now n ≡ (n, err connection_closed)
  unfolding send_nil
  send_nil-closed now n h = simp h

  send_ping-closed :
      (now : ℕ) (pick : Bool) (o : Outcome Error Packet) (n : Node lib H V)
      → n.conn.closed ≡ true
      → IsQuiet n (send_ping lib now pick o n).0
  unfolding send_ping
  send_ping-closed now pick (ok p) n h =
      simp (send-closed now pick p n h) (on_ping-refused now connection_closed n h)
  send_ping-closed now pick (err e) n h =
      simp (send_nil-closed now n h) (on_ping-refused now connection_closed n h)
  send_ping-closed now pick panic n h =
      simp (send_nil-closed now n h) (on_ping-refused now connection_closed n h)

  ping_tick-closed :
      (now : ℕ) (late pick : Bool) (n : Node lib H V)
      → n.conn.closed ≡ true
      → IsQuiet n (ping_tick lib json now late pick n).0
  unfolding ping_tick
  ping_tick-closed now late pick n h =
      either (n.conn.heartbeat.stopped && not late) _ _ (IsQuiet-self n h)
        (send_ping-closed now pick _ n h)
    where
      either :
          (b : Bool) (x y : Node lib H V × Outcome Error Bool)
          → IsQuiet n x.0
          → IsQuiet n y.0
          → IsQuiet n (if b then x else y).0
      either true x y hx hy = hx
      either false x y hx hy = hy

  -- A tick of checkLoop that comes late closes nothing again.
  check_tick-closed :
      (now : ℕ) (late : Bool) (n : Node lib H V)
      → n.conn.closed ≡ true
      → IsQuiet n (record n { conn = check_tick now late n.conn })
  unfolding check_tick
  check_tick-closed now late n h = by_verdict (Heartbeat.check now late n.conn.heartbeat)
    where
      by_verdict :
          (o : HeartbeatManager × Bool)
          → IsQuiet n (record n {
            conn = let d = record (n.conn) { heartbeat = o.0 } in if o.1 then (close d).0 else d;
          })
      by_verdict (g, true) =
          simp (close-closed_id (record (n.conn) { heartbeat = g }) h)
            (record { closed = h; calls = refl; numbers = refl; queue = omega arith })
      by_verdict (g, false) = record {
        closed = h;
        calls = refl;
        numbers = refl;
        queue = omega arith;
      }

  -- A call, a round of readLoop or writeLoop, or a tick of the heartbeat that begins on a sound and
  -- closed connection and runs without another in between: the connection stays closed, no handler
  -- is called, no packet is numbered, and none is queued.
  pub step-closed :
      (o : Op H V) (n : Node lib H V)
      → IsSound n.conn
      → n.conn.closed ≡ true
      → IsQuiet n (step lib t json o n)
  unfolding step
  step-closed (sends now pick p) n v h = unfold send in simp h (IsQuiet-self n h)
  step-closed closes n v h = simp (close-closed_id n.conn h) (IsQuiet-self n h)
  step-closed (handles cmd g) n v h =
      unfold set_handler in record { closed = h; calls = refl; numbers = refl; queue = omega arith }
  step-closed (sets k x) n v h =
      unfold set_property in
      record { closed = h; calls = refl; numbers = refl; queue = omega arith }
  step-closed (reads now pick) n v h =
      IsQuiet-if n n.reading _ _ (read_step-closed now pick n v h) (IsQuiet-self n h)
  step-closed (writes pick failure) n v h =
      unfold write_step in
      (let d = write_select-Drains t pick failure n.conn.send_chan n.conn refl h in
        record { closed = d.closed; calls = refl; numbers = d.numbers; queue = d.queue })
  step-closed (pings now late pick) n v h = ping_tick-closed now late pick n h
  step-closed (checks now late) n v h = check_tick-closed now late n h
