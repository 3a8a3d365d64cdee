-- ===== src/Network/Connection/Overtaken.antt =====
-- A round of readLoop that a Close overtakes: the channel was open when the round looked at it, and
-- the connection is closed when the round goes on with what it decodes.
use mine_net.Base.{
  ℕ, ◌+◌, ◌≤◌, ◌≡◌, refl, ap, ◌∙◌, Bool, true, false, Option, none, some, [], ◌∷◌, Outcome, ok, err,
  panic, length, length-append, arith, ◌==◌, if◌then◌else◌,
}
use mine_net.Base.Map.{nat_key}
use mine_net.Network.Errors.{Error, eof, net, timeout, connection_closed}
use mine_net.Network.Packet.{Packet, cmd_ping}
use mine_net.Network.Packet.Transform.{Transforms}
use mine_net.Network.RateLimiter.{LimiterLib}
use mine_net.Network.Heartbeat
use mine_net.Network.Heartbeat.{Json, HeartPacket, heartbeat_ping, heartbeat_pong}
use mine_net.Network.Connection.State.{update_last_active}
use mine_net.Network.Connection.Receive.{
  Node, count_failed, send_pong, answer, handle_heartbeat, stop_reading, after_heartbeat, dispatch,
  receive,
}
use mine_net.Network.Connection.Invariant.{IsSound}
use mine_net.Network.Connection.Steps.{Op, step}
use mine_net.Network.Connection.Closed.{close-closed_id, IsQuiet, send-closed, step-closed}

module _ {H V : Type 0} (lib : LimiterLib) (t : Transforms) (json : Json) where
  -- What such a round leaves: one handler may have been called.
  pub record IsOvertaken (n m : Node lib H V) : Type 0 where
    pub closed : m.conn.closed ≡ true
    pub calls : length m.dispatched ≤ length n.dispatched + 1
    pub numbers : m.conn.message_seq ≡ n.conn.message_seq
    pub queue : m.conn.send_chan ≡ n.conn.send_chan

  same-IsOvertaken :
      (n m : Node lib H V)
      → m.conn.closed ≡ true
      → m.dispatched ≡ n.dispatched
      → m.conn.message_seq ≡ n.conn.message_seq
      → m.conn.send_chan ≡ n.conn.send_chan
      → IsOvertaken n m
  same-IsOvertaken n m h d s q = record {
    closed = h;
    calls = rw d (omega arith);
    numbers = s;
    queue = q;
  }

  IsOvertaken-if :
      (n : Node lib H V) (b : Bool) (x y : Node lib H V × Outcome Error (Unit {0}))
      → IsOvertaken n x.0
      → IsOvertaken n y.0
      → IsOvertaken n (if b then x else y).0
  IsOvertaken-if n true x y hx hy = hx
  IsOvertaken-if n false x y hx hy = hy

  send_pong-IsOvertaken :
      (now : ℕ) (pick : Bool) (o : Outcome Error Packet) (n : Node lib H V)
      → n.conn.closed ≡ true
      → IsOvertaken n (send_pong lib now pick o n).0
  unfolding send_pong
  send_pong-IsOvertaken now pick (ok p) n h =
      simp (send-closed lib t json now pick p n h)
        (same-IsOvertaken n (count_failed lib (err connection_closed) n).0 h refl refl refl)
  send_pong-IsOvertaken now pick (err e) n h = same-IsOvertaken n _ h refl refl refl
  send_pong-IsOvertaken now pick panic n h = same-IsOvertaken n _ h refl refl refl

  -- From a node that differs in nothing that counts here.
  rebase :
      (n n' m : Node lib H V)
      → n'.dispatched ≡ n.dispatched
      → n'.conn.message_seq ≡ n.conn.message_seq
      → n'.conn.send_chan ≡ n.conn.send_chan
      → IsOvertaken n' m
      → IsOvertaken n m
  rebase n n' m d s q v = record {
    closed = v.closed;
    calls = omega (arith, v.calls, ap length d);
    numbers = v.numbers ∙ s;
    queue = v.queue ∙ q;
  }

  answer-IsOvertaken :
      (now : ℕ) (pick : Bool) (o : Outcome Error HeartPacket) (n : Node lib H V)
      → n.conn.closed ≡ true
      → IsOvertaken n (answer lib json now pick o n).0
  unfolding answer Heartbeat.handle_pong
  answer-IsOvertaken now pick (ok h) n e =
      IsOvertaken-if n (h.kind == heartbeat_ping) _ _
        (rebase n _ _ refl refl refl (send_pong-IsOvertaken now pick _ _ e))
        (IsOvertaken-if n (h.kind == heartbeat_pong) _ _ (same-IsOvertaken n _ e refl refl refl)
          (same-IsOvertaken n n e refl refl refl))
  answer-IsOvertaken now pick (err e) n h = same-IsOvertaken n n h refl refl refl
  answer-IsOvertaken now pick panic n h = same-IsOvertaken n n h refl refl refl

  stop_reading-IsOvertaken :
      (n m : Node lib H V) → IsOvertaken n m → IsOvertaken n (stop_reading lib m)
  unfolding stop_reading
  stop_reading-IsOvertaken n m v =
      simp (close-closed_id m.conn v.closed)
        (record { closed = v.closed; calls = v.calls; numbers = v.numbers; queue = v.queue })

  after_heartbeat-IsOvertaken :
      (n : Node lib H V) (o : Node lib H V × Outcome Error (Unit {0}))
      → IsOvertaken n o.0
      → IsOvertaken n (after_heartbeat lib o)
  unfolding after_heartbeat
  after_heartbeat-IsOvertaken n (m, ok u) v = v
  after_heartbeat-IsOvertaken n (m, err e) v = v
  after_heartbeat-IsOvertaken n (m, panic) v = stop_reading-IsOvertaken n m v

  dispatch-IsOvertaken :
      (p : Packet) (o : Option H) (n : Node lib H V)
      → n.conn.closed ≡ true
      → IsOvertaken n (dispatch lib p o n)
  unfolding dispatch
  dispatch-IsOvertaken p (some h) n e = record {
    closed = e;
    calls = omega (arith, length-append n.dispatched ((h, p) ∷ []));
    numbers = refl;
    queue = refl;
  }
  dispatch-IsOvertaken p none n e = same-IsOvertaken n _ e refl refl refl

  either-IsOvertaken :
      (n : Node lib H V) (b : Bool) {x y : Node lib H V}
      → IsOvertaken n x
      → IsOvertaken n y
      → IsOvertaken n (if b then x else y)
  either-IsOvertaken n true hx hy = hx
  either-IsOvertaken n false hx hy = hy

  receive-IsOvertaken :
      (now : ℕ) (pick : Bool) (o : Outcome Error Packet) (n : Node lib H V)
      → n.conn.closed ≡ true
      → IsOvertaken n (receive lib json now pick o n)
  unfolding receive handle_heartbeat update_last_active
  receive-IsOvertaken now pick (ok p) n e =
      either-IsOvertaken n (p.cmd_id == cmd_ping)
        (after_heartbeat-IsOvertaken n _
          (rebase n _ _ refl refl refl (answer-IsOvertaken now pick (json.unmarshal p.body) _ e)))
        (rebase n _ _ refl refl refl (dispatch-IsOvertaken p _ _ e))
  receive-IsOvertaken now pick (err eof) n e =
      stop_reading-IsOvertaken n n (same-IsOvertaken n n e refl refl refl)
  receive-IsOvertaken now pick (err (net timeout)) n e = same-IsOvertaken n _ e refl refl refl
  receive-IsOvertaken now pick (err x) n e =
      stop_reading-IsOvertaken n _ (same-IsOvertaken n _ e refl refl refl)
  receive-IsOvertaken now pick panic n e =
      stop_reading-IsOvertaken n n (same-IsOvertaken n n e refl refl refl)

  pub step-IsQuiet :
      (o : Op H V) (n : Node lib H V) (now : ℕ) (pick : Bool) (outcome : Outcome Error Packet)
      → IsSound n.conn
      → n.conn.closed ≡ true
      → IsQuiet lib t json n (step lib t json o n)
        × IsOvertaken n (receive lib json now pick outcome n)
  step-IsQuiet o n now pick outcome v h =
      (step-closed lib t json o n v h, receive-IsOvertaken now pick outcome n h)
