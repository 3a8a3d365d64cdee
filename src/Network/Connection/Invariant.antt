-- ===== src/Network/Connection/Invariant.antt =====
-- The steps that the goroutines and the callers of a connection can make, and what they keep.
use mine_net.Base.{
  ℕ, zero, suc, ◌≤◌, ◌≡◌, ◌≢◌, refl, ap, Bool, true, false, ◌&&◌, Option, List, [], ◌∷◌, Outcome,
  panic, length, length-append, arith, ◌∙◌, if◌then◌else◌,
}
use mine_net.Network.Errors.{Error}
use mine_net.Network.Packet.{Packet}
use mine_net.Network.Packet.Transform.{Transforms}
use mine_net.Network.Heartbeat
use mine_net.Network.Heartbeat.{Json, HeartPacket, HeartbeatManager, heartbeat_ping, heartbeat_pong}
use mine_net.Network.Connection.State.{Connection, queue_size, close, finish_close}
use mine_net.Network.Connection.Send.{
  select_send, send_limited, write_frame, write_packet, defer_close, write_select, write_step,
}
use mine_net.Network.Connection.Loops.{check_tick}

retry-stopped : (n : ℕ) (h : HeartbeatManager) → (Heartbeat.retry n h).0.stopped ≡ h.stopped
unfolding Heartbeat.retry Heartbeat.reconnect
retry-stopped zero h = refl
retry-stopped (suc n) h = retry-stopped n _

pub check-stopped :
    (now : ℕ) (late : Bool) (h : HeartbeatManager)
    → (Heartbeat.check now late h).0.stopped ≡ h.stopped
unfolding Heartbeat.check Heartbeat.handle_timeout
check-stopped now late h =
    ground
      (arith, retry-stopped h.retry_count (Heartbeat.set_connected 0 (Heartbeat.inc_timeouts h)))

module _ {H V : Type 0} where
  -- The flag, the channel, the heartbeat and the socket change together, and the queue keeps to
  -- its capacity.
  pub record IsSound (c : Connection H V) : Type 0 where
    pub channel : c.close_chan_closed ≡ c.closed
    pub heartbeat : c.heartbeat.stopped ≡ c.closed
    pub socket : c.socket_closed ≡ c.closed
    pub bounded : length c.send_chan ≤ queue_size

  pub close-IsSound : (c : Connection H V) → IsSound c → IsSound (close c).0
  unfolding close finish_close Heartbeat.stop
  close-IsSound c v = ground arith

  -- Close of a sound connection never panics: neither channel is closed twice.
  pub close-ne-panic : (c : Connection H V) → IsSound c → (close c).1 ≢ panic
  unfolding close finish_close Heartbeat.stop
  close-ne-panic c v e = ground arith

  select_send-IsSound :
      (pick : Bool) (p : Packet) (c : Connection H V) → IsSound c → IsSound (select_send pick p c).0
  unfolding select_send
  select_send-IsSound pick p c v = ground (arith, length-append c.send_chan (p ∷ []))

  pub send_limited-IsSound :
      (allowed pick : Bool) (p : Packet) (c : Connection H V)
      → IsSound c
      → IsSound (send_limited allowed pick p c).0
  unfolding send_limited
  send_limited-IsSound true pick p c v = select_send-IsSound pick _ _ (ground arith)
  send_limited-IsSound false pick p c v = ground arith

  defer_close-IsSound : (s : Connection H V × Bool) → IsSound s.0 → IsSound (defer_close s).0
  unfolding defer_close
  defer_close-IsSound (c, true) v = v
  defer_close-IsSound (c, false) v = close-IsSound c v

  write_frame-IsSound :
      (failure : Option Error) (frame : Outcome Error (List ℕ)) (c : Connection H V)
      → IsSound c
      → IsSound (write_frame failure frame c).0
  unfolding write_frame
  write_frame-IsSound failure frame c v = ground arith

  IsSound-if :
      (b : Bool) (x y : Connection H V × Bool)
      → IsSound x.0
      → IsSound y.0
      → IsSound (if b then x else y).0
  IsSound-if true x y hx hy = hx
  IsSound-if false x y hx hy = hy

  write_packet-IsSound :
      (t : Transforms) (failure : Option Error) (p : Packet) (c : Connection H V)
      → IsSound c
      → IsSound (write_packet t failure p c).0
  unfolding write_packet
  write_packet-IsSound t failure p c v = write_frame-IsSound failure _ _ (ground arith)

  write_select-IsSound :
      (t : Transforms) (pick : Bool) (failure : Option Error) (ps : List Packet)
      (c : Connection H V)
      → c.send_chan ≡ ps
      → IsSound c
      → IsSound (write_select t pick failure ps c).0
  unfolding write_select
  write_select-IsSound t pick failure [] c q v =
      IsSound-if c.close_chan_closed _ _ (defer_close-IsSound (c, false) v) v
  write_select-IsSound t pick failure (p ∷ ps) c q v =
      IsSound-if (c.close_chan_closed && pick) _ _ (defer_close-IsSound (c, false) v) (
        defer_close-IsSound _ (
          write_packet-IsSound t failure p (record c { send_chan = ps })
            (record {
              channel = v.channel;
              heartbeat = v.heartbeat;
              socket = v.socket;
              bounded = omega (arith, v.bounded, ap length q);
            })))

  pub write_step-IsSound :
      (t : Transforms) (pick : Bool) (failure : Option Error) (c : Connection H V)
      → IsSound c
      → IsSound (write_step t pick failure c).0
  unfolding write_step
  write_step-IsSound t pick failure c v = write_select-IsSound t pick failure c.send_chan c refl v

  IsSound-pick :
      (b : Bool) (x y : Connection H V) → IsSound x → IsSound y → IsSound (if b then x else y)
  IsSound-pick true x y hx hy = hx
  IsSound-pick false x y hx hy = hy

  -- A connection whose heartbeat was replaced by one that runs or stands still as before.
  IsSound-heartbeat :
      (c : Connection H V) (h : HeartbeatManager)
      → h.stopped ≡ c.heartbeat.stopped
      → IsSound c
      → IsSound (record c { heartbeat = h })
  IsSound-heartbeat c h e v = record {
    channel = v.channel;
    heartbeat = e ∙ v.heartbeat;
    socket = v.socket;
    bounded = v.bounded;
  }

  pub check_tick-IsSound :
      (now : ℕ) (late : Bool) (c : Connection H V) → IsSound c → IsSound (check_tick now late c)
  unfolding check_tick
  check_tick-IsSound now late c v =
      let kept = IsSound-heartbeat c _ (check-stopped now late c.heartbeat) v in
      IsSound-pick (Heartbeat.check now late c.heartbeat).1 _ _ (close-IsSound _ kept) kept
