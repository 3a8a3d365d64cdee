-- ===== src/Network/Connection/Pings.antt =====
-- network/heartbeat.go's pingLoop and network/conn.go's handleHeartbeat: what a peer makes of a ping.
use mine_net.Base.{
  ℕ, ◌<◌, ◌≡◌, refl, ◌∙◌, Bool, true, false, [], ◌∷◌, ◌++◌, Outcome, ok, length, ltb, arith,
}
use mine_net.Base.Int.{pos}
use mine_net.Network.Errors.{Error}
use mine_net.Network.Packet.{Packet, current_version, cmd_ping, unix}
use mine_net.Network.Packet.Transform.{Bytes}
use mine_net.Network.RateLimiter.{LimiterLib, is_allowed}
use mine_net.Network.Heartbeat.{Json, HeartPacket, new_heart_packet}
use mine_net.Network.Connection.State.{queue_size, update_last_active}
use mine_net.Network.Connection.Send.{send, send_limited, select_send, next_seq}
use mine_net.Network.Connection.Receive.{Node, answer, handle_heartbeat}
use mine_net.Network.Connection.Loops.{send_ping, on_ping, ping_tick}

new_heart_packet-unmarshal :
    (json : Json) (now : ℕ) (h : HeartPacket) (b : Bytes)
    → json.marshal h ≡ ok b
    → (p : Packet) × (new_heart_packet json now h ≡ ok p) × (json.unmarshal p.body ≡ ok h)
unfolding new_heart_packet
new_heart_packet-unmarshal json now h b e =
    let p : Packet = record {
      version = current_version;
      seq_id = 0;
      cmd_id = cmd_ping;
      body = b;
      timestamp = unix now;
    } in
    (p, simp e, json.unmarshal-marshal h b e)

module _ (lib : LimiterLib) (json : Json) (H V : Type 0) where
  -- The peer reads the packet without error, and neither answers nor records it: the queue and the
  -- heartbeat stay as they were.
  abbrev pub IsIgnored : Packet → Type 0
  IsIgnored p =
      (now : ℕ) (pick : Bool) (m : Node lib H V)
      → ((handle_heartbeat lib json now pick p m).1 ≡ ok tt)
        × ((handle_heartbeat lib json now pick p m).0.conn.heartbeat ≡ m.conn.heartbeat)
        × ((handle_heartbeat lib json now pick p m).0.conn.send_chan ≡ m.conn.send_chan)

  unmarshal-IsIgnored :
      (p : Packet) (h : HeartPacket) → json.unmarshal p.body ≡ ok h → h.kind ≡ 0 → IsIgnored p
  unfolding handle_heartbeat answer update_last_active
  unmarshal-IsIgnored p h e untyped now pick m = rw (e, untyped) (refl, refl, refl)

module _ {H V : Type 0} (lib : LimiterLib) (json : Json) where
  -- A tick of pingLoop queues one packet, which every peer ignores.
  abbrev pub IsUnanswered : ℕ → Bool → Bool → Node lib H V → Type 0
  IsUnanswered now late pick n =
      (p : Packet) × ((ping_tick lib json now late pick n).0.conn.send_chan
        ≡ n.conn.send_chan ++ (p ∷ []))
      × IsIgnored lib json H V p

  -- Send on an open connection with room in its queue.
  send-queued :
      (now : ℕ) (pick : Bool) (n : Node lib H V) (p : Packet)
      → n.conn.closed ≡ false
      → n.conn.close_chan_closed ≡ false
      → (is_allowed lib now n.limiter).0 ≡ true
      → length n.conn.send_chan < queue_size
      → ((send lib now pick n.limiter n.conn p).1.send_chan
          ≡ n.conn.send_chan ++ (record p { seq_id = next_seq n.conn } ∷ []))
        × ((send lib now pick n.limiter n.conn p).2 ≡ ok tt)
  unfolding send send_limited select_send update_last_active
  send-queued now pick n p opened channel allowed room =
      let fits : ltb (length n.conn.send_chan) queue_size ≡ true = ground arith in
      simp (opened, channel, allowed, fits) (refl, refl)

  on_ping-send_chan :
      (now : ℕ) (o : Outcome Error (Unit {0})) (n : Node lib H V)
      → (on_ping lib now o n).0.conn.send_chan ≡ n.conn.send_chan
  on_ping-send_chan now o n = ground arith

  send_ping-send_chan :
      (now : ℕ) (pick : Bool) (p : Packet) (n : Node lib H V)
      → (send_ping lib now pick (ok p) n).0.conn.send_chan
        ≡ (send lib now pick n.limiter n.conn p).1.send_chan
  unfolding send_ping
  send_ping-send_chan now pick p n = on_ping-send_chan now _ _

  ping_tick-running :
      (now : ℕ) (late pick : Bool) (n : Node lib H V) (o : Outcome Error Packet)
      → n.conn.heartbeat.stopped ≡ false
      → new_heart_packet json now (record { seq = 0; timestamp = pos now; kind = 0 }) ≡ o
      → ping_tick lib json now late pick n ≡ send_ping lib now pick o n
  unfolding ping_tick
  ping_tick-running now late pick n o on e = simp (on, e)

  -- Where marshalling a heart packet succeeds: a tick of pingLoop on an open connection with a
  -- running heartbeat, a limiter that allows it and room in the queue puts one packet behind the
  -- others; and any connection that handles this packet does so without error, and neither answers
  -- nor records it: its queue and its heartbeat stay as they were.
  pub ping_tick-IsUnanswered :
      (now : ℕ) (late pick : Bool) (n : Node lib H V)
      → ((h : HeartPacket) → (b : Bytes) × (json.marshal h ≡ ok b))
      → n.conn.heartbeat.stopped ≡ false
      → n.conn.closed ≡ false
      → n.conn.close_chan_closed ≡ false
      → (is_allowed lib now n.limiter).0 ≡ true
      → length n.conn.send_chan < queue_size
      → IsUnanswered now late pick n
  ping_tick-IsUnanswered now late pick n marshals on opened channel allowed room =
      let h : HeartPacket = record { seq = 0; timestamp = pos now; kind = 0 } in
      let (b, e) = marshals h in
      let (p, made, read) = new_heart_packet-unmarshal json now h b e in
      let sent = send-queued now pick n p opened channel allowed room in
      (
        record p { seq_id = next_seq n.conn },
        rw (ping_tick-running now late pick n (ok p) on made)
            (send_ping-send_chan now pick p n ∙ sent.0),
        unmarshal-IsIgnored lib json H V (record p { seq_id = next_seq n.conn }) h read refl,
      )
