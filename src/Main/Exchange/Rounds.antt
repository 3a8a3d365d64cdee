-- ===== src/Main/Exchange/Rounds.antt =====
-- One round of readLoop, of Send and of writeLoop, where nothing fails.
use mine_net.Base.{
  ℕ, ◌≤◌, ◌≡◌, ◌≢◌, refl, sym, ap, ◌∙◌, Bool, true, false, none, some, [], ◌∷◌, ◌++◌, append-nil,
  ok, length, arith, ◌==◌,
}
use mine_net.Base.Map.{nat_key, lookup}
use mine_net.Network.Packet.{Packet, encode, decode, cmd_ping, max_packet_size}
use mine_net.Network.Packet.Transform.{Bytes, Transforms, PacketCodec}
use mine_net.Network.Packet.RoundTrip.{IsWire, IsPeer, on_wire, numbered, decode-encode}
use mine_net.Network.RateLimiter.{LimiterLib, RateLimiter, is_allowed}
use mine_net.Network.Heartbeat.{Json}
use mine_net.Network.Connection.State.{Connection, update_last_active}
use mine_net.Network.Connection.Send.{
  send, send_limited, select_send, enqueue, next_seq, write_step,
}
use mine_net.Network.Connection.Receive.{
  Node, count_received, on_metrics, receive, dispatch, read_step,
}
use mine_net.Network.Connection.Drain.{wrote, write_step-wrote}
use mine_net.Network.Connection.Took.{read_step-receive}

module _ {H V : Type 0} (lib : LimiterLib) where
  abbrev pub received : ℕ → Packet → Connection H V → Connection H V
  received now p c = on_metrics lib (count_received p) (update_last_active now c)

  -- A round of readLoop on the frame of a packet whose command has a handler.
  pub read_step-handled :
      (t : Transforms) (json : Json) (pick : Bool) (now : ℕ) (n : Node lib H V) (c : PacketCodec)
      (p : Packet) (h : H) {bs : Bytes}
      → IsPeer c n.conn.codec
      → IsWire p
      → p.cmd_id ≢ cmd_ping
      → (encode t c p).2 ≡ ok bs
      → length bs ≤ max_packet_size
      → n.conn.close_chan_closed ≡ false
      → lookup p.cmd_id n.conn.handlers ≡ some h
      → read_step lib t json now pick (record n { input = on_wire bs }) ≡ record n {
        input = [];
        conn = received now (numbered c p) n.conn;
        dispatched = n.dispatched ++ ((h, numbered c p) ∷ []);
      }
  unfolding receive dispatch update_last_active
  read_step-handled t json pick now n c p h {bs} peer w other e fits opened found =
      let read = decode-encode t c n.conn.codec p [] peer w e fits in
      let whole = sym (ap (decode t n.conn.codec) (append-nil (on_wire bs))) in
      let no_ping : (p.cmd_id == cmd_ping) ≡ false = ground arith in
      read_step-receive lib t json pick now (record n { input = on_wire bs }) opened (whole ∙ read)
      ∙ simp (no_ping, found)

  -- The connection with a packet that Send has numbered and queued.
  abbrev pub queued : ℕ → Packet → Connection H V → Connection H V
  queued now p c =
      enqueue (record p { seq_id = next_seq c })
        (record (update_last_active now c) { message_seq = next_seq c })

  -- Send on an open connection with an empty queue, when the limiter allows it.
  pub send_empty :
      (now : ℕ) (pick : Bool) (r : RateLimiter lib) (c : Connection H V) (p : Packet)
      → c.closed ≡ false
      → c.close_chan_closed ≡ false
      → c.send_chan ≡ []
      → (is_allowed lib now r).0 ≡ true
      → send lib now pick r c p ≡ ((is_allowed lib now r).1, queued now p c, ok tt)
  unfolding send send_limited select_send update_last_active
  send_empty now pick r c p a b d e = rw (a, b, d, e) refl

module _ {H V : Type 0} (t : Transforms) (pick : Bool) where
  pub written-IsOpen :
      (c : Connection H V) (p : Packet) {bs : Bytes}
      → c.close_chan_closed ≡ false
      → c.written ≡ []
      → c.send_chan ≡ p ∷ []
      → (encode t c.codec p).2 ≡ ok bs
      → ((write_step t pick none c).0 ≡ wrote t pick c p [] bs)
        × ((write_step t pick none c).0.written ≡ bs)
  written-IsOpen c p {bs} opened empty q e =
      let w = write_step-wrote t pick c p [] opened q e in
      (
        ap (λ (s : Connection H V × Bool). s.0) w,
        ap (λ (s : Connection H V × Bool). s.0.written) w ∙ ap (λ (w : Bytes). w ++ bs) empty,
      )

-- A codec that has encoded a packet, as the peer of its peer.
pub IsPeer-back :
    (t : Transforms) (c d : PacketCodec) (p : Packet) → IsPeer c d → IsPeer d (encode t c p).0
unfolding encode
IsPeer-back t c d p v = record {
  compress = sym v.compress;
  encrypt = sym v.encrypt;
  key = sym v.key;
  iv = sym v.iv;
}
