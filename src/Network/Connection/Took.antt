-- ===== src/Network/Connection/Took.antt =====
-- readLoop: a round on the frame of a packet that is no heartbeat.
use mine_net.Base.{
  ℕ, ◌≤◌, ◌≡◌, ◌≢◌, refl, ap, ◌∙◌, Bool, false, Option, none, some, List, ◌++◌, append-nil, Outcome,
  ok, length, arith, ◌==◌,
}
use mine_net.Base.Map.{nat_key, lookup}
use mine_net.Network.Errors.{Error}
use mine_net.Network.Packet.{Packet, Event, encode, decode, cmd_ping, max_packet_size}
use mine_net.Network.Packet.Transform.{Bytes, Transforms, PacketCodec}
use mine_net.Network.Packet.RoundTrip.{IsWire, IsPeer, on_wire, numbered, decode-encode}
use mine_net.Network.RateLimiter.{LimiterLib}
use mine_net.Network.Heartbeat.{Json}
use mine_net.Network.Connection.State.{update_last_active}
use mine_net.Network.Connection.Receive.{Node, dispatch, receive, read_step}
use mine_net.Network.Connection.Wire.{route}

module _ {H V : Type 0} (lib : LimiterLib) (t : Transforms) (json : Json) (pick : Bool) where
  -- What a round of readLoop on one packet leaves as it was, and what it has read and dispatched.
  pub record Took (n m : Node lib H V) (p : Packet) (rest : List Event) : Type 0 where
    pub input : m.input ≡ rest
    pub dispatched : m.dispatched ≡ n.dispatched ++ route (lookup p.cmd_id n.conn.handlers) p
    pub reading : m.reading ≡ n.reading
    pub codec : m.conn.codec ≡ n.conn.codec
    pub handlers : m.conn.handlers ≡ n.conn.handlers
    pub channel : m.conn.close_chan_closed ≡ n.conn.close_chan_closed
    pub errors : m.conn.error_count ≡ n.conn.error_count

  dispatch-Took :
      (n m : Node lib H V) (p : Packet) (o : Option H)
      → lookup p.cmd_id n.conn.handlers ≡ o
      → m.dispatched ≡ n.dispatched
      → m.reading ≡ n.reading
      → m.conn.codec ≡ n.conn.codec
      → m.conn.handlers ≡ n.conn.handlers
      → m.conn.close_chan_closed ≡ n.conn.close_chan_closed
      → m.conn.error_count ≡ n.conn.error_count
      → Took n (dispatch lib p o m) p m.input
  unfolding dispatch
  dispatch-Took n m p (some h) found a b c d e f = record {
    input = refl;
    dispatched = simp (found, a);
    reading = b;
    codec = c;
    handlers = d;
    channel = e;
    errors = f;
  }
  dispatch-Took n m p none missing a b c d e f = record {
    input = refl;
    dispatched = a ∙ simp (missing, append-nil);
    reading = b;
    codec = c;
    handlers = d;
    channel = e;
    errors = f;
  }

  receive-Took :
      (now : ℕ) (n : Node lib H V) (p : Packet)
      → p.cmd_id ≢ cmd_ping
      → Took n (receive lib json now pick (ok p) n) p n.input
  unfolding receive update_last_active
  receive-Took now n p h =
      let other : (p.cmd_id == cmd_ping) ≡ false = ground arith in
      rw other
        (dispatch-Took n _ p (lookup p.cmd_id n.conn.handlers) refl refl refl refl refl refl refl)

  pub read_step-receive :
      (now : ℕ) (n : Node lib H V) {o : Outcome Error Packet} {rest : List Event}
      → n.conn.close_chan_closed ≡ false
      → decode t n.conn.codec n.input ≡ (o, rest)
      → read_step lib t json now pick n ≡ receive lib json now pick o (record n { input = rest })
  unfolding read_step
  read_step-receive now n opened e = simp (opened, e)

  -- One round on the frame of a packet.
  pub read_step-Took :
      (now : ℕ) (n : Node lib H V) (c : PacketCodec) (p : Packet) {bs : Bytes} (rest : List Event)
      → IsPeer c n.conn.codec
      → IsWire p
      → p.cmd_id ≢ cmd_ping
      → (encode t c p).2 ≡ ok bs
      → length bs ≤ max_packet_size
      → n.conn.close_chan_closed ≡ false
      → n.input ≡ on_wire bs ++ rest
      → Took n (read_step lib t json now pick n) (numbered c p) rest
  read_step-Took now n c p rest peer w h e fits opened arrived =
      let read = decode-encode t c n.conn.codec p rest peer w e fits in
      let step = read_step-receive now n opened (ap (decode t n.conn.codec) arrived ∙ read) in
      let k = receive-Took now (record n { input = rest }) (numbered c p) h in
      rw step (record {
        input = k.input;
        dispatched = k.dispatched;
        reading = k.reading;
        codec = k.codec;
        handlers = k.handlers;
        channel = k.channel;
        errors = k.errors;
      })
