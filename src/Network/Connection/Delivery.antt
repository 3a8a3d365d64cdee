-- ===== src/Network/Connection/Delivery.antt =====
-- readLoop: what was written is dispatched in order at the other end.
use mathlib.Core.List.{map-append}
use mine_net.Base.{
  ℕ, zero, suc, ◌≡◌, refl, ap, ◌∙◌, sym, Bool, true, false, List, [], ◌∷◌, ◌++◌, append_assoc,
  append-nil, ok, >>=-eq-ok, length,
}
use mine_net.Base.Map.{nat_key, lookup}
use mine_net.Network.Packet.{Packet, Event, byte, read_full, encode, decode}
use mine_net.Network.Packet.Transform.{Bytes, Transforms, PacketCodec}
use mine_net.Network.Packet.RoundTrip.{IsPeer, on_wire}
use mine_net.Network.RateLimiter.{LimiterLib}
use mine_net.Network.Heartbeat.{Json}
use mine_net.Network.Connection.State.{Connection, close-closed, close-error_count}
use mine_net.Network.Connection.Receive.{stop_reading, Node, receive, read_step}
use mine_net.Network.Connection.Loops.{read_loop, write_loop}
use mine_net.Network.Connection.Wire.{
  encode_all, number_all, route, routed, AllSendable, encode-IsPeer,
}
use mine_net.Network.Connection.Drain.{write_loop-encode_all}
use mine_net.Network.Connection.Took.{Took, read_step-receive, read_step-Took}

module _ {H V : Type 0} (lib : LimiterLib) (t : Transforms) (json : Json) (pick : Bool) where
  -- At the end of the stream the loop stops and closes.
  read_step-eof :
      (now : ℕ) (n : Node lib H V)
      → n.conn.close_chan_closed ≡ false
      → n.input ≡ []
      → read_step lib t json now pick n ≡ stop_reading lib (record n { input = [] })
  unfolding receive decode read_full
  read_step-eof now n opened e =
      read_step-receive lib t json pick now n opened (ap (decode t n.conn.codec) e)

  -- What a loop that has read the packets of a list to the end of the stream leaves.
  pub record Delivered (n m : Node lib H V) (ps : List Packet) : Type 0 where
    pub dispatched : m.dispatched ≡ n.dispatched ++ routed n.conn.handlers ps
    pub ended : m.reading ≡ false
    pub closed : m.conn.closed ≡ true
    pub errors : m.conn.error_count ≡ n.conn.error_count

  read_loop-again :
      (clock : ℕ → ℕ) (k : ℕ) (n : Node lib H V) {m : Node lib H V}
      → n.reading ≡ true
      → read_step lib t json (clock k) pick n ≡ m
      → read_loop lib t json clock pick (suc k) n ≡ read_loop lib t json clock pick k m
  unfolding read_loop
  read_loop-again clock k n on e = simp (on, e)

  read_loop-end : (clock : ℕ → ℕ) (n : Node lib H V) → read_loop lib t json clock pick zero n ≡ n
  unfolding read_loop
  read_loop-end clock n = refl

  stop_reading-Delivered :
      (n : Node lib H V) → Delivered n (stop_reading lib (record n { input = [] })) []
  unfolding stop_reading routed
  stop_reading-Delivered n = record {
    dispatched = sym (append-nil n.dispatched);
    ended = refl;
    closed = close-closed n.conn;
    errors = close-error_count n.conn;
  }

  -- The loop goes on behind a packet that it took.
  Took-Delivered :
      {n m k : Node lib H V} {p : Packet} {rest : List Event} (ps : List Packet)
      → Took lib t json pick n m p rest
      → Delivered m k ps
      → Delivered n k (p ∷ ps)
  unfolding routed
  Took-Delivered {n} {m} {k} {p} ps took d = record {
    dispatched =
        d.dispatched
        ∙ rw (took.dispatched, took.handlers)
            (append_assoc n.dispatched (route (lookup p.cmd_id n.conn.handlers) p)
              (routed n.conn.handlers ps));
    ended = d.ended;
    closed = d.closed;
    errors = d.errors ∙ took.errors;
  }

  -- readLoop, at the other end of codec c's frames: one round for each packet and one for the end
  -- of the stream. Every packet whose command has a handler is handed to it, once and in order.
  pub read_loop-encode_all :
      (clock : ℕ → ℕ) (ps : List Packet) (c : PacketCodec) (n : Node lib H V) {bs : Bytes}
      → IsPeer c n.conn.codec
      → AllSendable t c ps
      → encode_all t c ps ≡ ok bs
      → n.reading ≡ true
      → n.conn.close_chan_closed ≡ false
      → n.input ≡ on_wire bs
      → Delivered n (read_loop lib t json clock pick (suc (length ps)) n) (number_all t c ps)
  unfolding encode_all number_all routed
  read_loop-encode_all clock [] c n {bs} peer good e on opened arrived =
      let empty : n.input ≡ [] = arrived ∙ cc in
      rw (read_loop-again clock 0 n on (read_step-eof (clock 0) n opened empty), read_loop-end)
        (stop_reading-Delivered n)
  read_loop-encode_all clock (p ∷ ps) c n {bs} peer good e on opened arrived =
      let (b, first, e') = >>=-eq-ok (encode t c p).2 _ e in
      let (rest, others, e'') = >>=-eq-ok (encode_all t (encode t c p).0 ps) _ e' in
      let whole : bs ≡ b ++ rest = cc in
      let split : n.input ≡ on_wire b ++ on_wire rest =
        arrived ∙ ap on_wire whole ∙ map-append byte b rest in
      let took =
        read_step-Took lib t json pick (clock (suc (length ps))) n c p (on_wire rest) peer good.0
          good.1 first (good.2 b first) opened split in
      let ih =
        read_loop-encode_all clock ps (encode t c p).0
          (read_step lib t json (clock (suc (length ps))) pick n)
          (encode-IsPeer t c p peer took.codec) good.3 others (took.reading ∙ on)
          (took.channel ∙ opened) took.input in
      rw (read_loop-again clock (suc (length ps)) n on refl)
        (Took-Delivered (number_all t (encode t c p).0 ps) took ih)

  -- Two open ends with the same codec settings, and a queue of packets in the wire's ranges, each of
  -- which Encode encodes, none of them a heartbeat or framed above the limit. writeLoop, in a round for
  -- each, empties the queue into a fresh socket; and from what it wrote the peer's readLoop, in a round
  -- for each packet and one more, dispatches each packet whose command has a handler once, in the
  -- order of the queue, leaves the connection's own count of errors as it was, and ends with the
  -- connection closed.
  pub delivery :
      (clock : ℕ → ℕ) (c : Connection H V) (n : Node lib H V) {bs : Bytes}
      → c.close_chan_closed ≡ false
      → c.written ≡ []
      → encode_all t c.codec c.send_chan ≡ ok bs
      → IsPeer c.codec n.conn.codec
      → AllSendable t c.codec c.send_chan
      → n.reading ≡ true
      → n.conn.close_chan_closed ≡ false
      → n.input ≡ on_wire (write_loop t pick (length c.send_chan) (c, true)).0.written
      → ((write_loop t pick (length c.send_chan) (c, true)).0.send_chan ≡ [])
        × Delivered n
            (read_loop lib t json clock pick (suc (length c.send_chan)) n)
            (number_all t c.codec c.send_chan)
  delivery clock c n {bs} opened fresh e peer good on opened' arrived =
      let (out, empty, running) = write_loop-encode_all t pick c.send_chan c opened refl e in
      let sent = out ∙ ap (λ (w : Bytes). w ++ bs) fresh in
      (
        empty,
        read_loop-encode_all clock c.send_chan c.codec n peer good e on opened'
            (arrived ∙ ap on_wire sent),
      )
