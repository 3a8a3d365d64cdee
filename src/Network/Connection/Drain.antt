-- ===== src/Network/Connection/Drain.antt =====
-- writeLoop: what is queued on a connection is written in order.
use mine_net.Base.{
  ◌+◌, ◌≡◌, refl, ap, ◌∙◌, Bool, true, false, none, List, [], ◌∷◌, ◌++◌, append_assoc, append-nil,
  ok, >>=-eq-ok, length, arith,
}
use mine_net.Base.Map.{nat_key}
use mine_net.Network.Packet.{Packet, encode}
use mine_net.Network.Packet.Transform.{Bytes, Transforms}
use mine_net.Network.Connection.State.{Connection}
use mine_net.Network.Connection.Send.{
  write_frame, write_packet, write_select, defer_close, write_step,
}
use mine_net.Network.Connection.Loops.{write_loop}
use mine_net.Network.Connection.Wire.{encode_all}

module _ {H V : Type 0} (t : Transforms) (pick : Bool) where
  -- The connection with its first packet written.
  abbrev pub wrote : Connection H V → Packet → List Packet → Bytes → Connection H V
  wrote c p ps bs = record c {
    codec = (encode t c.codec p).0;
    send_chan = ps;
    written = c.written ++ bs;
    metrics = record (c.metrics) {
      bytes_out = c.metrics.bytes_out + length bs;
      latencies = c.metrics.latencies + 1;
    };
  }

  pub write_step-wrote :
      (c : Connection H V) (p : Packet) (ps : List Packet) {bs : Bytes}
      → c.close_chan_closed ≡ false
      → c.send_chan ≡ p ∷ ps
      → (encode t c.codec p).2 ≡ ok bs
      → write_step t pick none c ≡ (wrote c p ps bs, true)
  unfolding write_step write_select write_packet write_frame defer_close
  write_step-wrote c p ps {bs} h q e = rw (q, h, e)

  -- On an open connection whose queue can be encoded, rounds of writeLoop write the frames of the
  -- queue in its order, and empty it.
  pub write_loop-encode_all :
      (ps : List Packet) (c : Connection H V) {bs : Bytes}
      → c.close_chan_closed ≡ false
      → c.send_chan ≡ ps
      → encode_all t c.codec ps ≡ ok bs
      → let r = write_loop t pick (length ps) (c, true) in
        (r.0.written ≡ c.written ++ bs) × (r.0.send_chan ≡ []) × (r.1 ≡ true)
  unfolding write_loop encode_all
  write_loop-encode_all [] c {bs} h q e = ground (arith, append-nil c.written)
  write_loop-encode_all (p ∷ ps) c {bs} h q e =
      let (b, first, e') = >>=-eq-ok (encode t c.codec p).2 _ e in
      let (rest, others, e'') = >>=-eq-ok (encode_all t (encode t c.codec p).0 ps) _ e' in
      let (out, empty, running) = write_loop-encode_all ps (wrote c p ps b) h refl others in
      let whole : b ++ rest ≡ bs = cc in
      rw (write_step-wrote c p ps h q first, write_loop)
        (out ∙ append_assoc c.written b rest ∙ ap (◌++◌ c.written) whole, empty, running)
