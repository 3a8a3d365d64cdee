-- ===== src/Network/Connection/Fifo/Rounds.antt =====
-- network/conn.go: what a Send, a Close and a round of writeLoop do to the queue.
use mine_net.Base.{
  ℕ, ◌≡◌, refl, sym, ap, ◌∙◌, Bool, true, false, ◌&&◌, none, List, [], ◌∷◌, ◌++◌, append-nil,
  Outcome, if◌then◌else◌, arith,
}
use mine_net.Network.Errors.{Error}
use mine_net.Network.Packet.{Packet, encode}
use mine_net.Network.Packet.Transform.{Bytes, Transforms}
use mine_net.Network.Heartbeat
use mine_net.Network.Heartbeat.{Json}
use mine_net.Network.Connection.State.{Connection, close, finish_close}
use mine_net.Network.Connection.Send.{
  next_seq, select_send, send_limited, write_frame, write_packet, defer_close, write_select,
}
use mine_net.Network.Connection.Loops.{check_tick}
use mine_net.Network.Connection.Fifo.{
  frame_of, frames, after_all, if_sent, given_of, Flows, Flows-still,
}

module _ (t : Transforms) where
  module _ {H V : Type 0} where
    select_send-Flows :
        (pick : Bool) (p : Packet) (c : Connection H V)
        → let (d, result) = select_send pick p c in Flows t c d (if_sent result (p ∷ [])) []
    unfolding select_send frames after_all
    select_send-Flows pick p c = ground (arith, append-nil c.send_chan, append-nil c.written)

    pub send_limited-Flows :
        (allowed pick : Bool) (p : Packet) (c : Connection H V)
        → let (d, result) = send_limited allowed pick p c in
          Flows t c d (if_sent result (record p { seq_id = next_seq c } ∷ [])) []
    unfolding send_limited frames after_all
    send_limited-Flows true pick p c =
        let k =
          select_send-Flows pick (record p { seq_id = next_seq c })
            (record c { message_seq = next_seq c }) in
        record { queue = k.queue; written = k.written; codec = k.codec }
    send_limited-Flows false pick p c = Flows-still t c _ refl refl refl

    pub close-Flows : (c : Connection H V) → Flows t c (close c).0 [] []
    unfolding close finish_close Heartbeat.stop
    close-Flows c = Flows-still t c _ (ground arith) (ground arith) (ground arith)

    pub check_tick-Flows :
        (now : ℕ) (late : Bool) (c : Connection H V) → Flows t c (check_tick now late c) [] []
    unfolding check_tick close finish_close Heartbeat.stop
    check_tick-Flows now late c = Flows-still t c _ (ground arith) (ground arith) (ground arith)

    defer_close-Flows :
        (c d : Connection H V) (b : Bool) (taken given : List Packet)
        → Flows t c d taken given
        → Flows t c (defer_close (d, b)).0 taken given
    unfolding defer_close close finish_close Heartbeat.stop
    defer_close-Flows c d b taken given f = ground (arith, f)

    write_frame_lem :
        (o : Outcome Error Bytes) (c : Connection H V)
        → let d = (write_frame none o c).0 in
          (d.written ≡ c.written ++ frame_of o) × (d.send_chan ≡ c.send_chan) × (d.codec ≡ c.codec)
    unfolding write_frame
    write_frame_lem o c = ground (arith, append-nil c.written)

    write_packet-Flows :
        (p : Packet) (ps : List Packet) (c : Connection H V)
        → c.send_chan ≡ p ∷ ps
        → Flows t c (write_packet t none p (record c { send_chan = ps })).0 [] (p ∷ [])
    unfolding write_packet frames after_all
    write_packet-Flows p ps c q =
        let (codec', p', o) = encode t c.codec p in
        let (w, same, k) = write_frame_lem o (record c { send_chan = ps; codec = codec' }) in
        record {
          queue = append-nil c.send_chan ∙ q ∙ ap (◌∷◌ p) (sym same);
          written = w ∙ ap (◌++◌ c.written) (sym (append-nil (frame_of o)));
          codec = k;
        }

  module _ {H V : Type 0} where
    either-Flows :
        (c : Connection H V) (b : Bool) (x y : Connection H V × Bool)
        → Flows t c x.0 [] []
        → Flows t c y.0 [] []
        → Flows t c (if b then x else y).0 [] []
    either-Flows c true x y f g = f
    either-Flows c false x y f g = g

    given-Flows :
        (c : Connection H V) (b : Bool) (x y : Connection H V × Bool) (p : Packet)
        (ps : List Packet)
        → Flows t c x.0 [] []
        → Flows t c y.0 [] (p ∷ [])
        → Flows t c (if b then x else y).0 [] (given_of b (p ∷ ps))
    given-Flows c true x y p ps f g = f
    given-Flows c false x y p ps f g = g

    closed-Flows : (c : Connection H V) → Flows t c (defer_close (c, false)).0 [] []
    closed-Flows c = defer_close-Flows c c false [] [] (Flows-still t c c refl refl refl)

    pub write_select-Flows :
        (pick : Bool) (ps : List Packet) (c : Connection H V)
        → c.send_chan ≡ ps
        → Flows t c (write_select t pick none ps c).0 [] (given_of (c.close_chan_closed && pick) ps)
    unfolding write_select
    write_select-Flows pick [] c q =
        either-Flows c c.close_chan_closed _ _ (closed-Flows c) (Flows-still t c c refl refl refl)
    write_select-Flows pick (p ∷ ps) c q =
        given-Flows c (c.close_chan_closed && pick) _ _ p ps (closed-Flows c) (
          defer_close-Flows c (write_packet t none p (record c { send_chan = ps })).0
            (write_packet t none p (record c { send_chan = ps })).1 [] (p ∷ [])
            (write_packet-Flows p ps c q))
