-- ===== src/Network/Connection/Send.antt =====
-- network/conn.go: Send, and writeLoop, which encodes what was sent.
use mine_net.Base.{
  ℕ, ◌+◌, ◌%◌, ◌^◌, Bool, true, false, ◌&&◌, Option, none, some, List, [], ◌∷◌, ◌++◌, Outcome, ok,
  err, panic, length, ltb, if◌then◌else◌,
}
use mine_net.Network.Errors.{Error, connection_closed, rate_limit_exceeded, send_queue_full}
use mine_net.Network.Packet.{Packet, encode}
use mine_net.Network.Packet.Transform.{Bytes, Transforms}
use mine_net.Network.RateLimiter.{LimiterLib, RateLimiter, is_allowed}
use mine_net.Network.Connection.State.{
  Connection, queue_size, update_last_active, drop_message, count_error, close,
}

module _ {H V : Type 0} where
  -- The next number of the connection is put on the packet.
  abbrev pub next_seq : Connection H V → ℕ
  next_seq c = (c.message_seq + 1) % 2 ^ 64

  abbrev pub enqueue : Packet → Connection H V → Connection H V
  enqueue p c = record c {
    send_chan = c.send_chan ++ (p ∷ []);
    metrics = record (c.metrics) { msg_out = c.metrics.msg_out + 1 };
  }

  -- The select statement: with room in the queue and the channel closed, `pick` chooses the queue.
  unfoldable pub select_send :
      Bool → Packet → Connection H V → Connection H V × Outcome Error (Unit {0})
  select_send pick p c =
      if ltb (length c.send_chan) queue_size
      then if c.close_chan_closed
        then if pick then (enqueue p c, ok tt) else (c, err connection_closed)
        else (enqueue p c, ok tt)
      else if c.close_chan_closed
      then (c, err connection_closed)
      else (drop_message c, err send_queue_full)

  -- Behind the limiter's answer.
  unfoldable pub send_limited :
      Bool → Bool → Packet → Connection H V → Connection H V × Outcome Error (Unit {0})
  send_limited true pick p c =
      select_send pick (record p { seq_id = next_seq c }) (record c { message_seq = next_seq c })
  send_limited false pick p c = (drop_message c, err rate_limit_exceeded)

  module _ (lib : LimiterLib) where
    -- Send at a time: the limiter is asked only if the connection is open.
    unfoldable pub send :
        ℕ
        → Bool
        → RateLimiter lib
        → Connection H V
        → Packet
        → RateLimiter lib × Connection H V × Outcome Error (Unit {0})
    send now pick r c p =
        let (allowed, r') = is_allowed lib now r in
        let (c', result) = send_limited allowed pick p (update_last_active now c) in
        if c.closed then (r, c, err connection_closed) else (r', c', result)

  -- What is left to do when the frame of a packet has been computed: `failure` is the error that
  -- writing to the socket will report. True: the loop goes on.
  unfoldable pub write_frame :
      Option Error → Outcome Error Bytes → Connection H V → Connection H V × Bool
  write_frame none (ok bs) c = (
    record c {
      written = c.written ++ bs;
      metrics = record (c.metrics) {
        bytes_out = c.metrics.bytes_out + length bs;
        latencies = c.metrics.latencies + 1;
      };
    },
    true,
  )
  write_frame (some e) (ok bs) c =
      (count_error (record (c.metrics) { send_errors = c.metrics.send_errors + 1 }) c, false)
  write_frame failure (err e) c =
      (count_error (record (c.metrics) { codec_errors = c.metrics.codec_errors + 1 }) c, true)
  write_frame failure panic c = (c, false)

  unfoldable pub write_packet :
      Transforms → Option Error → Packet → Connection H V → Connection H V × Bool
  write_packet t failure p c =
      let (codec', p', frame) = encode t c.codec p in
      write_frame failure frame (record c { codec = codec' })

  -- The deferred Close runs when the loop ends.
  unfoldable pub defer_close : Connection H V × Bool → Connection H V × Bool
  defer_close (c, true) = (c, true)
  defer_close (c, false) = ((close c).0, false)

  -- A round of writeLoop with the channel's contents in hand; with nothing to take and the channel
  -- open it waits.
  unfoldable pub write_select :
      Transforms → Bool → Option Error → List Packet → Connection H V → Connection H V × Bool
  write_select t pick failure [] c =
      if c.close_chan_closed then defer_close (c, false) else (c, true)
  write_select t pick failure (p ∷ ps) c =
      if c.close_chan_closed && pick
      then defer_close (c, false)
      else defer_close (write_packet t failure p (record c { send_chan = ps }))

  unfoldable pub write_step :
      Transforms → Bool → Option Error → Connection H V → Connection H V × Bool
  write_step t pick failure c = write_select t pick failure c.send_chan c
