-- ===== src/Network/Connection/State.antt =====
-- network/conn.go: the state of a connection, its accessors, and Close.
use mine_net.Base.{
  ℕ, ◌+◌, ◌%◌, ◌^◌, ◌≡◌, arith, Bool, true, false, Option, none, some, List, [], ◌∷◌, Outcome, ok,
  err, panic, String, if◌then◌else◌,
}
use mine_net.Base.Int.{ℤ, sub_ℕ}
use mine_net.Base.Map.{Map, string_key, nat_key, lookup, insert}
use mine_net.Network.Errors.{Error}
use mine_net.Network.Packet.{Packet}
use mine_net.Network.Packet.Transform.{Bytes, PacketCodec}
use mine_net.Network.Heartbeat
use mine_net.Network.Heartbeat.{
  Json, HeartPacket, HeartbeatManager, new_heart_packet, heartbeat_ping, heartbeat_pong,
  handle_pong, inc_failed,
}

-- The histograms: of the latency how many values were observed, of the idle time the values in
-- nanoseconds, newest first.
pub record ConnMetrics : Type 0 where
  pub connected : ℕ
  pub active : ℕ
  pub msg_total : ℕ
  pub msg_in : ℕ
  pub msg_out : ℕ
  pub msg_drop : ℕ
  pub bytes_in : ℕ
  pub bytes_out : ℕ
  pub error_total : ℕ
  pub send_errors : ℕ
  pub recv_errors : ℕ
  pub codec_errors : ℕ
  pub timeout_total : ℕ
  pub latencies : ℕ
  pub idle_times : List ℤ

-- H: the packet handlers; V: the values of properties. `socket_error` is what closing the socket
-- will report, `written` what has been written to it; `error_count` the 32 bits of
-- an atomic.Int32.
pub record Connection (H V : Type 0) : Type 0 where
  pub id : String
  pub codec : PacketCodec
  pub heartbeat : HeartbeatManager
  pub metrics : ConnMetrics
  pub send_chan : List Packet
  pub close_chan_closed : Bool
  pub properties : Map String V
  pub created_at : ℕ
  pub last_active : ℕ
  pub error_count : ℕ
  pub closed : Bool
  pub heartbeat_seq : ℕ
  pub message_seq : ℕ
  pub handlers : Map ℕ H
  pub socket_closed : Bool
  pub socket_error : Option Error
  pub written : Bytes

-- `make(chan *Packet, 1024)`
abbrev pub queue_size : ℕ
queue_size = 1024

abbrev zero_metrics : ConnMetrics
zero_metrics = record {
  connected = 1;
  active = 0;
  msg_total = 0;
  msg_in = 0;
  msg_out = 0;
  msg_drop = 0;
  bytes_in = 0;
  bytes_out = 0;
  error_total = 0;
  send_errors = 0;
  recv_errors = 0;
  codec_errors = 0;
  timeout_total = 0;
  latencies = 0;
  idle_times = [];
}

abbrev pub socket_result : Option Error → Outcome Error (Unit {0})
socket_result none = ok tt
socket_result (some e) = err e

module _ {H V : Type 0} where
  -- The id is GenerateConnectionId's; the heartbeat is started at once.
  unfoldable pub new_connection :
      ℕ → String → PacketCodec → HeartbeatManager → Option Error → Connection H V
  new_connection now id codec heartbeat socket_error = record {
    id = id;
    codec = codec;
    heartbeat = Heartbeat.start heartbeat;
    metrics = zero_metrics;
    send_chan = [];
    close_chan_closed = false;
    properties = [];
    created_at = now;
    last_active = now;
    error_count = 0;
    closed = false;
    heartbeat_seq = 0;
    message_seq = 0;
    handlers = [];
    socket_closed = false;
    socket_error = socket_error;
    written = [];
  }

  -- `last.IsZero()` never holds: no int64 of nanoseconds reaches back to the year 1.
  unfoldable pub update_last_active : ℕ → Connection H V → Connection H V
  update_last_active now c = record c {
    last_active = now;
    metrics = record (c.metrics) {
      active = 1;
      idle_times = sub_ℕ now c.last_active ∷ c.metrics.idle_times;
    };
  }

  abbrev pub drop_message : Connection H V → Connection H V
  drop_message c = record c { metrics = record (c.metrics) { msg_drop = c.metrics.msg_drop + 1 } }

  -- The counters of an error, over metrics that have counted its kind.
  abbrev pub count_error : ConnMetrics → Connection H V → Connection H V
  count_error m c = record c {
    metrics = record m { error_total = m.error_total + 1 };
    error_count = (c.error_count + 1) % 2 ^ 32;
  }

  unfoldable pub get_property : String → Connection H V → Option V
  get_property k c = lookup k c.properties

  unfoldable pub set_property : String → V → Connection H V → Connection H V
  set_property k v c = record c { properties = insert k v c.properties }

  unfoldable pub set_handler : ℕ → H → Connection H V → Connection H V
  set_handler cmd h c = record c { handlers = insert cmd h c.handlers }

  unfoldable pub is_alive : ℕ → Connection H V → Bool
  is_alive now c = Heartbeat.is_alive now c.heartbeat

  -- With the heartbeat stopped: the gauge, and the socket.
  unfoldable pub finish_close :
      Connection H V → Outcome Error HeartbeatManager → Connection H V × Outcome Error (Unit {0})
  finish_close c (ok h) = (
    record c {
      heartbeat = h;
      metrics = record (c.metrics) { connected = 0 };
      socket_closed = true;
    },
    socket_result c.socket_error,
  )
  finish_close c (err e) = (c, err e)
  finish_close c panic = (c, panic)

  -- The swap of the flag comes first; only who swaps it goes on. Closing a closed channel panics.
  unfoldable pub close : Connection H V → Connection H V × Outcome Error (Unit {0})
  close c =
      let flagged = record c { closed = true } in
      if c.closed
      then (c, ok tt)
      else if c.close_chan_closed
      then (flagged, panic)
      else finish_close (record flagged { close_chan_closed = true }) (Heartbeat.stop c.heartbeat)

  -- Whatever else happens, the flag is set.
  pub close-closed : (c : Connection H V) → (close c).0.closed ≡ true
  unfolding close finish_close
  close-closed c = ground arith

  pub close-error_count : (c : Connection H V) → (close c).0.error_count ≡ c.error_count
  unfolding close finish_close
  close-error_count c = ground arith
