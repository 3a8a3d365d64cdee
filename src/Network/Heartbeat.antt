-- ===== src/Network/Heartbeat.antt =====
-- network/heartbeat.go: the heartbeat of one connection. Times are nanoseconds of one clock.
-- What needs the connection itself (sending a ping, closing it) is in Connection.
use mine_net.Base.{
  ℕ, zero, suc, ◌+◌, ◌/◌, ◌≡◌, Bool, true, false, List, [], ◌∷◌, ◌&&◌, not, Outcome, ok, panic,
  ◌>>=◌, ◌==◌, if◌then◌else◌,
}
use mine_net.Base.Int.{ℤ, pos, sub_ℕ, ltb_ℤ, pos_part, neg_part}
use mine_net.Network.Errors.{Error}
use mine_net.Network.Packet.{Packet, current_version, cmd_ping, unix}
use mine_net.Network.Packet.Transform.{Bytes}

-- The type is 1 for a ping and 2 for a pong.
pub record HeartPacket : Type 0 where
  pub seq : ℕ
  pub timestamp : ℤ
  pub kind : ℕ

abbrev pub heartbeat_ping : ℕ
heartbeat_ping = 1

abbrev pub heartbeat_pong : ℕ
heartbeat_pong = 2

-- encoding/json on heart packets: what was marshalled is unmarshalled to the same packet.
pub record Json : Type 0 where
  pub marshal : HeartPacket → Outcome Error Bytes
  pub unmarshal : Bytes → Outcome Error HeartPacket
  pub unmarshal-marshal : (h : HeartPacket) (b : Bytes) → marshal h ≡ ok b → unmarshal b ≡ ok h

unfoldable pub new_heart_packet : Json → ℕ → HeartPacket → Outcome Error Packet
new_heart_packet json now h = do
  body ← json.marshal h
  ok (record {
    version = current_version;
    seq_id = 0;
    cmd_id = cmd_ping;
    body = body;
    timestamp = unix now;
  })

pub record HeartbeatMetrics : Type 0 where
  pub connected : ℕ
  pub success : ℕ
  pub failed : ℕ
  pub timeouts : ℕ
  pub reconnects : ℕ
  pub rtt : List ℤ
  pub last_success : ℕ

pub record HeartbeatManager : Type 0 where
  pub interval : ℕ
  pub timeout : ℕ
  pub retry_count : ℕ
  pub last_ping : ℕ
  pub last_pong : ℕ
  pub stopped : Bool
  pub metrics : HeartbeatMetrics

abbrev pub set_connected : ℕ → HeartbeatManager → HeartbeatManager
set_connected v h = record h { metrics = record (h.metrics) { connected = v } }

abbrev pub inc_failed : HeartbeatManager → HeartbeatManager
inc_failed h = record h { metrics = record (h.metrics) { failed = h.metrics.failed + 1 } }

abbrev pub inc_timeouts : HeartbeatManager → HeartbeatManager
inc_timeouts h = record h { metrics = record (h.metrics) { timeouts = h.metrics.timeouts + 1 } }

abbrev pub inc_reconnects : HeartbeatManager → HeartbeatManager
inc_reconnects h = record h {
  metrics = record (h.metrics) { reconnects = h.metrics.reconnects + 1 };
}

abbrev pub inc_success : HeartbeatManager → HeartbeatManager
inc_success h = record h { metrics = record (h.metrics) { success = h.metrics.success + 1 } }

abbrev pub observe_rtt : ℤ → HeartbeatManager → HeartbeatManager
observe_rtt v h = record h { metrics = record (h.metrics) { rtt = v ∷ h.metrics.rtt } }

abbrev pub set_last_success : ℕ → HeartbeatManager → HeartbeatManager
set_last_success v h = record h { metrics = record (h.metrics) { last_success = v } }

-- Reset, which leaves the counters.
abbrev pub reset : HeartbeatManager → HeartbeatManager
reset h = record h { metrics = record (h.metrics) { connected = 0; last_success = 0 } }

-- The counters start at 0 for the labels of a new connection.
unfoldable pub new_heartbeat_manager : ℕ → ℕ → ℕ → HeartbeatManager
new_heartbeat_manager interval timeout retry_count = record {
  interval = interval;
  timeout = timeout;
  retry_count = retry_count;
  last_ping = 0;
  last_pong = 0;
  stopped = false;
  metrics = record {
    connected = 0;
    success = 0;
    failed = 0;
    timeouts = 0;
    reconnects = 0;
    rtt = [];
    last_success = 0;
  };
}

unfoldable pub start : HeartbeatManager → HeartbeatManager
start h = set_connected 1 h

-- Closing a closed channel panics.
unfoldable pub stop : HeartbeatManager → Outcome Error HeartbeatManager
stop h = if h.stopped then panic else ok (reset (set_connected 0 (record h { stopped = true })))

-- Until the first pong the connection counts as alive.
unfoldable pub is_alive : ℕ → HeartbeatManager → Bool
is_alive now h = if h.last_pong == 0 then true else ltb_ℤ (sub_ℕ now h.last_pong) (pos h.timeout)

unfoldable pub reconnect : HeartbeatManager → Bool
reconnect h = false

-- The retries that are left; true if none of them reconnects, so that the connection is closed.
unfoldable pub retry : ℕ → HeartbeatManager → HeartbeatManager × Bool
retry zero h = (h, true)
retry (suc n) h =
    let h' = inc_reconnects h in
    let rest = retry n h' in if reconnect h' then (set_connected 1 h', false) else rest

unfoldable pub handle_timeout : HeartbeatManager → HeartbeatManager × Bool
handle_timeout h = retry h.retry_count (set_connected 0 h)

-- One tick of checkLoop: true if the connection is to be closed. Of a stopped manager `late` says
-- whether select, which then has a choice, takes the tick.
unfoldable pub check : ℕ → Bool → HeartbeatManager → HeartbeatManager × Bool
check now late h =
    if h.stopped && not late
    then (h, false)
    else if is_alive now h
    then (h, false)
    else handle_timeout (inc_timeouts h)

-- `now - t`
abbrev since : ℕ → ℤ → ℤ
since now t = sub_ℕ (now + neg_part t) (pos_part t)

unfoldable pub handle_pong : ℕ → HeartPacket → HeartbeatManager → HeartbeatManager
handle_pong now pong h =
    set_last_success (now / 1000000000)
      (inc_success (observe_rtt (since now pong.timestamp) (record h { last_pong = now })))
