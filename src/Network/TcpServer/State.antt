-- ===== src/Network/TcpServer/State.antt =====
-- network/tcp_net.go: the server's state, over network/interface.go's IConnection, and what arrives.
use mine_net.Base.{◌≡◌, ℕ, Bool, Option, some, List, String, if◌then◌else◌}
use mine_net.Base.Map.{Map, string_key, nat_key}
use mine_net.Network.Packet.{Packet}
use mine_net.Network.ConnPool.Pool.{Result, ConnectionInterface, ConnPool}

-- What the server uses beyond the pool's part of the interface. S is what the connections share: the
-- rate limiter.
pub record ServerInterface (C H S : Type 0) : Type 0 where
  pub base : ConnectionInterface C
  pub open base use *
  pub set_handler : ℕ → H → C → C
  pub handler : ℕ → C → Option H
  pub send : ℕ → S → C → Packet → S × C × Result
  pub handler-set_handler :
      (cmd k : ℕ) (h : H) (c : C)
      → handler k (set_handler cmd h c) ≡ (if nat_key.beq cmd k then some h else handler k c)

-- Of the histograms, the last four, is kept how many values were observed.
pub record ServerMetrics : Type 0 where
  pub server_status : ℕ
  pub startup_errors : ℕ
  pub shutdown_errors : ℕ
  pub accept_total : ℕ
  pub accept_errors : ℕ
  pub created_total : ℕ
  pub closed_total : ℕ
  pub broadcast_total : ℕ
  pub broadcast_errors : ℕ
  pub success_rate : ℕ × ℕ
  pub active_gauge : ℕ
  pub utilization : ℕ × ℕ
  pub shutdown_durations : ℕ
  pub accept_durations : ℕ
  pub connection_lifetimes : ℕ
  pub broadcast_durations : ℕ

-- `connected` and `disconnected` are the ids for which the callbacks have been started, if any are
-- set.
pub record TcpServer (C H : Type 0) : Type 0 where
  pub conns : ConnPool C
  pub handlers : Map ℕ H
  pub max_connections : ℕ
  pub listening : Bool
  pub cancelled : Bool
  pub has_on_connect : Bool
  pub has_on_disconnect : Bool
  pub connected : List String
  pub disconnected : List String
  pub metrics : ServerMetrics

-- What the listener's Accept returns: a connection, already wrapped by NewConnection, or an error.
pub data Accepted (C : Type 0) : Type 0 where
  temporary listener_closed other_error : Accepted C
  arrived : C → Accepted C

abbrev pub zero_metrics : ServerMetrics
zero_metrics = record {
  server_status = 0;
  startup_errors = 0;
  shutdown_errors = 0;
  accept_total = 0;
  accept_errors = 0;
  created_total = 0;
  closed_total = 0;
  broadcast_total = 0;
  broadcast_errors = 0;
  success_rate = (0, 0);
  active_gauge = 0;
  utilization = (0, 0);
  shutdown_durations = 0;
  accept_durations = 0;
  connection_lifetimes = 0;
  broadcast_durations = 0;
}
