-- ===== src/Network/TcpServer/Server.antt =====
-- network/tcp_net.go: the server's state and operations, over network/interface.go's IConnection. One
-- round of acceptLoop is a step, and so is what monitorConnection does when a connection has closed.
-- What the network answers (listening, accepting, closing the listener) is an argument.
use mine_net.Base.{
  ℕ, ◌+◌, Bool, true, false, Option, none, some, List, [], ◌∷◌, ◌++◌, String, ltb, if◌then◌else◌,
}
use mine_net.Base.Map.{Map, string_key, nat_key, lookup, insert}
pub use mine_net.Network.TcpServer.State.{
  ServerInterface, ServerMetrics, TcpServer, Accepted, temporary, listener_closed, other_error,
  arrived, zero_metrics,
}
use mine_net.Network.Packet.{Packet}
use mine_net.Network.ConnPool.Pool.{
  Result, PoolConfig, ConnPool, new_conn_pool, add, remove, get_all, len, close_pool,
}

module _ {C H S : Type 0} (i : ServerInterface C H S) where
  unfoldable pub init_tcp_server : PoolConfig → ℕ → TcpServer C H
  init_tcp_server config max_connections = record {
    conns = new_conn_pool i.base config;
    handlers = [];
    max_connections = max_connections;
    listening = false;
    cancelled = false;
    has_on_connect = false;
    has_on_disconnect = false;
    connected = [];
    disconnected = [];
    metrics = zero_metrics;
  }

  -- Start up to its call of acceptLoop: `failure` is what listening reports.
  unfoldable pub start : Result → TcpServer C H → TcpServer C H × Result
  start (some e) s = (
    record s { metrics = record (s.metrics) { startup_errors = s.metrics.startup_errors + 1 } },
    some e,
  )
  start none s =
      (record s { listening = true; metrics = record (s.metrics) { server_status = 1 } }, none)

  -- The end of Stop: `failure` is what closing the listener reports, if there is one.
  unfoldable pub stop_listener : Result → TcpServer C H → TcpServer C H × Result
  stop_listener (some e) s = (
    record s { metrics = record (s.metrics) { shutdown_errors = s.metrics.shutdown_errors + 1 } },
    some e,
  )
  stop_listener none s = (
    record s {
      metrics = record (s.metrics) {
        server_status = 0;
        shutdown_durations = s.metrics.shutdown_durations + 1;
      };
    },
    none,
  )

  unfoldable pub stop : Result → TcpServer C H → TcpServer C H × Result
  stop failure s =
      let closed = record s { cancelled = true; conns = close_pool i.base s.conns } in
      stop_listener (if s.listening then failure else none) closed

  -- The setters of the callbacks, which are counted as set or not; GetConnections' copy of the pool.
  unfoldable pub on_connect : Bool → TcpServer C H → TcpServer C H
  on_connect is_set s = record s { has_on_connect = is_set }

  unfoldable pub on_disconnect : Bool → TcpServer C H → TcpServer C H
  on_disconnect is_set s = record s { has_on_disconnect = is_set }

  unfoldable pub get_connections : TcpServer C H → List C
  get_connections s = get_all i.base s.conns

  unfoldable pub set_server_handler : ℕ → H → TcpServer C H → TcpServer C H
  set_server_handler cmd h s = record s { handlers = insert cmd h s.handlers }

  unfoldable pub get_handler : ℕ → TcpServer C H → Option H
  get_handler cmd s = lookup cmd s.handlers

  -- The server's handlers are copied to a new connection.
  unfoldable pub install : Map ℕ H → C → C
  install [] c = c
  install ((cmd, h) ∷ m) c = install m (i.set_handler cmd h c)

  -- Behind the call of the pool's Add; with an error the connection is closed and given back.
  unfoldable pub admit : C → ConnPool C × Result → TcpServer C H → TcpServer C H × Option C
  admit c (pool, some e) s = (
    record s {
      conns = pool;
      metrics = record (s.metrics) { accept_errors = s.metrics.accept_errors + 1 };
    },
    some (i.close c).0,
  )
  admit c (pool, none) s = (
    record s {
      conns = pool;
      metrics = record (s.metrics) { created_total = s.metrics.created_total + 1 };
      connected = if s.has_on_connect then s.connected ++ (i.id c ∷ []) else s.connected;
    },
    none,
  )

  -- The server, the connection that was refused, if any, and whether the loop goes on.
  unfoldable pub accept : Accepted C → TcpServer C H → TcpServer C H × Option C × Bool
  accept temporary s = (s, none, true)
  accept listener_closed s = (s, none, false)
  accept other_error s = (
    record s { metrics = record (s.metrics) { accept_errors = s.metrics.accept_errors + 1 } },
    none,
    true,
  )
  accept (arrived c) s =
      let counted = record s {
        metrics = record (s.metrics) {
          accept_total = s.metrics.accept_total + 1;
          accept_durations = s.metrics.accept_durations + 1;
        };
      } in
      let c' = install s.handlers c in
      let (s', refused) = admit c' (add i.base s.conns c') counted in (s', refused, true)

  -- A round of acceptLoop.
  unfoldable pub accept_step : Accepted C → TcpServer C H → TcpServer C H × Option C × Bool
  accept_step a s = if s.cancelled then (s, none, false) else accept a s

  -- monitorConnection, when the connection's channel has been closed.
  unfoldable pub monitor : String → TcpServer C H → TcpServer C H
  monitor id s = record s {
    conns = (remove i.base s.conns id).0;
    disconnected = if s.has_on_disconnect then s.disconnected ++ (id ∷ []) else s.disconnected;
    metrics = record (s.metrics) {
      closed_total = s.metrics.closed_total + 1;
      connection_lifetimes = s.metrics.connection_lifetimes + 1;
    };
  }

  -- The loop of Broadcast: the limiter, the connections, and the numbers of connections that were
  -- open, of those that took the packet, and of errors.
  pub record Sent : Type 0 where
    pub shared : S
    pub entries : Map String C
    pub total : ℕ
    pub success : ℕ
    pub errors : ℕ

  abbrev pub counted_send : String → C × Result → Sent → Sent
  counted_send k (c, none) r = record r {
    entries = (k, c) ∷ r.entries;
    total = r.total + 1;
    success = r.success + 1;
  }
  counted_send k (c, some e) r = record r {
    entries = (k, c) ∷ r.entries;
    total = r.total + 1;
    errors = r.errors + 1;
  }

  unfoldable pub broadcast_each : ℕ → Packet → S → Map String C → Sent
  broadcast_each now p l [] = record {
    shared = l;
    entries = [];
    total = 0;
    success = 0;
    errors = 0;
  }
  broadcast_each now p l ((k, c) ∷ m) =
      let (l', c', result) = i.send now l c p in
      let sent = counted_send k (c', result) (broadcast_each now p l' m) in
      let rest = broadcast_each now p l m in
      if i.is_closed c then record rest { entries = (k, c) ∷ rest.entries } else sent

  unfoldable pub broadcast : ℕ → Packet → S → TcpServer C H → S × TcpServer C H
  broadcast now p l s =
      let r = broadcast_each now p l s.conns.connections in
      (
        r.shared,
        record s {
          conns = record (s.conns) { connections = r.entries };
          metrics = record (s.metrics) {
            broadcast_total = s.metrics.broadcast_total + 1;
            broadcast_errors = s.metrics.broadcast_errors + r.errors;
            broadcast_durations = s.metrics.broadcast_durations + 1;
            success_rate = if ltb 0 r.total then (r.success, r.total) else s.metrics.success_rate;
          };
        },
      )

  unfoldable pub count_open : List C → ℕ
  count_open [] = 0
  count_open (c ∷ cs) = (if i.is_closed c then 0 else 1) + count_open cs

  unfoldable pub get_active_connections : TcpServer C H → ℕ
  get_active_connections s = count_open (get_all i.base s.conns)

  -- A tick of collectMetrics, without the uptime.
  unfoldable pub collect_metrics : TcpServer C H → TcpServer C H
  collect_metrics s = record s {
    metrics = record (s.metrics) {
      active_gauge = len i.base s.conns;
      utilization =
          if ltb 0 s.max_connections
          then (len i.base s.conns, s.max_connections)
          else s.metrics.utilization;
    };
  }
