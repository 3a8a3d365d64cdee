-- ===== src/Metrics/TcpServer.antt =====
-- metrics/tcp_server.go: the collectors and what registers them.
use mine_net.Base.{List, [], ◌∷◌, String, Outcome, ok, ◌>>=◌}
use mine_net.Metrics.Collectors.{Collector, Registry, counter, gauge, histogram, register_all}

pub record TcpServerCollectors : Type 0 where
  pub server_status : Collector
  pub startup_time : Collector
  pub uptime_seconds : Collector
  pub startup_errors : Collector
  pub shutdown_errors : Collector
  pub accept_total : Collector
  pub accept_errors : Collector
  pub accept_duration : Collector
  pub connection_gauge : Collector
  pub active_connection_gauge : Collector
  pub connection_utilization : Collector
  pub connections_created_total : Collector
  pub connections_closed_total : Collector
  pub connection_close_errors : Collector
  pub connection_lifetime : Collector
  pub bytes_in_total : Collector
  pub bytes_out_total : Collector
  pub broadcast_total : Collector
  pub broadcast_errors : Collector
  pub broadcast_duration : Collector
  pub broadcast_success_rate : Collector
  pub shutdown_duration : Collector

-- Each metric by its options; buckets are in ten-thousandths of a second.
abbrev pub server_collectors : String → TcpServerCollectors
server_collectors namespace = record {
  server_status = gauge namespace "" "server_status" [];
  startup_time = gauge namespace "" "startup_timestamp_seconds" [];
  uptime_seconds = gauge namespace "" "uptime_seconds" [];
  startup_errors = counter namespace "" "startup_errors_total" [];
  shutdown_errors = counter namespace "" "shutdown_errors_total" [];
  accept_total = counter namespace "" "accept_total" [];
  accept_errors = counter namespace "" "accept_errors_total" [];
  accept_duration =
      histogram namespace "" "accept_duration_seconds" [] (10 ∷ 50 ∷ 100 ∷ 250 ∷ 500 ∷ 1000 ∷ []);
  connection_gauge = gauge namespace "" "connections_current" [];
  active_connection_gauge = gauge namespace "" "connections_active" [];
  connection_utilization = gauge namespace "" "connection_utilization" [];
  connections_created_total = counter namespace "" "connections_created_total" [];
  connections_closed_total = counter namespace "" "connections_closed_total" [];
  connection_close_errors = counter namespace "" "connection_close_errors_total" [];
  connection_lifetime =
      histogram namespace "" "connection_lifetime_seconds" []
        (10000 ∷ 100000 ∷ 600000 ∷ 3000000 ∷ 6000000 ∷ 18000000 ∷ 36000000 ∷ []);
  bytes_in_total = counter namespace "" "bytes_received_total" [];
  bytes_out_total = counter namespace "" "bytes_sent_total" [];
  broadcast_total = counter namespace "" "broadcast_total" [];
  broadcast_errors = counter namespace "" "broadcast_errors_total" [];
  broadcast_duration =
      histogram namespace "" "broadcast_duration_seconds" []
        (10 ∷ 50 ∷ 100 ∷ 250 ∷ 500 ∷ 1000 ∷ []);
  broadcast_success_rate = gauge namespace "" "broadcast_success_rate" [];
  shutdown_duration =
      histogram namespace "" "shutdown_duration_seconds" []
        (1000 ∷ 2500 ∷ 5000 ∷ 10000 ∷ 25000 ∷ 50000 ∷ []);
}

-- The arguments of MustRegister.
abbrev pub server_registered : TcpServerCollectors → List Collector
server_registered m =
    m.server_status ∷ m.startup_time ∷ m.uptime_seconds ∷ m.startup_errors ∷ m.shutdown_errors
    ∷ m.accept_total ∷ m.accept_errors ∷ m.accept_duration ∷ m.connection_gauge
    ∷ m.active_connection_gauge ∷ m.connection_utilization ∷ m.connections_created_total
    ∷ m.connections_closed_total ∷ m.connection_close_errors ∷ m.connection_lifetime
    ∷ m.bytes_in_total ∷ m.bytes_out_total ∷ m.broadcast_total ∷ m.broadcast_errors
    ∷ m.broadcast_duration ∷ m.broadcast_success_rate ∷ m.shutdown_duration ∷ []

module _ {R : Type 0} (registry : Registry R) where
  unfoldable pub new_server_metrics : String → R → Outcome String (TcpServerCollectors × R)
  new_server_metrics namespace r =
      let m = server_collectors namespace in
      register_all registry (server_registered m) r >>= λ r2. ok (m, r2)
