-- ===== src/Metrics/Conn.antt =====
-- metrics/conn.go: the collectors and what registers them.
use mine_net.Base.{List, [], ◌∷◌, String, Outcome, ok, ◌>>=◌}
use mine_net.Metrics.Collectors.{Collector, Registry, counter, gauge, histogram, register_all}

pub record ConnCollectors : Type 0 where
  pub msg_total : Collector
  pub msg_in_total : Collector
  pub msg_out_total : Collector
  pub msg_drop_total : Collector
  pub bytes_in_total : Collector
  pub bytes_out_total : Collector
  pub error_total : Collector
  pub send_errors : Collector
  pub recv_errors : Collector
  pub codec_errors : Collector
  pub send_queue_size : Collector
  pub recv_queue_size : Collector
  pub latency_hist : Collector
  pub connected : Collector
  pub connected_time : Collector
  pub heartbeat_total : Collector
  pub heartbeat_fail_total : Collector
  pub last_heartbeat : Collector
  pub timeout_total : Collector
  pub read_timeout : Collector
  pub write_timeout : Collector
  pub idle_time : Collector
  pub active : Collector

abbrev labels : List String
labels = "conn_id" ∷ "remote_addr" ∷ "local_addr" ∷ []

-- Each metric by its options; buckets are in ten-thousandths of a second.
abbrev pub conn_collectors : String → ConnCollectors
conn_collectors namespace = record {
  msg_total = counter namespace "" "messages_total" labels;
  msg_in_total = counter namespace "" "messages_received_total" labels;
  msg_out_total = counter namespace "" "messages_sent_total" labels;
  msg_drop_total = counter namespace "" "messages_dropped_total" labels;
  bytes_in_total = counter namespace "" "bytes_received_total" labels;
  bytes_out_total = counter namespace "" "bytes_sent_total" labels;
  error_total = counter namespace "" "errors_total" labels;
  send_errors = counter namespace "" "send_errors_total" labels;
  recv_errors = counter namespace "" "receive_errors_total" labels;
  codec_errors = counter namespace "" "codec_errors_total" labels;
  send_queue_size = gauge namespace "" "send_queue_size" labels;
  recv_queue_size = gauge namespace "" "receive_queue_size" labels;
  latency_hist =
      histogram namespace "" "message_latency_seconds" labels
        (10 ∷ 50 ∷ 100 ∷ 250 ∷ 500 ∷ 1000 ∷ 2500 ∷ 5000 ∷ 10000 ∷ []);
  connected = gauge namespace "" "connected" labels;
  connected_time = gauge namespace "" "connected_seconds" labels;
  heartbeat_total = counter namespace "" "heartbeats_total" labels;
  heartbeat_fail_total = counter namespace "" "heartbeat_failures_total" labels;
  last_heartbeat = gauge namespace "" "last_heartbeat_timestamp" labels;
  timeout_total = counter namespace "" "timeouts_total" labels;
  read_timeout = counter namespace "" "read_timeouts_total" labels;
  write_timeout = counter namespace "" "write_timeouts_total" labels;
  idle_time =
      histogram namespace "" "connection_idle_seconds" labels
        (10000 ∷ 50000 ∷ 100000 ∷ 300000 ∷ 600000 ∷ 3000000 ∷ 6000000 ∷ 18000000 ∷ 36000000 ∷ []);
  active = gauge namespace "" "connection_active" labels;
}

-- The arguments of MustRegister.
abbrev pub conn_registered : ConnCollectors → List Collector
conn_registered m =
    m.msg_total ∷ m.msg_in_total ∷ m.msg_out_total ∷ m.msg_drop_total ∷ m.bytes_in_total
    ∷ m.bytes_out_total ∷ m.error_total ∷ m.send_errors ∷ m.recv_errors ∷ m.codec_errors
    ∷ m.send_queue_size ∷ m.recv_queue_size ∷ m.latency_hist ∷ m.connected ∷ m.connected_time
    ∷ m.heartbeat_total ∷ m.heartbeat_fail_total ∷ m.last_heartbeat ∷ m.timeout_total
    ∷ m.read_timeout ∷ m.write_timeout ∷ m.idle_time ∷ m.active ∷ []

module _ {R : Type 0} (registry : Registry R) where
  unfoldable pub new_conn_metrics : String → R → Outcome String (ConnCollectors × R)
  new_conn_metrics namespace r =
      let m = conn_collectors namespace in
      register_all registry (conn_registered m) r >>= λ r2. ok (m, r2)
