-- ===== src/Metrics/Heartbeat.antt =====
-- metrics/heartbeat.go: the collectors and what registers them.
use mine_net.Base.{List, [], ◌∷◌, String, Outcome, ok, ◌>>=◌}
use mine_net.Metrics.Collectors.{Collector, Registry, counter, gauge, histogram, register_all}

pub record HeartbeatCollectors : Type 0 where
  pub connected : Collector
  pub success : Collector
  pub failed : Collector
  pub timeouts : Collector
  pub reconnects : Collector
  pub rtt : Collector
  pub last_success : Collector

abbrev labels : List String
labels = "connection_id" ∷ "remote_addr" ∷ []

-- Each metric by its options; buckets are in ten-thousandths of a second.
abbrev pub heartbeat_collectors : String → HeartbeatCollectors
heartbeat_collectors namespace = record {
  connected = gauge namespace "heartbeat" "connected" labels;
  success = counter namespace "heartbeat" "success_total" labels;
  failed = counter namespace "heartbeat" "failed_total" labels;
  timeouts = counter namespace "heartbeat" "timeouts_total" labels;
  reconnects = counter namespace "heartbeat" "reconnects_total" labels;
  rtt =
      histogram namespace "heartbeat" "rtt_seconds" labels
        (10 ∷ 50 ∷ 100 ∷ 250 ∷ 500 ∷ 1000 ∷ 2500 ∷ 5000 ∷ 10000 ∷ 25000 ∷ 50000 ∷ 100000 ∷ []);
  last_success = gauge namespace "heartbeat" "last_success_timestamp_seconds" labels;
}

-- The arguments of MustRegister.
abbrev pub heartbeat_registered : HeartbeatCollectors → List Collector
heartbeat_registered m =
    m.connected ∷ m.success ∷ m.failed ∷ m.timeouts ∷ m.reconnects ∷ m.rtt ∷ m.last_success ∷ []

module _ {R : Type 0} (registry : Registry R) where
  unfoldable pub new_heartbeat_metrics : String → R → Outcome String (HeartbeatCollectors × R)
  new_heartbeat_metrics namespace r =
      let m = heartbeat_collectors namespace in
      register_all registry (heartbeat_registered m) r >>= λ r2. ok (m, r2)
