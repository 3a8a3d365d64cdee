-- ===== src/Metrics/ConnPool.antt =====
-- metrics/conn_pool.go: the collectors and what registers them.
use mine_net.Base.{List, [], ◌∷◌, String, Outcome, ok, ◌>>=◌}
use mine_net.Metrics.Collectors.{Collector, Registry, counter, gauge, histogram, register_all}

pub record ConnPoolCollectors : Type 0 where
  pub total_conns : Collector
  pub active_conns : Collector
  pub idle_conns : Collector
  pub conn_errors : Collector
  pub close_errors : Collector
  pub conn_created : Collector
  pub conn_closed : Collector
  pub conn_acquired : Collector
  pub conn_acquire_failed : Collector
  pub acquire_time : Collector
  pub cleanup_total : Collector
  pub cleanup_conns : Collector

-- Each metric by its options; buckets are in ten-thousandths of a second.
abbrev pub conn_pool_collectors : String → ConnPoolCollectors
conn_pool_collectors namespace = record {
  total_conns = gauge namespace "" "connPool_connections_total" [];
  active_conns = gauge namespace "" "connPool_connections_active" [];
  idle_conns = gauge namespace "" "connPool_connections_idle" [];
  conn_errors = counter namespace "" "connPool_connection_errors_total" [];
  close_errors = counter namespace "" "connPool_close_errors_total" [];
  conn_created = counter namespace "" "connPool_connections_created_total" [];
  conn_closed = counter namespace "" "connPool_connections_closed_total" [];
  conn_acquired = counter namespace "" "connPool_connections_acquired_total" [];
  conn_acquire_failed = counter namespace "" "connPool_connections_acquire_failed_total" [];
  acquire_time =
      histogram namespace "" "connPool_acquire_duration_seconds" []
        (10 ∷ 50 ∷ 100 ∷ 250 ∷ 500 ∷ 1000 ∷ 2500 ∷ 5000 ∷ 10000 ∷ []);
  cleanup_total = counter namespace "" "connPool_cleanup_operations_total" [];
  cleanup_conns = counter namespace "" "connPool_connections_cleaned_total" [];
}

-- The arguments of MustRegister.
abbrev pub conn_pool_registered : ConnPoolCollectors → List Collector
conn_pool_registered m =
    m.total_conns ∷ m.active_conns ∷ m.idle_conns ∷ m.conn_errors ∷ m.close_errors ∷ m.conn_created
    ∷ m.conn_closed ∷ m.conn_acquired ∷ m.conn_acquire_failed ∷ m.acquire_time ∷ m.cleanup_total
    ∷ m.cleanup_conns ∷ []

module _ {R : Type 0} (registry : Registry R) where
  unfoldable pub new_conn_pool_metrics : String → R → Outcome String (ConnPoolCollectors × R)
  new_conn_pool_metrics namespace r =
      let m = conn_pool_collectors namespace in
      register_all registry (conn_pool_registered m) r >>= λ r2. ok (m, r2)
