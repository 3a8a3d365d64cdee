-- ===== src/Metrics/Once.antt =====
-- The singletons of metrics/ and network/rate_limiter.go, each made under a sync.Once of its own, with
-- the namespaces that package network gives. R: the registry's states.
use mine_net.Base.{Option, none, some, List, [], ◌∷◌, String, Outcome, ok, ◌>>=◌}
use mine_net.Metrics.Collectors.{Registry}
use mine_net.Metrics.Conn.{ConnCollectors, new_conn_metrics}
use mine_net.Metrics.Heartbeat.{HeartbeatCollectors, new_heartbeat_metrics}
use mine_net.Metrics.ConnPool.{ConnPoolCollectors, new_conn_pool_metrics}
use mine_net.Metrics.TcpServer.{TcpServerCollectors, new_server_metrics}
use mine_net.Metrics.RateLimiter.{RateLimiterCollectors, new_rate_limiter_metrics}

pub record Instances (R : Type 0) : Type 0 where
  pub registered : R
  pub conn : Option ConnCollectors
  pub heartbeat : Option HeartbeatCollectors
  pub conn_pool : Option ConnPoolCollectors
  pub server : Option TcpServerCollectors
  pub rate_limiter : Option RateLimiterCollectors

-- Do: a new value the first time, the old one from then on.
abbrev pub once_do :
    {R M : Type 0} → Option M → (R → Outcome String (M × R)) → R → Outcome String (M × R)
once_do (some m) make r = ok (m, r)
once_do none make r = make r

-- The calls that the program makes.
pub data Get : Type 0 where
  conn_get heartbeat_get conn_pool_get server_get rate_limiter_get : Get

module _ {R : Type 0} (registry : Registry R) where
  unfoldable pub get_conn_metrics : String → Instances R → Outcome String (Instances R)
  get_conn_metrics namespace s =
      once_do s.conn (new_conn_metrics registry namespace) s.registered >>= λ p.
      ok (record s { registered = p.1; conn = some (p.0) })

  unfoldable pub get_heartbeat_metrics : String → Instances R → Outcome String (Instances R)
  get_heartbeat_metrics namespace s =
      once_do s.heartbeat (new_heartbeat_metrics registry namespace) s.registered >>= λ p.
      ok (record s { registered = p.1; heartbeat = some (p.0) })

  unfoldable pub get_conn_pool_metrics : Instances R → Outcome String (Instances R)
  get_conn_pool_metrics s =
      once_do s.conn_pool (new_conn_pool_metrics registry "conn_pool") s.registered >>= λ p.
      ok (record s { registered = p.1; conn_pool = some (p.0) })

  unfoldable pub get_tcp_server_metrics : String → Instances R → Outcome String (Instances R)
  get_tcp_server_metrics namespace s =
      once_do s.server (new_server_metrics registry namespace) s.registered >>= λ p.
      ok (record s { registered = p.1; server = some (p.0) })

  -- The rate limiter's metrics are made with its singleton.
  unfoldable pub get_rate_limiter_metrics : Instances R → Outcome String (Instances R)
  get_rate_limiter_metrics s =
      once_do s.rate_limiter
        (new_rate_limiter_metrics registry "rate_limiter" "traffic" (("instance", "global") ∷ []))
        s.registered
      >>= λ p. ok (record s { registered = p.1; rate_limiter = some (p.0) })

  unfoldable pub get : Get → Instances R → Outcome String (Instances R)
  get conn_get s = get_conn_metrics "connection" s
  get heartbeat_get s = get_heartbeat_metrics "heartbeat" s
  get conn_pool_get s = get_conn_pool_metrics s
  get server_get s = get_tcp_server_metrics "tcp_server" s
  get rate_limiter_get s = get_rate_limiter_metrics s

  unfoldable pub get_all : List Get → Instances R → Outcome String (Instances R)
  get_all [] s = ok s
  get_all (g ∷ gs) s = get g s >>= λ s2. get_all gs s2
