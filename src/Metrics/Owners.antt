-- ===== src/Metrics/Owners.antt =====
-- Whose collector a name is: the program's collectors, by singleton.
use mine_net.Base.{
  ℕ, ◌≡◌, refl, Bool, true, false, Option, none, some, List, [], ◌∷◌, map, String, ◌==◌,
  if◌then◌else◌,
}
use mine_net.Metrics.Collectors.{Collector, full_name, has}
use mine_net.Metrics.Conn.{conn_collectors, conn_registered}
use mine_net.Metrics.Heartbeat.{heartbeat_collectors, heartbeat_registered}
use mine_net.Metrics.ConnPool.{conn_pool_collectors, conn_pool_registered}
use mine_net.Metrics.TcpServer.{server_collectors, server_registered}
use mine_net.Metrics.RateLimiter.{rate_limiter_collectors, rate_limiter_registered}
use mine_net.Metrics.Once.{Instances}
use mine_net.Metrics.Registration.{distinct, all}

-- The program's collectors, by the number of their singleton.
abbrev pub conn_list : List Collector
conn_list = conn_registered (conn_collectors "connection")

abbrev pub heartbeat_list : List Collector
heartbeat_list = heartbeat_registered (heartbeat_collectors "heartbeat")

abbrev pub conn_pool_list : List Collector
conn_pool_list = conn_pool_registered (conn_pool_collectors "conn_pool")

abbrev pub server_list : List Collector
server_list = server_registered (server_collectors "tcp_server")

abbrev pub rate_limiter_list : List Collector
rate_limiter_list =
    rate_limiter_registered
      (rate_limiter_collectors "rate_limiter" "traffic" (("instance", "global") ∷ []))

-- The number of the singleton that registers a name; 5 for another name.
unfoldable pub owner : String → ℕ
owner n =
    if has n (map full_name conn_list)
    then 0
    else if has n (map full_name heartbeat_list)
    then 1
    else if has n (map full_name conn_pool_list)
    then 2
    else if has n (map full_name server_list)
    then 3
    else if has n (map full_name rate_limiter_list)
    then 4
    else 5

-- A singleton's collectors have names of their own, each once.
unfoldable pub IsOwn : ℕ → List String → Type 0
IsOwn k ns = (distinct ns ≡ true) × (all (λ n. owner n == k) ns ≡ true)

pub conn-IsOwn : IsOwn 0 (map full_name conn_list)
unfolding IsOwn owner full_name
conn-IsOwn = (refl, refl)

pub heartbeat-IsOwn : IsOwn 1 (map full_name heartbeat_list)
unfolding IsOwn owner full_name
heartbeat-IsOwn = (refl, refl)

pub conn_pool-IsOwn : IsOwn 2 (map full_name conn_pool_list)
unfolding IsOwn owner full_name
conn_pool-IsOwn = (refl, refl)

pub server-IsOwn : IsOwn 3 (map full_name server_list)
unfolding IsOwn owner full_name
server-IsOwn = (refl, refl)

pub rate_limiter-IsOwn : IsOwn 4 (map full_name rate_limiter_list)
unfolding IsOwn owner full_name
rate_limiter-IsOwn = (refl, refl)

abbrev pub is_some : {M : Type 0} → Option M → Bool
is_some none = false
is_some (some m) = true

-- Which singletons there are.
unfoldable pub done : {R : Type 0} → Instances R → ℕ → Bool
done s k =
    if k == 0
    then is_some s.conn
    else if k == 1
    then is_some s.heartbeat
    else if k == 2
    then is_some s.conn_pool
    else if k == 3
    then is_some s.server
    else if k == 4
    then is_some s.rate_limiter
    else true
