-- ===== src/Network/Tests/Servers.antt =====
-- Runs of the pool and of the server, over connections of network/conn.go.
use mine_net.Base.{
  ℕ, ◌+◌, ◌≡◌, ◌≤◌, refl, true, false, none, some, List, [], ◌∷◌, String, length, arith,
}
use mine_net.Base.Int.{to_int32}
use mine_net.Base.Map.{nat_key, string_key, lookup, insert, erase}
use mine_net.Network.Errors.{listen}
use mine_net.Network.RateLimiter.{RateLimiter, new_rate_limiter}
use mine_net.Network.Heartbeat
use mine_net.Network.Heartbeat.{new_heartbeat_manager}
use mine_net.Network.Connection.State.{
  Connection, new_connection, close, set_handler, finish_close, is_alive,
}
use mine_net.Network.ConnPool.Pool.{
  PoolConfig, ConnPool, new_conn_pool, add, remove, cleanup, close_pool, should_cleanup,
  remove_found, remove_closed, close_each,
}
use mine_net.Network.ConnPool.Bounds.{IsValid, new_conn_pool-IsValid, add-IsValid, cleanup-IsValid}
use mine_net.Network.ConnPool.Removal.{left_open, close_failures}
use mine_net.Network.ConnPool.Cleanup.{cleanup_floor}
use mine_net.Network.TcpServer.Server.{
  ServerInterface, TcpServer, arrived, accept, admit, monitor, stop_listener, accept_step, install,
  init_tcp_server, set_server_handler, stop, broadcast, broadcast_each, get_active_connections,
}
use mine_net.Network.TcpServer.Accept.{
  Op, arrival, departure, shutdown, run, AllFresh, run-IsValid, stop_lem,
}
use mine_net.Network.TcpServer.Broadcast.{refusals, IsOffered, broadcast_lem}
use mine_net.Network.TcpServer.Instance.{pooled, served}
use mine_net.Network.Tests.{counting, hello, fresh_conn}

abbrev iface : ServerInterface (Connection String ℕ) String (RateLimiter counting)
iface = served counting true

abbrev config : PoolConfig
config = record {
  max_conns = 2;
  min_idle_conns = 1;
  max_error_count = 5;
  idle_timeout = 300;
  max_lifetime = 5000;
  max_idle_time = 300;
}

abbrev server : TcpServer (Connection String ℕ) String
server = set_server_handler iface 3 "on_request" (init_tcp_server iface config 2)

server-IsValid : IsValid pooled server.conns
unfolding set_server_handler init_tcp_server
server-IsValid = new_conn_pool-IsValid pooled config

-- Three connections arrive at a pool of two; one of the two departs, and the server stops.
abbrev history : List (Op iface)
history =
    arrival (arrived (fresh_conn "a"))
    ∷ arrival (arrived (fresh_conn "b"))
    ∷ arrival (arrived (fresh_conn "c"))
    ∷ departure "a"
    ∷ shutdown none
    ∷ []

history-AllFresh : AllFresh iface history server
unfolding accept_step accept admit install add remove remove_found remove_closed monitor stop
    stop_listener close_pool close_each close finish_close set_handler lookup insert erase
    new_connection new_heartbeat_manager Heartbeat.start Heartbeat.stop set_server_handler
    init_tcp_server new_conn_pool
history-AllFresh = (refl, (refl, (refl, tt)))

run-IsValid_example : IsValid pooled (run iface history server).conns
run-IsValid_example = run-IsValid iface history server history-AllFresh server-IsValid

-- The server with one connection, and one place left.
abbrev pool : ConnPool (Connection String ℕ)
pool = (add pooled (new_conn_pool pooled config) (fresh_conn "a")).0

pool-IsValid : IsValid pooled pool
unfolding new_connection new_conn_pool lookup
pool-IsValid =
    add-IsValid pooled (new_conn_pool pooled config) (fresh_conn "a") refl
      (new_conn_pool-IsValid pooled config)

cleanup-IsValid_example : IsValid pooled (cleanup pooled 6000 pool)
cleanup-IsValid_example = cleanup-IsValid pooled 6000 pool pool-IsValid

cleanup_floor_example : pool.min_idle_conns ≤ length (cleanup pooled 1000 pool).connections
unfolding new_connection new_conn_pool add insert should_cleanup is_alive Heartbeat.is_alive
    Heartbeat.start new_heartbeat_manager to_int32
cleanup_floor_example =
    cleanup_floor pooled 1000 pool
      (record { open_yet = refl; young = refl; errors = refl; alive = ground arith }, tt)
      (omega arith)

broadcast_lem_example :
    let s = record server { conns = pool } in
    let limiter = new_rate_limiter counting 1 1 in
    let r = broadcast_each iface 200 hello limiter s.conns.connections in
    let s' = (broadcast iface 200 hello limiter s).1 in
    (r.success + r.errors ≡ get_active_connections iface s)
    × (s'.metrics.broadcast_errors
        ≡ s.metrics.broadcast_errors + refusals iface 200 hello limiter s.conns.connections)
    × (length s'.conns.connections ≡ length s.conns.connections)
    × ((k : String) → lookup k s.conns.connections ≡ none → lookup k s'.conns.connections ≡ none)
    × ((k : String) (c : Connection String ℕ)
        → lookup k s.conns.connections ≡ some c
        → c.closed ≡ true
        → lookup k s'.conns.connections ≡ some c)
    × ((k : String) (c : Connection String ℕ)
        → lookup k s.conns.connections ≡ some c
        → c.closed ≡ false
        → IsOffered iface 200 hello c (lookup k s'.conns.connections))
broadcast_lem_example =
    broadcast_lem iface 200 hello (new_rate_limiter counting 1 1) (record server { conns = pool })

stop_lem_example :
    let s = record server { conns = pool; listening = true } in
    let (s', result) = stop iface (some (listen 1)) s in
    ((k : String) → lookup k s'.conns.connections ≡ left_open pooled (lookup k s.conns.connections))
    × (s'.conns.metrics.close_errors
        ≡ s.conns.metrics.close_errors + close_failures pooled s.conns.connections)
    × (result ≡ some (listen 1))
    × (accept_step iface (arrived (fresh_conn "d")) s' ≡ (s', none, false))
stop_lem_example =
    stop_lem iface (some (listen 1)) (record server { conns = pool; listening = true })
      (arrived (fresh_conn "d")) pool-IsValid.distinct
