-- ===== src/Main.antt =====
-- main.go and handler.go: how the program is put together. The four components are names here; what
-- each does is its own module's.
pub mod Startup
pub mod Shutdown
pub mod Exchange
pub mod Tests
use mine_net.Base.{Option, none, some, [], ◌∷◌, String, Outcome, ok, err, panic, ◌>>=◌}
use mine_net.Config.{Viper, ConfigState, new_state, load_config, get_config}
use mine_net.Common.Logger.{LogWorld, LogState, new_log_state, init_logger}
use mine_net.Common.Redis.{RedisApi, RedisState, new_redis_state, init_redis}
use mine_net.Common.Scheduler.{Scheduler, new_scheduler}
use mine_net.Common.Manager.{Manager, new_manager, register, start}
use mine_net.Core.Errors.{RouterError}
use mine_net.Core.Router.{
  Reflection, Protobuf, Handler, func, two, Router, new_router, register_handler,
}
use mine_net.Network.Packet.{cmd_request}
use mine_net.Network.TcpServer.Server.{
  ServerInterface, TcpServer, init_tcp_server, set_server_handler,
}

pub data Component : Type 0 where
  tcp_server metrics_server scheduler_server redis_server : Component

module _ {M : Type 0} (reflect : Reflection) (proto : Protobuf M) (request response : M) where
  -- The handler of LoginRequest: a function literal, which prints the request and answers the same
  -- to all.
  abbrev pub login_handler : Handler M
  login_handler =
      func (reflect.context_type ∷ proto.type_of request ∷ [])
        (proto.type_of response ∷ reflect.error_type ∷ []) (λ m. two (some response) none)

  abbrev pub installed :
      {C S : Type 0}
      → ServerInterface C (Router M) S
      → TcpServer C (Router M)
      → Router M × Outcome RouterError (Unit {0})
      → Outcome String (TcpServer C (Router M))
  installed i s (router, ok u) = ok (set_server_handler i cmd_request router s)
  installed i s (router, err e) = panic
  installed i s (router, panic) = panic

  unfoldable pub init_app :
      {C S : Type 0}
      → ServerInterface C (Router M) S
      → TcpServer C (Router M)
      → Outcome String (TcpServer C (Router M))
  init_app i s = installed i s (register_handler reflect proto request login_handler new_router)

-- What main has when it waits.
pub record Program (F L K C M : Type 0) : Type 0 where
  pub config : ConfigState F
  pub logs : LogState L
  pub redis : RedisState K
  pub server : TcpServer C (Router M)
  pub scheduler : Scheduler
  pub manager : Manager Component

abbrev pub registered : Manager Component
registered =
    register redis_server
      (register scheduler_server (register metrics_server (register tcp_server new_manager)))

-- The panic that main makes of an error.
abbrev pub no_error : {E A : Type 0} → Option E × A → Outcome String A
no_error (none, a) = ok a
no_error (some e, a) = panic

-- A nil pointer's field panics.
abbrev pub dereferenced : {A : Type 0} → Option A → Outcome String A
dereferenced none = panic
dereferenced (some a) = ok a

module _ {F V E L D K X M C S : Type 0} (viper : Viper F V E) (world : LogWorld L D)
    (api : RedisApi K X) (reflect : Reflection) (proto : Protobuf M) (request response : M)
    (i : ServerInterface C (Router M) S) where
  -- main up to its call of Wait.
  unfoldable pub main : Outcome String (Program F L K C M)
  main = no_error (load_config viper "config.yaml" new_state) >>= λ config.
      dereferenced (get_config config) >>= λ cfg.
      no_error (init_logger world (some cfg.log) new_log_state) >>= λ logs.
      init_app reflect proto request response i
        (init_tcp_server i cfg.conn_pool cfg.server.max_connections)
      >>= λ server. ok (record {
        config = config;
        logs = logs;
        redis = init_redis api cfg.redis new_redis_state;
        server = server;
        scheduler = new_scheduler;
        manager = start registered;
      })
