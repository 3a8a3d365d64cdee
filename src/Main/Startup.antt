-- ===== src/Main/Startup.antt =====
-- What main has set up when it waits.
use mine_net.Base.{
  ℕ, ◌≡◌, refl, ◌∙◌, true, some, [], ◌∷◌, Outcome, ok, err, panic, inr, if◌then◌else◌, arith,
}
use mine_net.Base.Map.{nat_key, lookup, lookup-insert_self}
use mine_net.Config.{Config, Viper, load_file, load_config, get_config}
use mine_net.Common.Logger.{Logger, LogWorld, new_logger, init_logger, get_logger}
use mine_net.Common.Redis.{RedisApi, init_redis, new_redis_state}
use mine_net.Common.Scheduler.{new_scheduler}
use mine_net.Common.Manager.{register, start}
use mine_net.Core.Errors.{RouterError}
use mine_net.Core.Router.{Reflection, Protobuf, Router, new_router, register_handler, struct_type}
use mine_net.Core.Validation.{Stored, register_handler_lem}
use mine_net.Network.Packet.{cmd_request}
use mine_net.Network.TcpServer.Server.{
  ServerInterface, TcpServer, init_tcp_server, set_server_handler, get_handler,
}
use mine_net.Main.{
  tcp_server, metrics_server, scheduler_server, redis_server, login_handler, installed, init_app,
  Program, registered, main,
}

if_same : {A : Type 0} (n : ℕ) {x : A} (y : A) → (if nat_key.beq n n then x else y) ≡ x
if_same n y = ground arith

module _ {M : Type 0} (reflect : Reflection) (proto : Protobuf M) (request response : M) where
  -- What package reflect finds of the login messages.
  pub record LoginTypes : Type 0 where
    pub points : reflect.elem (proto.type_of request) ≡ ok (struct_type reflect proto request)
    pub answers : reflect.implements (proto.type_of response) reflect.message_type ≡ true
    pub fails : reflect.implements reflect.error_type reflect.error_type ≡ true

  -- A server whose requests go to a router that has the login handler.
  pub record IsApp {C S : Type 0} (i : ServerInterface C (Router M) S) (s : TcpServer C (Router M))
      : Type 0 where
    pub router : Router M
    pub routed : get_handler i cmd_request s ≡ some router
    pub handled :
        lookup (struct_type reflect proto request) router.handlers
        ≡ some (login_handler reflect proto request response)

  installed-IsApp :
      {C S : Type 0} (i : ServerInterface C (Router M) S) (s : TcpServer C (Router M))
      (o : Router M × Outcome RouterError (Unit {0}))
      → o.1 ≡ ok tt
      → Stored reflect proto
          (struct_type reflect proto request)
          (login_handler reflect proto request response)
          new_router
          o
      → (s2 : TcpServer C (Router M)) × (installed reflect proto request response i s o ≡ ok s2)
        × IsApp i s2
  unfolding set_server_handler get_handler
  installed-IsApp i s (r, ok u) e h = (
    set_server_handler i cmd_request r s,
    refl,
    record {
      router = r;
      routed = lookup-insert_self cmd_request r s.handlers;
      handled =
          h (struct_type reflect proto request) ∙ if_same (struct_type reflect proto request) _;
    },
  )
  installed-IsApp i s (r, err x) e h = cc
  installed-IsApp i s (r, panic) e h = cc

  pub init_app-IsApp :
      {C S : Type 0} (i : ServerInterface C (Router M) S) (s : TcpServer C (Router M))
      → LoginTypes
      → (s2 : TcpServer C (Router M)) × (init_app reflect proto request response i s ≡ ok s2)
        × IsApp i s2
  unfolding init_app
  init_app-IsApp i s t =
      let law =
        register_handler_lem reflect proto request (login_handler reflect proto request response)
          new_router in
      installed-IsApp i s
        (register_handler reflect proto request (login_handler reflect proto request response)
          new_router)
        (law.0.1 ((refl, t.points), (t.answers, t.fails))) law.1

module _ {F V E L D K X M C S : Type 0} (viper : Viper F V E) (world : LogWorld L D)
    (api : RedisApi K X) (reflect : Reflection) (proto : Protobuf M) (request response : M)
    (i : ServerInterface C (Router M) S) where
  -- The configuration of config.yaml, a logger, the login handler on the server, and four components
  -- whose Start is called.
  pub record IsReady (cfg : Config F) (l : Logger L) (p : Program F L K C M) : Type 0 where
    pub configured : get_config p.config ≡ some cfg
    pub logging : get_logger world p.logs ≡ ok (l, p.logs)
    pub app : IsApp reflect proto request response i p.server
    pub components :
        p.manager.components ≡ tcp_server ∷ metrics_server ∷ scheduler_server ∷ redis_server ∷ []
    pub starting : p.manager.pending ≡ p.manager.components

  -- If config.yaml is read, New makes a logger of it and the login messages' types are those of a
  -- handler, main comes to its Wait with all of them in place and four components starting.
  pub main-IsReady :
      (cfg : Config F) (l : Logger L)
      → load_file viper "config.yaml" ≡ inr cfg
      → new_logger world (some cfg.log) ≡ inr l
      → LoginTypes reflect proto request response
      → (p : Program F L K C M) × (main viper world api reflect proto request response i ≡ ok p)
        × IsReady cfg l p
  unfolding main load_config init_logger get_logger start register
  main-IsReady cfg l file log types =
      let app =
        init_app-IsApp reflect proto request response i
          (init_tcp_server i cfg.conn_pool cfg.server.max_connections) types in
      (
        record {
          config = record { config = some cfg; once_done = true };
          logs = record { default_logger = some l; init_done = true };
          redis = init_redis api cfg.redis new_redis_state;
          server = app.0;
          scheduler = new_scheduler;
          manager = start registered;
        },
        rw (file, log, app.1) refl,
        record {
          configured = refl;
          logging = refl;
          app = app.2;
          components = refl;
          starting = refl;
        },
      )
