-- ===== src/Main/Tests.antt =====
-- main with a file and a logger that are there, and without the file; then a Stop of what it made.
use mine_net.Base.{
  ◌<◌, List, Option, [], ◌∷◌, ◌++◌, length, arith, sym, ℕ, ◌≡◌, refl, Bool, true, false, none, some,
  ok, inr, panic,
}
use mine_net.Config.{load_file, Viper, load_config}
use mine_net.Config.Tests.{viper, defaults}
use mine_net.Common.Logger.{Logger, cores_of, new_logger}
use mine_net.Common.Logger.Tests.{world}
use mine_net.Common.Redis.{RedisApi}
use mine_net.Core.Router.{Router}
use mine_net.Core.Tests.{types, numbers}
use mine_net.Network.Connection.State.{Connection}
use mine_net.Network.RateLimiter.{RateLimiter}
use mine_net.Network.TcpServer.Server.{ServerInterface}
use mine_net.Network.TcpServer.Instance.{served}
use mine_net.Network.Tests.{counting}
use mine_net.Main.{Component, metrics_server, Program, main}
use mathlib.Core.Path.{subst}
use mine_net.Common.Manager.{Stopping, begin_stop, returned}
use mine_net.Common.Manager.Shutdown.{Reached, begun, next, times_out}
use mine_net.Main.Shutdown.{main-stop}
use mine_net.Main.Startup.{LoginTypes, IsReady, main-IsReady}

abbrev redis : RedisApi ℕ ℕ
redis = record { new_client = λ cfg. cfg.db; ping = λ k. none; close = λ k. (k, none) }

abbrev iface : ServerInterface (Connection (Router ℕ) ℕ) (Router ℕ) (RateLimiter counting)
iface = served counting true

abbrev logger : Logger ℕ
logger = record { cores = cores_of defaults.log 1; config = defaults.log }

login_types : LoginTypes types numbers 7 107
login_types = record { points = refl; answers = refl; fails = refl }

file : load_file viper "config.yaml" ≡ inr defaults
unfolding load_file
file = refl

logging : new_logger world (some defaults.log) ≡ inr logger
unfolding new_logger
logging = refl

main-IsReady_example :
    (p : Program ℕ ℕ ℕ (Connection (Router ℕ) ℕ) ℕ) × (main viper world redis types numbers 7 107
        iface
      ≡ ok p)
    × IsReady viper world redis types numbers 7 107 iface defaults logger p
main-IsReady_example =
    main-IsReady viper world redis types numbers 7 107 iface defaults logger file logging
      login_types

abbrev no_file : Viper ℕ ℕ ℕ
no_file = record viper { read_in_config = λ path. viper.read_in_config "missing.yaml" }

no_file_panics : main no_file world redis types numbers 7 107 iface ≡ panic
unfolding main load_config load_file
no_file_panics = refl

-- The metrics server's Start goes on.
abbrev serves : Component → Bool
serves metrics_server = false
serves c = true

abbrev stops : Component → Option ℕ
stops c = none

ready :
    (p : Program ℕ ℕ ℕ (Connection (Router ℕ) ℕ) ℕ) × (main viper world redis types numbers 7 107
        iface
      ≡ ok p)
    × IsReady viper world redis types numbers 7 107 iface defaults logger p
ready =
    main-IsReady viper world redis types numbers 7 107 iface defaults logger file logging
      login_types

four_left : 0 < length ((ready.0).manager.components)
four_left = subst (λ (cs : List Component). 0 < length cs) (sym (ready.2.components)) (omega arith)

timed_out : Stopping Component ℕ
timed_out =
    let s = begin_stop ((ready.0).manager) in
    record s { errs = 99 ∷ []; phase = returned (some (99 ∷ [])) }

by_timeout : Reached stops serves 99 ((ready.0).manager) timed_out
unfolding timed_out begin_stop
by_timeout = next begun (times_out _ refl four_left)

main-stop_example : (before : List ℕ) × (some (99 ∷ []) ≡ some (before ++ (99 ∷ [])))
unfolding timed_out by_timeout
main-stop_example =
    main-stop viper world redis types numbers 7 107 iface stops serves 99 (ready.0) timed_out
      (some (99 ∷ [])) by_timeout (ready.1) refl refl
