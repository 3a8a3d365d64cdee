-- ===== src/Config/Tests.antt =====
-- Calls on two files, of which one cannot be read.
use mine_net.Base.{ℕ, ◌≡◌, refl, true, false, none, List, [], ◌∷◌, inl, inr, if◌then◌else◌}
use text.Mathlib.Text.{◌==◌ as str_eq}
use mine_net.Config.{
  Config, Viper, new_state, default_config, default_conn_pool_config, load_file, load_config,
  get_config,
}
use mine_net.Config.Calls.{
  Call, loads, reloads, call_all, read_files, config_of, get_config-call_all,
}

abbrev pub defaults : Config ℕ
defaults = record {
  conn = default_config 1000;
  conn_pool = default_conn_pool_config;
  server = record { app_name = "mineNet"; addr = ":8888"; max_connections = 100 };
  redis = record { addr = "localhost:6379"; password = ""; db = 0 };
  log = record {
    log_path = "logs/app.log";
    log_level = "info";
    max_size = 100;
    max_backups = 30;
    max_age = 7;
    compress = true;
    show_console = true;
  };
}

-- Every file but missing.yaml holds the defaults.
abbrev pub viper : Viper ℕ ℕ ℕ
viper = record {
  read_in_config = λ path. if str_eq path "missing.yaml" then inl 2 else inr 0;
  unmarshal = λ v. inr defaults;
}

-- A first LoadConfig that failed is not made up for: the next returns nil, and there is no
-- configuration.
second_load :
    load_config viper "config.yaml" ((load_config viper "missing.yaml" new_state).1)
    ≡ (none, record { config = none; once_done = true })
unfolding load_config load_file
second_load = refl

abbrev calls : List Call
calls = loads "config.yaml" ∷ loads "missing.yaml" ∷ reloads "config.yaml" ∷ []

get_config-call_all_example :
    get_config (call_all viper calls new_state) ≡ config_of viper none (read_files false calls)
get_config-call_all_example = get_config-call_all viper calls
