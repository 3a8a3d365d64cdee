-- ===== src/Config.antt =====
-- config/: the configuration's structs, and the singleton. Durations are nanoseconds; a float64 is a
-- parameter's value, of type F. Reading a file and decoding it, both package viper's, are parameters.
pub mod Calls
pub mod Tests
use mine_net.Base.{
  ℕ, ◌*◌, Bool, true, false, Option, none, some, String, ◌⊎◌, inl, inr, if◌then◌else◌,
}
use mine_net.Network.ConnPool.Pool.{PoolConfig}

abbrev pub second : ℕ
second = 1000000000

pub record ConnConfig (F : Type 0) : Type 0 where
  pub compress_enabled : Bool
  pub encrypt_enabled : Bool
  pub encrypt_key : String
  pub encrypt_iv : String
  pub heartbeat_interval : ℕ
  pub heartbeat_timeout : ℕ
  pub retry_count : ℕ
  pub rps : F
  pub burst_size : ℕ
  pub read_timeout : ℕ
  pub write_timeout : ℕ
  pub max_message_size : ℕ
  pub send_queue_size : ℕ
  pub recv_queue_size : ℕ

-- `thousand` is the float64 1000.
abbrev pub default_config : {F : Type 0} → F → ConnConfig F
default_config thousand = record {
  compress_enabled = true;
  encrypt_enabled = true;
  encrypt_key = "1234567890123456";
  encrypt_iv = "1234567890123456";
  heartbeat_interval = second * 30;
  heartbeat_timeout = second * 90;
  retry_count = 3;
  rps = thousand;
  burst_size = 100;
  read_timeout = second * 30;
  write_timeout = second * 30;
  max_message_size = 1024 * 1024;
  send_queue_size = 1000;
  recv_queue_size = 1000;
}

abbrev pub default_conn_pool_config : PoolConfig
default_conn_pool_config = record {
  max_conns = 1000;
  min_idle_conns = 10;
  max_error_count = 3;
  idle_timeout = second * 300;
  max_lifetime = second * 3600 * 6;
  max_idle_time = second * 60 * 30;
}

pub record LogConfig : Type 0 where
  pub log_path : String
  pub log_level : String
  pub max_size : ℕ
  pub max_backups : ℕ
  pub max_age : ℕ
  pub compress : Bool
  pub show_console : Bool

pub record RedisConfig : Type 0 where
  pub addr : String
  pub password : String
  pub db : ℕ

pub record ServerConfig : Type 0 where
  pub app_name : String
  pub addr : String
  pub max_connections : ℕ

pub record Config (F : Type 0) : Type 0 where
  pub conn : ConnConfig F
  pub conn_pool : PoolConfig
  pub server : ServerConfig
  pub redis : RedisConfig
  pub log : LogConfig

-- V: a file's contents, as viper reads them; E: errors.
pub record Viper (F V E : Type 0) : Type 0 where
  pub read_in_config : String → E ⊎ V
  pub unmarshal : V → E ⊎ Config F

-- The package's variables: the configuration, nil at first, and whether the sync.Once is spent.
pub record ConfigState (F : Type 0) : Type 0 where
  pub config : Option (Config F)
  pub once_done : Bool

abbrev pub new_state : {F : Type 0} → ConfigState F
new_state = record { config = none; once_done = false }

-- The pointer and the error that a call returns.
abbrev pub to_pointer : {E A : Type 0} → E ⊎ A → Option A
to_pointer (inl e) = none
to_pointer (inr a) = some a

abbrev pub to_error : {E A : Type 0} → E ⊎ A → Option E
to_error (inl e) = some e
to_error (inr a) = none

abbrev unless_failed : {E A B : Type 0} → E ⊎ A → (A → E ⊎ B) → E ⊎ B
unless_failed (inl e) k = inl e
unless_failed (inr a) k = k a

module _ {F V E : Type 0} (viper : Viper F V E) where
  unfoldable pub load_file : String → E ⊎ Config F
  load_file path = unless_failed (viper.read_in_config path) viper.unmarshal

  unfoldable pub load_config : String → ConfigState F → Option E × ConfigState F
  load_config path s =
      let loaded = load_file path in
      if s.once_done
      then (none, s)
      else (to_error loaded, record { config = to_pointer loaded; once_done = true })

  unfoldable pub reload_config : String → ConfigState F → Option E × ConfigState F
  reload_config path s =
      let loaded = load_file path in (to_error loaded, record s { config = to_pointer loaded })

abbrev pub get_config : {F : Type 0} → ConfigState F → Option (Config F)
get_config s = s.config
