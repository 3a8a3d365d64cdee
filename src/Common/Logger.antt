-- ===== src/Common/Logger.antt =====
-- common/log.go. Packages os, filepath and zapcore are parameters. L: zap's levels; E: errors. A Logger
-- holds its own copy of the configuration that it shares with its caller in the source.
pub mod Level
pub mod Tests
use mine_net.Base.{
  Bool, true, false, Option, none, some, List, [], ◌∷◌, String, ◌⊎◌, inl, inr, ℕ, Outcome, ok,
  panic, if◌then◌else◌,
}
use mine_net.Config.{LogConfig}

pub record LogWorld (L E : Type 0) : Type 0 where
  pub dir : String → String
  pub mkdir_all : String → Option E
  pub parse_level : String → E ⊎ L

pub data LogError (E : Type 0) : Type 0 where
  create_directory parse_level_failed : E → LogError E

-- lumberjack's options.
pub record Hook : Type 0 where
  pub filename : String
  pub max_size : ℕ
  pub max_backups : ℕ
  pub max_age : ℕ
  pub compress : Bool

pub data Writer : Type 0 where
  json_file : Hook → Writer
  console : Writer

pub record Core (L : Type 0) : Type 0 where
  pub writer : Writer
  pub level : L

pub record Logger (L : Type 0) : Type 0 where
  pub cores : List (Core L)
  pub config : LogConfig

abbrev pub default_config : LogConfig
default_config = record {
  log_path = "logs/app.log";
  log_level = "info";
  max_size = 100;
  max_backups = 30;
  max_age = 7;
  compress = true;
  show_console = true;
}

abbrev pub hook_of : LogConfig → Hook
hook_of conf = record {
  filename = conf.log_path;
  max_size = conf.max_size;
  max_backups = conf.max_backups;
  max_age = conf.max_age;
  compress = conf.compress;
}

abbrev pub conf_or_default : Option LogConfig → LogConfig
conf_or_default none = default_config
conf_or_default (some conf) = conf

abbrev pub core : {L : Type 0} → Writer → L → Core L
core writer level = record { writer = writer; level = level }

abbrev pub cores_of : {L : Type 0} → LogConfig → L → List (Core L)
cores_of conf level =
    if conf.show_console
    then core (json_file (hook_of conf)) level ∷ core console level ∷ []
    else core (json_file (hook_of conf)) level ∷ []

-- The package's variables: the logger, nil at first, and whether initOnce is spent.
pub record LogState (L : Type 0) : Type 0 where
  pub default_logger : Option (Logger L)
  pub init_done : Bool

abbrev pub new_log_state : {L : Type 0} → LogState L
new_log_state = record { default_logger = none; init_done = false }

module _ {L E : Type 0} where
  -- New behind the level's parsing.
  abbrev pub build : LogConfig → E ⊎ L → LogError E ⊎ Logger L
  build conf (inl e) = inl (parse_level_failed e)
  build conf (inr level) = inr (record { cores = cores_of conf level; config = conf })

  abbrev pub build_in : LogConfig → Option E → E ⊎ L → LogError E ⊎ Logger L
  build_in conf (some e) level = inl (create_directory e)
  build_in conf none level = build conf level

  -- What InitLogger stores and returns.
  abbrev pub store : LogError E ⊎ Logger L → Option (LogError E) × LogState L
  store (inl e) = (some e, record { default_logger = none; init_done = true })
  store (inr l) = (none, record { default_logger = some l; init_done = true })

  -- GetLogger's last line: the type assertion panics on nil.
  abbrev pub assert_logger :
      Option (Logger L) → LogState L → Outcome (LogError E) (Logger L × LogState L)
  assert_logger none s = panic
  assert_logger (some l) s = ok (l, s)

  -- What SetLevel leaves of a logger, whose configuration has the new level already.
  abbrev pub replace : Logger L → LogError E ⊎ Logger L → Option (LogError E) × Logger L
  replace l (inl e) = (some e, l)
  replace l (inr l2) = (none, l2)

module _ {L E : Type 0} (world : LogWorld L E) where
  unfoldable pub new_logger : Option LogConfig → LogError E ⊎ Logger L
  new_logger given =
      let conf = conf_or_default given in
      build_in conf (world.mkdir_all (world.dir conf.log_path)) (world.parse_level conf.log_level)

  unfoldable pub init_logger : Option LogConfig → LogState L → Option (LogError E) × LogState L
  init_logger conf s = if s.init_done then (none, s) else store (new_logger conf)

  unfoldable pub get_logger : LogState L → Outcome (LogError E) (Logger L × LogState L)
  get_logger s = elim s.default_logger [
    | some l ↦ ok (l, s)
    | none ↦ let s2 = (init_logger none s).1 in assert_logger s2.default_logger s2
  ]

  unfoldable pub set_level : String → Logger L → Option (LogError E) × Logger L
  set_level level l =
      let changed = record l { config = record l.config { log_level = level } } in
      replace changed (new_logger (some changed.config))

abbrev pub get_level : {L : Type 0} → Logger L → String
get_level l = l.config.log_level
