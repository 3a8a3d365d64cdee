-- ===== src/Common/Logger/Tests.antt =====
-- A logger whose only levels are debug and info.
use text.Mathlib.Text.{◌==◌ as str_eq}
use mine_net.Base.{ℕ, ◌≡◌, refl, none, some, inl, inr, panic, if◌then◌else◌}
use mine_net.Config.{LogConfig}
use mine_net.Common.Logger.{
  LogWorld, parse_level_failed, Logger, default_config, new_log_state, new_logger, init_logger,
  get_logger, set_level, cores_of,
}

abbrev pub world : LogWorld ℕ ℕ
world = record {
  dir = λ path. "logs";
  mkdir_all = λ d. none;
  parse_level = λ l. if str_eq l "debug" then inr 0 else if str_eq l "info" then inr 1 else inl 8;
}

abbrev verbose : LogConfig
verbose = record default_config { log_level = "verbose" }

-- Once InitLogger failed, GetLogger panics: the sync.Once is spent.
failed_init : get_logger world ((init_logger world (some verbose) new_log_state).1) ≡ panic
unfolding init_logger get_logger new_logger
failed_init = refl

abbrev logger : Logger ℕ
logger = record { cores = cores_of default_config 1; config = default_config }

-- A level that does not parse is given by GetLevel all the same, and nothing is written by it.
bad_level : set_level world "loud" logger ≡ (
  some (parse_level_failed 8),
  record logger { config = record default_config { log_level = "loud" } },
)
unfolding set_level new_logger
bad_level = refl
