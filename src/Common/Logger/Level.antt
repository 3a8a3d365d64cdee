-- ===== src/Common/Logger/Level.antt =====
-- What GetLogger gives after InitLogger, and what SetLevel changes.
use mine_net.Base.{
  ◌≡◌, refl, true, Option, none, some, All, String, ◌⊎◌, inl, inr, Outcome, ok, panic, if-cases,
}
use mine_net.Config.{LogConfig}
use mine_net.Common.Logger.{
  LogWorld, LogError, Core, Logger, LogState, new_log_state, new_logger, init_logger, get_logger,
  set_level, get_level, build_in, store, replace, cores_of,
}

module _ {L : Type 0} where
  -- All cores write from one level on.
  abbrev pub WritesFrom : L → Logger L → Type 0
  WritesFrom level l = All (λ (c : Core L). c.level ≡ level) l.cores

  cores_of-WritesFrom :
      (conf : LogConfig) (v : L) → All (λ (c : Core L). c.level ≡ v) (cores_of conf v)
  cores_of-WritesFrom conf v =
      if-cases (All (λ (c : Core L). c.level ≡ v)) conf.show_console (λ e. (refl, (refl, tt)))
        (λ e. (refl, tt))

module _ {L E : Type 0} where
  abbrev error_of : LogError E ⊎ Logger L → Option (LogError E)
  error_of (inl e) = some e
  error_of (inr l) = none

  -- A call of SetLevel failed and left the cores, or the cores have the level that it parsed.
  abbrev HasLevel : E ⊎ L → Logger L → Option (LogError E) × Logger L → Type 0
  HasLevel parsed old new =
      ((e : LogError E) × (new.0 ≡ some e) × ((new.1).cores ≡ old.cores))
      ⊎ ((v : L) × (parsed ≡ inr v) × (new.0 ≡ none) × WritesFrom v (new.1))

  replaced :
      (l : Logger L) (made : Option E) (parsed : E ⊎ L)
      → (get_level ((replace l (build_in l.config made parsed)).1) ≡ l.config.log_level)
        × HasLevel parsed l (replace l (build_in l.config made parsed))
  replaced l (some e) parsed = (refl, inl (_, refl, refl))
  replaced l none (inl e) = (refl, inl (_, refl, refl))
  replaced l none (inr v) = (refl, inr (v, refl, refl, cores_of-WritesFrom l.config v))

module _ {L E : Type 0} (world : LogWorld L E) where
  -- What GetLogger gives when New came to this.
  abbrev given : LogError E ⊎ Logger L → Outcome (LogError E) (Logger L × LogState L)
  given (inl e) = panic
  given (inr l) = ok (l, record { default_logger = some l; init_done = true })

  stored :
      (r : LogError E ⊎ Logger L)
      → ((store r).0 ≡ error_of r) × (get_logger world ((store r).1) ≡ given r)
  unfolding init_logger get_logger
  stored (inl e) = (refl, refl)
  stored (inr l) = (refl, refl)

  -- After the first InitLogger GetLogger gives New's logger, or panics if New failed.
  init_logger-get_logger :
      (conf : Option LogConfig)
      → ((init_logger world conf new_log_state).0 ≡ error_of (new_logger world conf))
        × (get_logger world ((init_logger world conf new_log_state).1)
            ≡ given (new_logger world conf))
  unfolding init_logger
  init_logger-get_logger conf = stored (new_logger world conf)

  -- SetLevel always sets the level that GetLevel gives; the cores change only if it succeeds.
  set_level_lem :
      (level : String) (l : Logger L)
      → (get_level ((set_level world level l).1) ≡ level)
        × HasLevel (world.parse_level level) l (set_level world level l)
  unfolding set_level new_logger
  set_level_lem level l =
      replaced (record l { config = record l.config { log_level = level } })
        (world.mkdir_all (world.dir l.config.log_path)) (world.parse_level level)
