-- ===== src/Config/Calls.antt =====
-- Which file the configuration is of, after any calls of LoadConfig and ReloadConfig.
use mine_net.Base.{◌≡◌, refl, Bool, true, false, Option, none, List, [], ◌∷◌, String}
use mine_net.Config.{
  Config, Viper, ConfigState, new_state, load_file, load_config, reload_config, get_config,
  to_pointer,
}

pub data Call : Type 0 where
  loads reloads : String → Call

-- The files that are read: LoadConfig reads only the first time.
abbrev pub read_files : Bool → List Call → List String
read_files once [] = []
read_files once (reloads path ∷ cs) = path ∷ read_files once cs
read_files true (loads path ∷ cs) = read_files true cs
read_files false (loads path ∷ cs) = path ∷ read_files true cs

module _ {F V E : Type 0} (viper : Viper F V E) where
  unfoldable pub call_all : List Call → ConfigState F → ConfigState F
  call_all [] s = s
  call_all (loads path ∷ cs) s = call_all cs ((load_config viper path s).1)
  call_all (reloads path ∷ cs) s = call_all cs ((reload_config viper path s).1)

  -- The configuration of the last file, and nil if it was not read.
  abbrev pub config_of : Option (Config F) → List String → Option (Config F)
  config_of c [] = c
  config_of c (path ∷ paths) = config_of (to_pointer (load_file viper path)) paths

  call_all_from :
      (cs : List Call) (c : Option (Config F)) (once : Bool)
      → get_config (call_all cs (record { config = c; once_done = once }))
        ≡ config_of c (read_files once cs)
  unfolding call_all load_config reload_config
  call_all_from [] c once = refl
  call_all_from (reloads path ∷ cs) c once =
      call_all_from cs (to_pointer (load_file viper path)) once
  call_all_from (loads path ∷ cs) c true = call_all_from cs c true
  call_all_from (loads path ∷ cs) c false =
      call_all_from cs (to_pointer (load_file viper path)) true

  -- After any calls, GetConfig gives the configuration of the file read last, nil if that failed.
  pub get_config-call_all :
      (cs : List Call) → get_config (call_all cs new_state) ≡ config_of none (read_files false cs)
  get_config-call_all cs = call_all_from cs none false
