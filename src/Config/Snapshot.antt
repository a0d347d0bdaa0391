-- ===== src/Config/Snapshot.antt =====
-- internal/config/snapshot.go: the configuration that is in force. What Load makes of the file at
-- one moment is an input: none where it cannot be read or decoded.
pub mod Ready
use haribon.Prelude.{String, Bool, Option, none, some, List, [], ◌∷◌, ℤ}
use haribon.Config.{Backend, Config, ConfigError, validate}
use haribon.Config.Defaults.{apply_env_overrides, defaults}

-- What Reload returns.
pub data ReloadError : Type 0 where
  not_loaded : ReloadError
  not_valid : ConfigError → ReloadError

-- func NewSnapshot, func (s *Snapshot) Load: the snapshot is the configuration behind its pointer
abbrev pub Snapshot : Type 0
Snapshot = Config

-- func BackendsFromConfig
unfoldable pub backends_from_config : List Backend → List String
backends_from_config [] = []
backends_from_config (b ∷ bs) = b.host ∷ backends_from_config bs

-- type BackendWeight struct
pub record BackendWeight : Type 0 where
  pub url : String
  pub weight : ℤ

-- func BackendEntriesFromConfig
unfoldable pub backend_entries_from_config : List Backend → List BackendWeight
backend_entries_from_config [] = []
backend_entries_from_config (b ∷ bs) =
    record { url = b.host; weight = b.weight } ∷ backend_entries_from_config bs

-- The call of onReload, before the later ones: none after a failed reload.
unfoldable pub notify : Option ReloadError → Snapshot → List Config → List Config
notify none s later = s ∷ later
notify (some e) s later = later

module _ (scheme : String → Option String) (unresolved : String → Bool) (getenv : String → String)
    (atoi : String → Option ℤ) (hostname : Option String) where
  -- what Reload makes of a loaded configuration, below its overrides
  unfoldable pub accept : Config → Option ConfigError → Snapshot → Snapshot × Option ReloadError
  accept cfg (some e) s = (s, some (not_valid e))
  accept cfg none s = (defaults hostname cfg, none)

  -- func (s *Snapshot) Reload
  unfoldable pub reload : Option Config → Snapshot → Snapshot × Option ReloadError
  unfolding accept
  reload none s = (s, some not_loaded)
  reload (some cfg) s =
      let cfg' = apply_env_overrides getenv atoi cfg in
      accept cfg' (validate scheme unresolved cfg') s

  -- the check of a loaded configuration in startCommand, below its overrides
  unfoldable pub checked : Config → Option ConfigError → Option Snapshot
  checked cfg (some e) = none
  checked cfg none = some (defaults hostname cfg)

  -- the first part of startCommand (cli/main.go): none where it exits with an error
  unfoldable pub start_config : Option Config → Option Snapshot
  unfolding checked
  start_config none = none
  start_config (some cfg) =
      let cfg' = apply_env_overrides getenv atoi cfg in
      checked cfg' (validate scheme unresolved cfg')

  -- the loop of StartWatcherHook: a signal or a tick for each file; the configurations that onReload
  -- is called with
  unfoldable pub watch : List (Option Config) → Snapshot → Snapshot × List Config
  unfolding reload notify
  watch [] s = (s, [])
  watch (file ∷ files) s =
      let after = reload file s in
      let rest = watch files after.0 in (rest.0, notify after.1 after.0 rest.1)

  -- func (s *Snapshot) Watch, and StartWatcher: the same loop without a callback
  unfoldable pub watch_only : List (Option Config) → Snapshot → Snapshot
  unfolding reload
  watch_only [] s = s
  watch_only (file ∷ files) s = watch_only files (reload file s).0
