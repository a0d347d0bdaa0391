-- ===== src/Cli/Starts.antt =====
-- cli/main.go: that start, check and a reload agree on a configuration file.
use haribon.Prelude.{◌≡◌, ◌⊎◌, String, Bool, true, Option, ℤ}
use haribon.Config.{Config}
use haribon.Config.Snapshot.{Snapshot, start_config, reload}
use haribon.Config.Snapshot.Ready.{IsReady}
use haribon.Discovery.{Lookup, Provider}
use haribon.System.{System}
use haribon.System.Current.{RoutesCurrent}
use haribon.Cli.Commands.{
  Ending, printed, exits, serves, listed_backends, start_command, check_command, validate_command,
}

module _ (scheme : String → Option String) (unresolved : String → Bool) (getenv : String → String)
    (atoi : String → Option ℤ) (hostname : Option String) (exists passes : String → Bool)
    (schema_path file_hash : String) (first : Provider → Lookup) where
  abbrev pub starting : Option Config → Ending
  starting file = start_command scheme unresolved getenv atoi hostname true file_hash first file

  abbrev pub checking : Option Config → Ending
  checking file = check_command scheme unresolved getenv atoi hostname file

  abbrev pub validating : Option Config → Ending
  validating file =
      validate_command scheme unresolved getenv atoi hostname exists passes schema_path file

  abbrev pub reloading : Option Config → Snapshot → Snapshot
  reloading file old = (reload scheme unresolved getenv atoi hostname file old).0

  -- Either the file is good for start, check and a reload, or for none of the commands.
  abbrev pub Agree : Option Config → Snapshot → Type 0
  Agree file old =
      ((s : System) × (starting file ≡ serves s)
        × (checking file ≡ printed (listed_backends s.snapshot.backends))
        × (reloading file old ≡ s.snapshot)
        × IsReady scheme unresolved getenv atoi hostname s.snapshot
        × RoutesCurrent s)
      ⊎ ((starting file ≡ exits 1)
          × (checking file ≡ exits 1)
          × (validating file ≡ exits 1)
          × (reloading file old ≡ old))

  abbrev loading : Option Config → Option Snapshot
  loading file = start_config scheme unresolved getenv atoi hostname file
