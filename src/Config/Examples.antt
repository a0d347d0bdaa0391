-- ===== src/Config/Examples.antt =====
-- Validate at one configuration.
use haribon.Prelude.{
  ◌≡◌, refl, String, Bool, true, false, Option, none, some, [], ◌∷◌, pos, ℤ, List, str_eq, ◌&&◌,
}
use haribon.Config.{Config, zero_config, zero_cluster, validate}
use haribon.Config.Defaults.{apply_env_overrides, defaults}
use haribon.Config.Defaults.Complete.{IsComplete, is_named, defaults-defaults}
use haribon.Prelude.{ℕ, ◌==◌}
use haribon.Prelude.Lines.{chars, lacks-Without}
use haribon.Config.Load.{starts_name, in_name, expand_env}
use haribon.Config.Load.Expand.{Piece, literal, variable, expand_env-text_of}
use haribon.Config.Snapshot.{watch, start_config}
use haribon.Config.Snapshot.Ready.{IsReady, AllReady, start_config-watch}

abbrev scheme : String → Option String
scheme s = some "http"

abbrev unresolved : String → Bool
unresolved s = false

abbrev config : Config
config = record zero_config {
  main_port = pos 8080;
  exporters = "stdout" ∷ [];
  backends = record { host = "http://a:80"; weight = pos 2 } ∷ [];
  breaker = record { failure_threshold = pos 0; cooldown_sec = pos 10 };
  cluster = record zero_cluster { enabled = true };
}

config_is_accepted : validate scheme unresolved config ≡ none
unfolding validate
config_is_accepted = refl

defaults-defaults_example :
    IsComplete (defaults (some "lb") zero_config)
    × ((is_named (some "lb")
          && ((defaults (some "lb") zero_config).cluster.enabled
              && str_eq (defaults (some "lb") zero_config).cluster.node_id ""))
        ≡ false)
    × (defaults (some "lb") (defaults (some "lb") zero_config) ≡ defaults (some "lb") zero_config)
defaults-defaults_example = defaults-defaults (some "lb") zero_config

abbrev getenv : String → String
getenv s = ""

abbrev atoi : String → Option ℤ
atoi s = none

-- The file is broken, then valid, then without backends.
abbrev files : List (Option Config)
files = none ∷ some config ∷ some zero_config ∷ []

it_starts :
    start_config scheme unresolved getenv atoi none (some config) ≡ some (defaults none config)
unfolding start_config validate apply_env_overrides
it_starts = refl

start_config-watch_example :
    IsReady scheme unresolved getenv atoi none
      (watch scheme unresolved getenv atoi none files (defaults none config)).0
    × AllReady scheme unresolved getenv atoi none
        (watch scheme unresolved getenv atoi none files (defaults none config)).1
start_config-watch_example =
    start_config-watch scheme unresolved getenv atoi none (some config) files (defaults none config)
      it_starts

abbrev node_id : List Piece
node_id =
    literal (chars "node_id: ")
    ∷ variable (chars "HOST_1")
    ∷ literal (chars "#")
    ∷ variable (chars "X")
    ∷ []

abbrev lookup_env : List ℕ → Option (List ℕ)
lookup_env [] = none
lookup_env (c ∷ cs) = elim (c == b'X') [ true ↦ none | false ↦ some (chars "${X}") ]

expand_env-text_of_example :
    expand_env lookup_env (chars "node_id: ${HOST_1}#${X}") ≡ chars "node_id: ${X}#${X}"
unfolding starts_name in_name
expand_env-text_of_example = expand_env-text_of lookup_env node_id (
  lacks-Without b'$' (chars "node_id: ") refl,
  (
    (refl, (refl, (refl, (refl, (refl, (refl, tt)))))),
    (lacks-Without b'$' (chars "#") refl, ((refl, tt), tt)),
  ),
)
