-- ===== src/Cli/Commands.antt =====
-- cli/main.go: the commands, by the code that the process exits with. What Load makes of the file,
-- whether the gossip listener starts, and the schema's verdict are inputs; flags, signals, the HTTP
-- server and the shutdown are left out.
use haribon.Prelude.{
  ℕ, String, Bool, not, ◌&&◌, ◌||◌, Option, none, some, List, [], ◌∷◌, str_eq, ℤ, pos, leb_ℤ,
  if◌then◌else◌,
}
use haribon.Cluster.Defs.{Node, new_node}
use haribon.Config.{Backend, Config}
use haribon.Config.Schema.Keywords.{find_schema}
use haribon.Config.Snapshot.{start_config}
use haribon.Discovery.{Lookup, found, Provider, Creation, made, refused, new_provider}
use haribon.System.{System, started}

-- A command returns with what it prints, exits with a code, or serves.
pub data Ending : Type 0 where
  printed : List (String × ℤ) → Ending
  exits : ℕ → Ending
  serves : System → Ending

-- `if w <= 0 { w = 1 }`, in the lines that checkCommand prints
unfoldable pub listed_backends : List Backend → List (String × ℤ)
listed_backends [] = []
listed_backends (b ∷ bs) =
    (b.host, if leb_ℤ b.weight (pos 0) then pos 1 else b.weight) ∷ listed_backends bs

-- The node of startCommand, with the hash of the file; none without clustering.
unfoldable pub start_node : String → Config → Option Node
unfolding new_node
start_node file_hash cfg =
    if cfg.cluster.enabled
    then some
        (record (new_node cfg.cluster.node_id cfg.cluster.gossip_sec) { config_hash = file_hash })
    else none

-- The end of startCommand, after its provider. Where there is none, no lookup is made, which leaves
-- the pool as a lookup that finds nothing does.
unfoldable pub with_provider : Config → Option Node → (Provider → Lookup) → Option Creation → Ending
unfolding started
with_provider cfg member first none = serves (started cfg (found []) member)
with_provider cfg member first (some (made p)) = serves (started cfg (first p) member)
with_provider cfg member first (some (refused e)) = exits 1

-- The provider that startCommand makes.
unfoldable pub start_provider : Config → Option Creation
unfolding new_provider
start_provider cfg =
    if not (str_eq cfg.discovery.provider "") && not (str_eq cfg.discovery.provider "static")
    then some (new_provider cfg.discovery)
    else none

-- startCommand, after its checks of the configuration
unfoldable pub start_with : Bool → String → (Provider → Lookup) → Config → Ending
unfolding start_node with_provider start_provider
start_with listens file_hash first cfg =
    if cfg.cluster.enabled && not listens
    then exits 1
    else with_provider cfg (start_node file_hash cfg) first (start_provider cfg)

module _ (scheme : String → Option String) (unresolved : String → Bool) (getenv : String → String)
    (atoi : String → Option ℤ) (hostname : Option String) where
  -- func startCommand
  unfoldable pub start_command : Bool → String → (Provider → Lookup) → Option Config → Ending
  unfolding start_config start_with
  start_command listens file_hash first file =
      elim (start_config scheme unresolved getenv atoi hostname file) [
        | none ↦ exits 1
        | some cfg ↦ start_with listens file_hash first cfg
      ]

  -- func checkCommand
  unfoldable pub check_command : Option Config → Ending
  unfolding start_config listed_backends
  check_command file = elim (start_config scheme unresolved getenv atoi hostname file) [
    | none ↦ exits 1
    | some cfg ↦ printed (listed_backends cfg.backends)
  ]

  -- func validateCommand; `passes` says whether ValidateAgainstSchema returns nil for a schema's path
  unfoldable pub validate_command :
      (String → Bool) → (String → Bool) → String → Option Config → Ending
  unfolding start_config find_schema
  validate_command exists passes schema_path file =
      elim (start_config scheme unresolved getenv atoi hostname file) [
        | none ↦ exits 1
        | some cfg ↦
            let schema = find_schema exists schema_path in
            if str_eq schema "" then exits 1 else if passes schema then printed [] else exits 1
      ]

  -- func main: the first argument, if there is one, and the commands' endings
  unfoldable pub main_command : Ending → Ending → Ending → Option String → Ending
  main_command start check valid none = exits 1
  main_command start check valid (some command) =
      if str_eq command "start"
      then start
      else if str_eq command "check"
      then check
      else if str_eq command "validate"
      then valid
      else if str_eq command "version" || (str_eq command "--version" || str_eq command "-v")
      then printed []
      else if str_eq command "--help" || (str_eq command "-h" || str_eq command "help")
      then printed []
      else exits 1
