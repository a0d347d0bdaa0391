-- ===== src/Cli.antt =====
-- cli/main.go: the process-wide state with the older handler over it, the choice of the log sinks, and
-- the answers of internal/health/handler.go. `opened` tells whether the log file can be opened.
pub mod Legacy
pub mod Commands
pub mod Log
pub mod Starts
mod Examples
use haribon.Prelude.{
  ℕ, zero, suc, ◌+◌, ◌^◌, String, Bool, true, false, not, ◌&&◌, ◌||◌, Option, none, some, List, [],
  ◌∷◌, ◌++◌, length, get_elem?, ltb, ◌==◌, if◌then◌else◌,
}
use haribon.Prelude.Dict.{Dict, get, put}
use haribon.Balancer.Types.{
  Pick, picked, err_no_healthy_backend, panic, add_uint64, ticket, slot_index,
}
use haribon.Config.{Config}
use haribon.Config.Defaults.{enabled_exporter, or_text}
use haribon.Engine.{is_healthy}
use haribon.Engine.Swappable.{Swappable, has_healthy_backend}
use haribon.Proxy.Attempts.{Exchange, not_built, failed, status}

-- backends, currentServer and backendHealth
pub record Process : Type 0 where
  pub pool : List String
  pub current_server : ℕ
  pub backend_health : Dict Bool

-- func setBackends
unfoldable pub set_backends : List String → Process → Process
set_backends urls p = record p { pool = urls }

-- func setHealth
unfoldable pub set_health_of : String → Bool → Process → Process
set_health_of b healthy p = record p { backend_health = put p.backend_health b healthy }

-- pool[(int(start)+i)%n]
unfoldable pub pool_at : List String → ℕ → ℕ → Option String
unfolding slot_index
pool_at pool start i = elim (slot_index start i (length pool)) [
  | none ↦ none
  | some k ↦ get_elem? pool k
]

-- the loop of getNextBackend
unfoldable pub pool_walk : Dict Bool → List String → ℕ → ℕ → ℕ → Pick
unfolding pool_at is_healthy
pool_walk health pool start zero i = err_no_healthy_backend
pool_walk health pool start (suc rounds) i = elim (pool_at pool start i) [
  | none ↦ panic
  | some b ↦ elim (is_healthy b health) [
    | true ↦ picked b
    | false ↦ pool_walk health pool start rounds (i + 1)
  ]
]

-- func getNextBackend; its two errors are one
unfoldable pub get_next_backend : Process → Pick × Process
unfolding pool_walk
get_next_backend p = elim p.pool [
  | [] ↦ (err_no_healthy_backend, p)
  | b ∷ bs ↦ (
    pool_walk p.backend_health p.pool (ticket p.current_server) (length p.pool) 0,
    record p { current_server = add_uint64 p.current_server },
  )
]

-- What the client of the older handler is told, and what a run-time panic leaves open.
pub data LegacyAnswer : Type 0 where
  forwarded : String → ℕ → LegacyAnswer
  all_failed crashed : LegacyAnswer

-- the loop of loadBalancer, with `left` passes of the pool's number left
unfoldable pub legacy_attempts :
    (ℕ → String → Exchange) → (left attempt : ℕ) → Process → LegacyAnswer × Process
unfolding get_next_backend set_health_of
legacy_attempts exchange zero attempt p = (all_failed, p)
legacy_attempts exchange (suc left) attempt p =
    let next = (get_next_backend p).1 in
    elim (get_next_backend p).0 [
      | err_no_healthy_backend ↦ (all_failed, next)
      | panic ↦ (crashed, next)
      | picked server ↦ elim (exchange attempt server) [
        | not_built ↦ legacy_attempts exchange left (suc attempt) next
        | failed ↦ legacy_attempts exchange left (suc attempt) (set_health_of server false next)
        | status code ↦ (forwarded server code, set_health_of server true next)
      ]
    ]

-- func loadBalancer
unfoldable pub load_balancer : (ℕ → String → Exchange) → Process → LegacyAnswer × Process
unfolding legacy_attempts
load_balancer exchange p = legacy_attempts exchange (length p.pool) 0 p

-- The sinks that setupLogging makes.
pub data Sink : Type 0 where
  to_file : (path format : String) → Sink
  to_loki : String → Dict String → Sink
  to_elasticsearch : (url index : String) → Sink
  to_fluentbit : String → Sink

-- The file, which the exporters list or the flag asks for.
unfoldable pub file_sink : (String → Bool) → Config → List Sink
unfolding enabled_exporter or_text
file_sink opened cfg =
    let path = or_text "./haribon.log" cfg.log_path in
    if (enabled_exporter cfg "file" || cfg.logging) && opened path
    then to_file path (or_text "json" cfg.log_format) ∷ []
    else []

-- func setupLogging
unfoldable pub setup_logging : (String → Bool) → Config → List Sink
unfolding file_sink enabled_exporter
setup_logging opened cfg =
    file_sink opened cfg
    ++ ((if enabled_exporter cfg "loki" then to_loki cfg.loki.url cfg.loki.labels ∷ [] else [])
        ++ ((if enabled_exporter cfg "elasticsearch"
              then to_elasticsearch cfg.elasticsearch.url cfg.elasticsearch.index ∷ []
              else [])
            ++ (if enabled_exporter cfg "fluentbit"
                then to_fluentbit cfg.fluentbit.addr ∷ []
                else [])))

-- type readyzResponse struct, with the status code
pub record Probe : Type 0 where
  pub code : ℕ
  pub status_text : String
  pub message : String

-- func Healthz
unfoldable pub healthz : Probe
healthz = record { code = 200; status_text = "ok"; message = "" }

-- func Readyz, with the current generation for its checker
unfoldable pub readyz : ℕ → Swappable → Probe × Swappable
unfolding has_healthy_backend healthz
readyz now s = (
  if (has_healthy_backend now s).0
      then record { code = 200; status_text = "ok"; message = "" }
      else record {
        code = 503;
        status_text = "unavailable";
        message = "no healthy backend available";
      },
  (has_healthy_backend now s).1,
)
