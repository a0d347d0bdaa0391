-- ===== src/Config/Defaults.antt =====
-- internal/config/config.go: Defaults, ApplyEnvOverrides, ResolveConfigPath and EnabledExporter.
-- `getenv`, `atoi` and `hostname` stand for os.Getenv, strconv.Atoi and os.Hostname, the last two
-- with none for an error.
pub mod Complete
pub mod Twice
use haribon.Prelude.{
  ℕ, suc, String, Bool, true, false, not, ◌&&◌, ◌||◌, Option, none, some, List, [], ◌∷◌, contains,
  str_eq, ℤ, pos, leb_ℤ, if◌then◌else◌,
}
use haribon.Prelude.Dict.{Dict, get, put}
use haribon.Config.{
  Config, HealthConfig, RetryConfig, BreakerConfig, AdminConfig, DiscoveryConfig, ClusterConfig,
  LokiConfig, ElasticsearchConfig, FluentbitConfig, BalancerConfig,
}

-- `if s == "" { s = d }`
unfoldable pub or_text : String → String → String
or_text d s = if str_eq s "" then d else s

-- `if n <= 0 { n = d }`
unfoldable pub or_positive : ℤ → ℤ → ℤ
or_positive d n = if leb_ℤ n (pos 0) then d else n

unfoldable pub default_health : HealthConfig → HealthConfig
unfolding or_text or_positive
default_health h = record h {
  interval_sec = or_positive (pos 10) h.interval_sec;
  timeout_sec = or_positive (pos 2) h.timeout_sec;
  path = or_text "/" h.path;
  healthy_threshold = or_positive (pos 1) h.healthy_threshold;
  unhealthy_threshold = or_positive (pos 2) h.unhealthy_threshold;
}

unfoldable pub default_breaker : BreakerConfig → BreakerConfig
unfolding or_positive
default_breaker b = record b {
  failure_threshold = or_positive (pos 5) b.failure_threshold;
  cooldown_sec = or_positive (pos 30) b.cooldown_sec;
}

-- The two checks of the log format.
unfoldable pub default_log_format : String → String
unfolding or_text
default_log_format s =
    let f = or_text "json" s in if not (str_eq f "json") && not (str_eq f "text") then "json" else f

unfoldable pub default_discovery : DiscoveryConfig → DiscoveryConfig
unfolding or_positive
default_discovery d = record d {
  refresh_sec = or_positive (pos 30) d.refresh_sec;
  dns_port = if str_eq d.provider "dns" then or_positive (pos 80) d.dns_port else d.dns_port;
}

unfoldable pub default_cluster : Option String → ClusterConfig → ClusterConfig
unfolding or_text or_positive
default_cluster hostname c =
    if c.enabled
    then record c {
      gossip_sec = or_positive (pos 5) c.gossip_sec;
      gossip_addr = or_text "0.0.0.0:7946" c.gossip_addr;
      node_id = elim hostname [ none ↦ c.node_id | some h ↦ or_text h c.node_id ];
    }
    else c

unfoldable pub default_labels : Dict String → Dict String
default_labels labels = elim (get labels "job") [
  | none ↦ put labels "job" "haribon"
  | some v ↦ labels
]

unfoldable pub default_loki : LokiConfig → LokiConfig
unfolding or_text default_labels
default_loki l = record {
  url = or_text "http://localhost:3100" l.url;
  labels = default_labels l.labels;
}

unfoldable pub default_exporters : List String → List String
default_exporters [] = "stdout" ∷ []
default_exporters (x ∷ xs) = x ∷ xs

-- func Defaults
unfoldable pub defaults : Option String → Config → Config
unfolding default_health default_breaker default_log_format default_discovery default_cluster
    default_loki default_exporters or_text or_positive
defaults hostname cfg = record cfg {
  balancer = record { strategy = or_text "round_robin" cfg.balancer.strategy };
  health = default_health cfg.health;
  retry = record { max_retries = or_positive (pos 1) cfg.retry.max_retries };
  breaker = default_breaker cfg.breaker;
  log_format = default_log_format cfg.log_format;
  discovery = default_discovery cfg.discovery;
  cluster = default_cluster hostname cfg.cluster;
  log_path = if cfg.logging then or_text "./haribon.log" cfg.log_path else cfg.log_path;
  admin = record cfg.admin { addr = or_text "127.0.0.1:4445" cfg.admin.addr };
  shutdown_timeout_sec = or_positive (pos 15) cfg.shutdown_timeout_sec;
  loki = default_loki cfg.loki;
  elasticsearch = record {
    url = or_text "http://localhost:9200" cfg.elasticsearch.url;
    index = or_text "haribon" cfg.elasticsearch.index;
  };
  fluentbit = record { addr = or_text "localhost:24224" cfg.fluentbit.addr };
  exporters = default_exporters cfg.exporters;
}

-- func ApplyEnvOverrides
unfoldable pub apply_env_overrides : (String → String) → (String → Option ℤ) → Config → Config
apply_env_overrides getenv atoi cfg =
    let host = getenv "HARIBON_HOST" in
    let port = getenv "HARIBON_PORT" in
    record cfg {
      main_host = if str_eq host "" then cfg.main_host else host;
      main_port =
          if str_eq port ""
          then cfg.main_port
          else (elim (atoi port) [ none ↦ cfg.main_port | some p ↦ p ]);
    }

-- func ResolveConfigPath
unfoldable pub resolve_config_path : (String → String) → String → String
resolve_config_path getenv cli =
    if not (str_eq cli "")
    then cli
    else if not (str_eq (getenv "HARIBON_CONFIG") "")
    then getenv "HARIBON_CONFIG"
    else "./haribon-config.yml"

-- func (c Config) EnabledExporter
unfoldable pub enabled_exporter : Config → String → Bool
enabled_exporter c name = contains c.exporters name
