-- ===== src/Config.antt =====
-- internal/config/config.go: the types and Validate. `scheme` stands for url.Parse of net/url, with the scheme of
-- what it parses and none for its error; `unresolved` for strings.Contains(_, "${").
pub mod Accepted
pub mod Defaults
pub mod Load
pub mod Snapshot
pub mod Schema
mod Examples
use haribon.Prelude.Dict.{Dict}
use haribon.Prelude.{
  ℕ, suc, String, Bool, true, false, not, ◌&&◌, ◌||◌, Option, none, some, List, [], ◌∷◌, contains,
  str_eq, ℤ, pos, ltb_ℤ, if◌then◌else◌,
}

-- type Backend struct
pub record Backend : Type 0 where
  pub host : String
  pub weight : ℤ

-- type BalancerConfig struct
pub record BalancerConfig : Type 0 where
  pub strategy : String

-- type HealthConfig struct
pub record HealthConfig : Type 0 where
  pub enabled : Bool
  pub interval_sec : ℤ
  pub timeout_sec : ℤ
  pub path : String
  pub healthy_threshold : ℤ
  pub unhealthy_threshold : ℤ

-- type RetryConfig struct
pub record RetryConfig : Type 0 where
  pub max_retries : ℤ

-- type BreakerConfig struct
pub record BreakerConfig : Type 0 where
  pub failure_threshold : ℤ
  pub cooldown_sec : ℤ

-- type AdminConfig struct
pub record AdminConfig : Type 0 where
  pub enabled : Bool
  pub addr : String
  pub token : String

-- type DiscoveryConfig struct
pub record DiscoveryConfig : Type 0 where
  pub provider : String
  pub dns_name : String
  pub dns_port : ℤ
  pub file_path : String
  pub refresh_sec : ℤ

-- type ClusterConfig struct
pub record ClusterConfig : Type 0 where
  pub enabled : Bool
  pub node_id : String
  pub peers : List String
  pub gossip_sec : ℤ
  pub gossip_addr : String

-- type LokiConfig struct; a nil map of labels is an empty one
pub record LokiConfig : Type 0 where
  pub url : String
  pub labels : Dict String

-- type ElasticsearchConfig struct
pub record ElasticsearchConfig : Type 0 where
  pub url : String
  pub index : String

-- type FluentbitConfig struct
pub record FluentbitConfig : Type 0 where
  pub addr : String

-- type Config struct
pub record Config : Type 0 where
  pub main_host : String
  pub main_port : ℤ
  pub logging : Bool
  pub log_path : String
  pub log_format : String
  pub exporters : List String
  pub loki : LokiConfig
  pub elasticsearch : ElasticsearchConfig
  pub fluentbit : FluentbitConfig
  pub admin : AdminConfig
  pub shutdown_timeout_sec : ℤ
  pub backends : List Backend
  pub balancer : BalancerConfig
  pub health : HealthConfig
  pub retry : RetryConfig
  pub breaker : BreakerConfig
  pub discovery : DiscoveryConfig
  pub cluster : ClusterConfig

-- The zero value of ClusterConfig.
abbrev pub zero_cluster : ClusterConfig
zero_cluster = record {
  enabled = false;
  node_id = "";
  peers = [];
  gossip_sec = pos 0;
  gossip_addr = "";
}

-- The zero value of Config, which Load starts from.
abbrev pub zero_config : Config
zero_config = record {
  main_host = "";
  main_port = pos 0;
  logging = false;
  log_path = "";
  log_format = "";
  exporters = [];
  loki = record { url = ""; labels = [] };
  elasticsearch = record { url = ""; index = "" };
  fluentbit = record { addr = "" };
  admin = record { enabled = false; addr = ""; token = "" };
  shutdown_timeout_sec = pos 0;
  backends = [];
  balancer = record { strategy = "" };
  health = record {
    enabled = false;
    interval_sec = pos 0;
    timeout_sec = pos 0;
    path = "";
    healthy_threshold = pos 0;
    unhealthy_threshold = pos 0;
  };
  retry = record { max_retries = pos 0 };
  breaker = record { failure_threshold = pos 0; cooldown_sec = pos 0 };
  discovery = record {
    provider = "";
    dns_name = "";
    dns_port = pos 0;
    file_path = "";
    refresh_sec = pos 0;
  };
  cluster = zero_cluster;
}

-- The errors; those of a backend carry its index.
pub data ConfigError : Type 0 where
  no_backends dns_without_name invalid_dns_port file_without_path negative_refresh : ConfigError
  invalid_port unresolved_node_id negative_gossip : ConfigError
  empty_backend_url url_parse bad_scheme invalid_weight : ℕ → ConfigError
  unknown_provider unknown_strategy invalid_log_format invalid_log_exporter : String → ConfigError

-- `if b { return e }`, and what follows
abbrev pub fail_if : Bool → ConfigError → Option ConfigError → Option ConfigError
fail_if true e rest = some e
fail_if false e rest = rest

-- port != 0 && (port < 1 || port > 65535)
abbrev pub bad_port : ℤ → Bool
bad_port p = (ltb_ℤ p (pos 0) || ltb_ℤ (pos 0) p) && (ltb_ℤ p (pos 1) || ltb_ℤ (pos 65535) p)

abbrev pub valid_exporters : List String
valid_exporters = "stdout" ∷ "file" ∷ "loki" ∷ "fluentbit" ∷ "elasticsearch" ∷ []

abbrev pub valid_strategies : List String
valid_strategies =
    "round_robin" ∷ "weighted_round_robin" ∷ "least_connections" ∷ "random" ∷ "ip_hash" ∷ []

abbrev pub valid_providers : List String
valid_providers = "static" ∷ "dns" ∷ "file" ∷ []

-- the loop over the exporters, and what follows
unfoldable pub check_exporters : List String → Option ConfigError → Option ConfigError
check_exporters [] rest = rest
check_exporters (ex ∷ exs) rest =
    fail_if (not (contains valid_exporters ex)) (invalid_log_exporter ex) (check_exporters exs rest)

-- the checks on the discovery section, and what follows
unfoldable pub check_discovery : Config → Option ConfigError → Option ConfigError
check_discovery cfg rest =
    if str_eq cfg.discovery.provider ""
    then rest
    else fail_if (not (contains valid_providers cfg.discovery.provider))
        (unknown_provider cfg.discovery.provider)
        (fail_if (str_eq cfg.discovery.provider "dns" && str_eq cfg.discovery.dns_name "")
          dns_without_name
          (fail_if (str_eq cfg.discovery.provider "dns" && bad_port cfg.discovery.dns_port)
            invalid_dns_port
            (fail_if (str_eq cfg.discovery.provider "file" && str_eq cfg.discovery.file_path "")
              file_without_path
              (fail_if
                (not (str_eq cfg.discovery.provider "static")
                  && ltb_ℤ cfg.discovery.refresh_sec (pos 0))
                negative_refresh rest))))

module _ (scheme : String → Option String) (unresolved : String → Bool) where
  -- url.Parse and the check of the scheme, and what follows
  unfoldable pub check_url : ℕ → Option String → Option ConfigError → Option ConfigError
  check_url i none rest = some (url_parse i)
  check_url i (some s) rest =
      fail_if (not (str_eq s "http") && not (str_eq s "https")) (bad_scheme i) rest

  -- the loop over the backends, and what follows
  unfoldable pub check_backends : ℕ → List Backend → Option ConfigError → Option ConfigError
  unfolding check_url
  check_backends i [] rest = rest
  check_backends i (b ∷ bs) rest = fail_if (str_eq b.host "") (empty_backend_url i) (
      check_url i (scheme b.host)
        (fail_if (ltb_ℤ b.weight (pos 0)) (invalid_weight i) (check_backends (suc i) bs rest)))

  -- func Validate
  unfoldable pub validate : Config → Option ConfigError
  unfolding check_backends check_discovery check_exporters
  validate cfg =
      fail_if
        ((elim cfg.backends [ [] ↦ true | b ∷ bs ↦ false ]) && str_eq cfg.discovery.provider "")
        no_backends
        (check_backends 0 cfg.backends (
          check_discovery cfg (
            fail_if (bad_port cfg.main_port) invalid_port (
              fail_if
                (not (str_eq cfg.balancer.strategy "")
                  && not (contains valid_strategies cfg.balancer.strategy))
                (unknown_strategy cfg.balancer.strategy)
                (fail_if
                  (not (str_eq cfg.log_format "")
                    && (not (str_eq cfg.log_format "json") && not (str_eq cfg.log_format "text")))
                  (invalid_log_format cfg.log_format)
                  (check_exporters cfg.exporters (
                    fail_if (cfg.cluster.enabled && unresolved cfg.cluster.node_id)
                      unresolved_node_id
                      (fail_if (cfg.cluster.enabled && ltb_ℤ cfg.cluster.gossip_sec (pos 0))
                        negative_gossip none))))))))
