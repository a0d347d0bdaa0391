-- ===== src/Config/Defaults/Complete.antt =====
-- What Defaults makes sure of.
use haribon.Prelude.{
  ◌≡◌, ◌≢◌, Option-cases, refl, String, Bool, true, false, not, ◌&&◌, ◌||◌, Option, none, some,
  List, [], ◌∷◌, str_eq, ℤ, pos, leb_ℤ, arith, if◌then◌else◌, Bool-cases, inl, inr,
}
use haribon.Prelude.Dict.{Dict, get, put, get-put}
use haribon.Config.{Config, DiscoveryConfig, ClusterConfig}
use haribon.Config.Defaults.{
  or_text, or_positive, default_health, default_breaker, default_log_format, default_discovery,
  default_cluster, default_loki, default_labels, default_exporters, defaults,
}
use haribon.Config.Defaults.Twice.{
  or_text_twice, or_positive_twice, default_log_format_twice, log_path_twice, default_cluster_twice,
  default_discovery_twice, default_exporters_twice, default_loki_twice, default_health_twice,
  default_breaker_twice,
}

abbrev pub IsPositive : ℤ → Type 0
IsPositive n = leb_ℤ n (pos 0) ≡ false

or_positive-IsPositive : (d n : ℤ) → IsPositive d → IsPositive (or_positive d n)
unfolding or_positive
or_positive-IsPositive d n h = ground arith

or_text-full : (d s : String) → str_eq d "" ≡ false → str_eq (or_text d s) "" ≡ false
unfolding or_text
or_text-full d s h = ground arith

-- Every setting that Defaults looks after has a value, the node's name aside: no number that a
-- component waits for or counts to is below one, and no text that it needs is empty.
pub record IsComplete (cfg : Config) : Type 0 where
  pub strategy_set : str_eq cfg.balancer.strategy "" ≡ false
  pub interval : IsPositive cfg.health.interval_sec
  pub timeout : IsPositive cfg.health.timeout_sec
  pub path_set : str_eq cfg.health.path "" ≡ false
  pub healthy : IsPositive cfg.health.healthy_threshold
  pub unhealthy : IsPositive cfg.health.unhealthy_threshold
  pub retries : IsPositive cfg.retry.max_retries
  pub failures : IsPositive cfg.breaker.failure_threshold
  pub cooldown : IsPositive cfg.breaker.cooldown_sec
  pub refresh : IsPositive cfg.discovery.refresh_sec
  pub shutdown : IsPositive cfg.shutdown_timeout_sec
  pub dns_port :
      (str_eq cfg.discovery.provider "dns" && leb_ℤ cfg.discovery.dns_port (pos 0)) ≡ false
  pub gossip : (cfg.cluster.enabled && leb_ℤ cfg.cluster.gossip_sec (pos 0)) ≡ false
  pub gossip_addr_set : (cfg.cluster.enabled && str_eq cfg.cluster.gossip_addr "") ≡ false
  pub log_path_set : (cfg.logging && str_eq cfg.log_path "") ≡ false
  pub admin_addr_set : str_eq cfg.admin.addr "" ≡ false
  pub loki_url_set : str_eq cfg.loki.url "" ≡ false
  pub loki_job : (job : String) × (get cfg.loki.labels "job" ≡ some job)
  pub elasticsearch_url_set : str_eq cfg.elasticsearch.url "" ≡ false
  pub index_set : str_eq cfg.elasticsearch.index "" ≡ false
  pub fluentbit_addr_set : str_eq cfg.fluentbit.addr "" ≡ false
  pub some_exporter : cfg.exporters ≢ []
  pub format : (str_eq cfg.log_format "json" || str_eq cfg.log_format "text") ≡ true

default_log_format-known :
    (s : String)
    → (str_eq (default_log_format s) "json" || str_eq (default_log_format s) "text") ≡ true
unfolding default_log_format
default_log_format-known s =
    let f : String = or_text "json" s in
    elim (Bool-cases (not (str_eq f "json") && not (str_eq f "text"))) [
      | inl other ↦ rw other refl
      | inr known ↦ rw known (ground arith)
    ]

dns_port-set :
    (d : DiscoveryConfig)
    → (str_eq d.provider "dns" && leb_ℤ (default_discovery d).dns_port (pos 0)) ≡ false
unfolding default_discovery or_positive
dns_port-set d = ground arith

gossip_sec-set :
    (hostname : Option String) (c : ClusterConfig)
    → ((default_cluster hostname c).enabled
        && leb_ℤ (default_cluster hostname c).gossip_sec (pos 0))
      ≡ false
unfolding default_cluster or_positive
gossip_sec-set hostname c = ground arith

gossip_addr-set :
    (hostname : Option String) (c : ClusterConfig)
    → ((default_cluster hostname c).enabled && str_eq (default_cluster hostname c).gossip_addr "")
      ≡ false
unfolding default_cluster or_text
gossip_addr-set hostname c = elim (Bool-cases c.enabled) [
  | inl on ↦ rw (on, default_cluster) (or_text-full "0.0.0.0:7946" c.gossip_addr refl)
  | inr off ↦ rw (off, default_cluster) refl
]

log_path-set :
    (logging : Bool) (p : String)
    → (logging && str_eq (if logging then or_text "./haribon.log" p else p) "") ≡ false
log_path-set true p = or_text-full "./haribon.log" p refl
log_path-set false p = refl

-- The host's own name can be had.
abbrev pub is_named : Option String → Bool
is_named none = false
is_named (some h) = not (str_eq h "")

node_id-set :
    (hostname : Option String) (c : ClusterConfig)
    → (is_named hostname
        && ((default_cluster hostname c).enabled && str_eq (default_cluster hostname c).node_id ""))
      ≡ false
unfolding default_cluster or_text
node_id-set none c = refl
node_id-set (some h) c = ground arith

default_labels-job :
    (labels : Dict String) → (job : String) × (get (default_labels labels) "job" ≡ some job)
unfolding default_labels
default_labels-job labels = elim (Option-cases (get labels "job")) [
  | inl missing ↦
      let added : get (put labels "job" "haribon") "job" ≡ some "haribon" =
        get-put labels "job" "haribon" "job" in
      ("haribon", rw (missing, default_labels) added)
  | inr (v, found) ↦ (v, rw (found, default_labels) found)
]

default_exporters-some : (xs : List String) → default_exporters xs ≢ []
unfolding default_exporters
default_exporters-some [] = λ e. absurd cc
default_exporters-some (x ∷ xs) = λ e. absurd cc

pub defaults-IsComplete :
    (hostname : Option String) (cfg : Config) → IsComplete (defaults hostname cfg)
unfolding defaults default_health default_breaker default_discovery default_loki
defaults-IsComplete hostname cfg = record {
  strategy_set = or_text-full "round_robin" cfg.balancer.strategy refl;
  interval = or_positive-IsPositive (pos 10) cfg.health.interval_sec refl;
  timeout = or_positive-IsPositive (pos 2) cfg.health.timeout_sec refl;
  path_set = or_text-full "/" cfg.health.path refl;
  healthy = or_positive-IsPositive (pos 1) cfg.health.healthy_threshold refl;
  unhealthy = or_positive-IsPositive (pos 2) cfg.health.unhealthy_threshold refl;
  retries = or_positive-IsPositive (pos 1) cfg.retry.max_retries refl;
  failures = or_positive-IsPositive (pos 5) cfg.breaker.failure_threshold refl;
  cooldown = or_positive-IsPositive (pos 30) cfg.breaker.cooldown_sec refl;
  refresh = or_positive-IsPositive (pos 30) cfg.discovery.refresh_sec refl;
  shutdown = or_positive-IsPositive (pos 15) cfg.shutdown_timeout_sec refl;
  dns_port = dns_port-set cfg.discovery;
  gossip = gossip_sec-set hostname cfg.cluster;
  gossip_addr_set = gossip_addr-set hostname cfg.cluster;
  log_path_set = log_path-set cfg.logging cfg.log_path;
  admin_addr_set = or_text-full "127.0.0.1:4445" cfg.admin.addr refl;
  loki_url_set = or_text-full "http://localhost:3100" cfg.loki.url refl;
  loki_job = default_labels-job cfg.loki.labels;
  elasticsearch_url_set = or_text-full "http://localhost:9200" cfg.elasticsearch.url refl;
  index_set = or_text-full "haribon" cfg.elasticsearch.index refl;
  fluentbit_addr_set = or_text-full "localhost:24224" cfg.fluentbit.addr refl;
  some_exporter = default_exporters-some cfg.exporters;
  format = default_log_format-known cfg.log_format;
}

-- After Defaults no number that it looks after is below one, no text that it looks after is empty,
-- some exporter is named, Loki's labels name a job and the log format is json or text: the DNS port
-- where the provider is dns, the gossip settings where the cluster is on, the log's path where logging
-- is on, and the node's name where the cluster is on and the host's name can be had. And it changes
-- nothing where it has been applied.
pub defaults-defaults :
    (hostname : Option String) (cfg : Config)
    → IsComplete (defaults hostname cfg)
      × ((is_named hostname
            && ((defaults hostname cfg).cluster.enabled
                && str_eq (defaults hostname cfg).cluster.node_id ""))
          ≡ false)
      × (defaults hostname (defaults hostname cfg) ≡ defaults hostname cfg)
unfolding defaults
defaults-defaults hostname cfg = (
  defaults-IsComplete hostname cfg,
  node_id-set hostname cfg.cluster,
  cc (
    or_text_twice "round_robin" cfg.balancer.strategy refl,
    default_health_twice cfg.health,
    or_positive_twice (pos 1) cfg.retry.max_retries refl,
    default_breaker_twice cfg.breaker,
    default_log_format_twice cfg.log_format,
    default_discovery_twice cfg.discovery,
    default_cluster_twice hostname cfg.cluster,
    log_path_twice cfg.logging cfg.log_path,
    or_text_twice "127.0.0.1:4445" cfg.admin.addr refl,
    or_positive_twice (pos 15) cfg.shutdown_timeout_sec refl,
    default_loki_twice cfg.loki,
    or_text_twice "http://localhost:9200" cfg.elasticsearch.url refl,
    or_text_twice "haribon" cfg.elasticsearch.index refl,
    or_text_twice "localhost:24224" cfg.fluentbit.addr refl,
    default_exporters_twice cfg.exporters,
  ),
)
