-- ===== src/Config/Defaults/Twice.antt =====
-- Each part of Defaults changes nothing where it has been applied.
use haribon.Prelude.{
  ◌≡◌, refl, ap, ap₂, String, Bool, true, false, Option, none, some, List, [], ◌∷◌, str_eq, ℤ, pos,
  leb_ℤ, arith, if◌then◌else◌,
}
use haribon.Prelude.Dict.{Dict, get, put, get-put}
use haribon.Config.{HealthConfig, BreakerConfig, DiscoveryConfig, ClusterConfig, LokiConfig}
use haribon.Config.Defaults.{
  or_text, or_positive, default_health, default_breaker, default_log_format, default_discovery,
  default_cluster, default_loki, default_labels, default_exporters,
}

pub or_text_twice : (d s : String) → str_eq d "" ≡ false → or_text d (or_text d s) ≡ or_text d s
unfolding or_text
or_text_twice d s h = ground arith

pub or_positive_twice :
    (d n : ℤ) → leb_ℤ d (pos 0) ≡ false → or_positive d (or_positive d n) ≡ or_positive d n
unfolding or_positive
or_positive_twice d n h = ground arith

pub default_log_format_twice :
    (s : String) → default_log_format (default_log_format s) ≡ default_log_format s
unfolding default_log_format or_text
default_log_format_twice s = ground arith

pub log_path_twice :
    (logging : Bool) (p : String)
    → (if logging
        then or_text "./haribon.log" (if logging then or_text "./haribon.log" p else p)
        else (if logging then or_text "./haribon.log" p else p))
      ≡ (if logging then or_text "./haribon.log" p else p)
log_path_twice true p = or_text_twice "./haribon.log" p refl
log_path_twice false p = refl

pub default_cluster_twice :
    (hostname : Option String) (c : ClusterConfig)
    → default_cluster hostname (default_cluster hostname c) ≡ default_cluster hostname c
unfolding default_cluster or_text or_positive
default_cluster_twice none c = ground arith
default_cluster_twice (some h) c = ground arith

pub default_discovery_twice :
    (d : DiscoveryConfig) → default_discovery (default_discovery d) ≡ default_discovery d
unfolding default_discovery or_positive
default_discovery_twice d = ground arith

pub default_exporters_twice :
    (xs : List String) → default_exporters (default_exporters xs) ≡ default_exporters xs
unfolding default_exporters
default_exporters_twice [] = refl
default_exporters_twice (x ∷ xs) = refl

pub default_labels_twice :
    (labels : Dict String) → default_labels (default_labels labels) ≡ default_labels labels
unfolding default_labels
default_labels_twice labels = go (get labels "job") refl
  where
    go :
        (o : Option String)
        → get labels "job" ≡ o
        → default_labels (default_labels labels) ≡ default_labels labels
    go none e =
        let made : default_labels labels ≡ put labels "job" "haribon" = rw (e, default_labels) in
        rw made (rw (get-put labels "job" "haribon" "job", default_labels))
    go (some v) e =
        let kept : default_labels labels ≡ labels = rw (e, default_labels) in ap default_labels kept

pub default_loki_twice : (l : LokiConfig) → default_loki (default_loki l) ≡ default_loki l
unfolding default_loki
default_loki_twice l =
    ap₂ (λ u m. record { url = u; labels = m }) (or_text_twice "http://localhost:3100" l.url refl)
      (default_labels_twice l.labels)

pub default_health_twice : (h : HealthConfig) → default_health (default_health h) ≡ default_health h
unfolding default_health or_text or_positive
default_health_twice h = ground arith

pub default_breaker_twice :
    (b : BreakerConfig) → default_breaker (default_breaker b) ≡ default_breaker b
unfolding default_breaker or_positive
default_breaker_twice b = ground arith
