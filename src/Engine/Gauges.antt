-- ===== src/Engine/Gauges.antt =====
-- cli/engine.go, cli/main.go: the gauges and counters of the engine, the health scheduler, the
-- cluster node and the proxy's logger. The registry is there: its pointer is never nil in the program.
use haribon.Prelude.{
  ℕ, String, Bool, Option, none, some, List, [], ◌∷◌, ℤ, pos, leb_ℤ, ltb_ℤ, wrap_int64,
  if◌then◌else◌, ◌&&◌,
}
use haribon.Prelude.Dict.{Dict}
use haribon.Balancer.Types.{BackendEntry, ok, err, urls}
use haribon.Balancer.Factory.{new_balancer, reported_conns}
use haribon.Cluster.Defs.{Node, live_peer_count}
use haribon.Config.{Config}
use haribon.Health.Breaker.Defs.{State, state_closed, state_open, state_half_open}
use haribon.Metrics.{Metrics, gauge_set, counter_inc, counter_add, counter_set}
use haribon.Metrics.Names.{metric_name}
use haribon.Metrics.Render.{render}
use haribon.Engine.Defs.{Engine, Runtime, merge_entries}

-- the switch of breakerLog
unfoldable pub gauge_value : State → ℤ
gauge_value state_closed = pos 0
gauge_value state_open = pos 1
gauge_value state_half_open = pos 2

abbrev pub state_gauge : String → String
state_gauge backend = metric_name "haribon_breaker_state" "backend" backend

abbrev pub healthy_gauge : String → String
healthy_gauge backend = metric_name "haribon_backend_healthy" "backend" backend

-- func (r *runtime) breakerLog
unfoldable pub breaker_log : String → State → Metrics → Metrics
unfolding gauge_set gauge_value
breaker_log backend state m = gauge_set (state_gauge backend) (gauge_value state) m

-- func makeHealthLogger
unfoldable pub health_log : String → Bool → Metrics → Metrics
unfolding gauge_set
health_log backend healthy m =
    gauge_set (healthy_gauge backend) (if healthy then pos 1 else pos 0) m

-- the loop of rebuild that seeds the gauges
unfoldable pub seed_gauges : List String → Metrics → Metrics
unfolding gauge_set
seed_gauges [] m = m
seed_gauges (u ∷ us) m =
    seed_gauges us (gauge_set (state_gauge u) (pos 0) (gauge_set (healthy_gauge u) (pos 1) m))

-- what publish does to the registry
unfoldable pub publish_gauges : Config → List BackendEntry → Metrics → Metrics
unfolding new_balancer seed_gauges
publish_gauges cfg [] m = m
publish_gauges cfg (b ∷ bs) m = elim (new_balancer cfg.balancer.strategy (b ∷ bs)) [
  | err e ↦ m
  | ok bal ↦ seed_gauges (urls (b ∷ bs)) m
]

-- what rebuild does to the registry
unfoldable pub rebuild_gauges : Config → Runtime → Metrics → Metrics
unfolding merge_entries publish_gauges
rebuild_gauges cfg rt m = publish_gauges cfg (merge_entries cfg.backends rt.discovered) m

-- the loop of activeConnsHandler
unfoldable pub set_conns : Dict ℤ → Metrics → Metrics
unfolding gauge_set
set_conns [] m = m
set_conns ((url, n) ∷ conns) m =
    set_conns conns (gauge_set (metric_name "haribon_active_conns" "backend" url) n m)

-- func activeConnsHandler, before it renders
unfoldable pub refresh_conns : Option Engine → Metrics → Metrics
unfolding reported_conns set_conns
refresh_conns none m = m
refresh_conns (some e) m = elim (reported_conns e.bal) [ none ↦ m | some conns ↦ set_conns conns m ]

-- func activeConnsHandler: the registry after the scrape, and the text
unfoldable pub active_conns_handler : (ℤ → List ℕ) → Option Engine → Metrics → Metrics × List ℕ
unfolding refresh_conns render
active_conns_handler show e m = (refresh_conns e m, render show (refresh_conns e m))

-- a tick of StartClusterMetrics
unfoldable pub cluster_metrics : ℕ → Node → Metrics → Metrics
unfolding gauge_set counter_set live_peer_count
cluster_metrics now n m = counter_set "haribon_config_hash_mismatch_total" n.mismatches (
    gauge_set "haribon_cluster_term" (wrap_int64 (pos n.term))
      (gauge_set "haribon_cluster_peers" (pos (live_peer_count now n)) m))

-- the end of makeProxyLogger: the status, the duration and the retries of a request
unfoldable pub log_request : String → ℤ → ℤ → ℤ → Metrics → Metrics
unfolding counter_inc counter_add gauge_set
log_request backend status duration retries m =
    let counted =
      if leb_ℤ (pos 200) status && ltb_ℤ status (pos 300)
      then counter_inc (metric_name "haribon_requests_total" "backend" backend) m
      else m in
    let timed =
      gauge_set (metric_name "haribon_last_duration_ms" "backend" backend) duration counted in
    if ltb_ℤ (pos 0) retries
    then counter_add (metric_name "haribon_retries_total" "backend" backend) retries timed
    else timed
