-- ===== src/Engine/Seeded.antt =====
-- What the gauges of the breakers read after a rebuild.
use haribon.Prelude.{
  ◌≡◌, refl, ap, ◌∙◌, String, true, some, List, [], ◌∷◌, pos, contains, str_eq, if◌then◌else◌,
  arith,
}
use haribon.Prelude.Dict.{get, IsMap}
use haribon.Balancer.Types.{BackendEntry, ok, urls}
use haribon.Balancer.Factory.{Balancer, new_balancer}
use haribon.Config.{Config}
use haribon.Health.Breaker.Defs.{Breaker, breaker_state, new_breaker}
use haribon.Metrics.{Metrics, load, gauge_set}
use haribon.Metrics.Names.{metric_name-eq, healthy_is_not_state}
use haribon.Metrics.Totals.{load-gauge_set}
use haribon.Engine.Defs.{Engine, Runtime, merge_entries, publish, rebuild, next_engine}
use haribon.Engine.Rebuild.{next_engine-breaker}
use haribon.Engine.Gauges.{state_gauge, healthy_gauge, seed_gauges, publish_gauges, rebuild_gauges}

load-seed_gauges :
    (us : List String) (u : String) (m : Metrics)
    → load (seed_gauges us m).gauges (state_gauge u)
      ≡ (if contains us u then pos 0 else load m.gauges (state_gauge u))
unfolding seed_gauges
load-seed_gauges [] u m = refl
load-seed_gauges (v ∷ us) u m =
    let healthy : Metrics = gauge_set (healthy_gauge v) (pos 1) m in
    let unrelated : load healthy.gauges (state_gauge u) ≡ load m.gauges (state_gauge u) =
      load-gauge_set m (healthy_gauge v) (state_gauge u) (pos 1)
      ∙ rw (healthy_is_not_state v u) refl in
    let zeroed : load (gauge_set (state_gauge v) (pos 0) healthy).gauges (state_gauge u)
        ≡ (if str_eq v u then pos 0 else load m.gauges (state_gauge u)) =
      load-gauge_set healthy (state_gauge v) (state_gauge u) (pos 0)
      ∙ rw (metric_name-eq "haribon_breaker_state" "backend" v u, unrelated) refl in
    load-seed_gauges us u (gauge_set (state_gauge v) (pos 0) healthy)
    ∙ ap (λ x. if contains us u then pos 0 else x) zeroed
    ∙ ground arith

-- Where the previous generation had a circuit for a backend of the merged pool, a rebuild that the
-- factory lets through keeps the circuit in its state, whichever that is, and sets the gauge of the
-- circuit to the number of a closed one.
pub rebuild_hides_circuit :
    (cfg : Config) (rt : Runtime) (m : Metrics) (u : String) (e : Engine) (ob : Breaker)
    (b : BackendEntry) (bs : List BackendEntry) (bal : Balancer)
    → rt.current ≡ some e
    → IsMap e.breaker.breakers
    → get e.breaker.breakers u ≡ some ob
    → merge_entries cfg.backends rt.discovered ≡ b ∷ bs
    → contains (urls (b ∷ bs)) u ≡ true
    → new_balancer cfg.balancer.strategy (b ∷ bs) ≡ ok bal
    → (e' : Engine) × ((rebuild cfg rt).current ≡ some e')
      × (breaker_state u e'.breaker ≡ ob.state)
      × (load (rebuild_gauges cfg rt m).gauges (state_gauge u) ≡ pos 0)
unfolding rebuild publish rebuild_gauges publish_gauges breaker_state new_breaker
rebuild_hides_circuit cfg rt m u e ob b bs bal cur map known pool member made =
    let kept = next_engine-breaker cfg (urls (b ∷ bs)) bal (some e) u map in
    rw (pool, publish, publish_gauges)
      (rw made (
        rw cur (
          next_engine cfg (urls (b ∷ bs)) bal (some e),
          refl,
          rw (kept, breaker_state) (rw (known, member) refl),
          load-seed_gauges (urls (b ∷ bs)) u m ∙ rw member refl,
        )))
