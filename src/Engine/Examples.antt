-- ===== src/Engine/Examples.antt =====
-- The engine's theorems at one reload: "b" is added by discovery while "a" is marked unhealthy.
use haribon.Prelude.{
  ◌≡◌, refl, true, false, some, none, [], ◌∷◌, pos, arith, if◌then◌else◌, str_eq, contains, List,
  Bool,
}
use haribon.Prelude.Dict.{get}
use haribon.Balancer.Types.{urls}
use haribon.Health.Scheduler.{SchedulerConfig, probe_loop, new_probe}
use haribon.Config.{Backend, Config, zero_config}
use haribon.Engine.Defs.{Runtime, merge_entries, rebuild, write_health, checker_available}
use haribon.Engine.Pool.{
  Fresh, weight_of, or_else, configured_weight, discovered_weight, weight-merge_entries,
}
use haribon.Engine.Rebuild.{rebuilt_backend_stays_refused}
use haribon.Prelude.{String, Option, ℤ}
use haribon.Health.Breaker.Defs.{Breaker, state_open}
use haribon.Balancer.Factory.{round_robin, random, new_balancer}
use haribon.Config.{validate}
use haribon.Engine.Defs.{Engine}
use haribon.Engine.Swappable.{Swappable, checker_of, has_healthy_backend}
use haribon.Engine.Demands.{Demand, route, readiness, done, NeverPicked}
use haribon.Engine.Readiness.{readiness_uses_trial}
use haribon.Health.Breaker.Defs.{breaker_state}
use haribon.Metrics.{load, new_metrics}
use haribon.Engine.Gauges.{state_gauge, rebuild_gauges}
use haribon.Engine.Seeded.{rebuild_hides_circuit}

abbrev configured : List Backend
configured = record { host = "a"; weight = pos 3 } ∷ record { host = "a"; weight = pos 9 } ∷ []

abbrev config : Config
config = record zero_config {
  backends = configured;
  balancer = record { strategy = "least_connections" };
  breaker = record { failure_threshold = pos 5; cooldown_sec = pos 30 };
}

abbrev running : Runtime
running = record {
  discovered = "a" ∷ "" ∷ "b" ∷ [];
  current = none;
  backend_health = ("a", false) ∷ ("gone", false) ∷ [];
}

abbrev sched : SchedulerConfig
sched = record { healthy_threshold = pos 2; unhealthy_threshold = pos 3 }

abbrev results : List Bool
results = true ∷ true ∷ false ∷ true ∷ true ∷ []

weight-merge_entries_example :
    Fresh [] (merge_entries configured ("a" ∷ "" ∷ "b" ∷ []))
    × (weight_of (merge_entries configured ("a" ∷ "" ∷ "b" ∷ [])) "a" ≡ (
        if str_eq "a" ""
        then none
        else or_else
            (configured_weight configured "a")
            (discovered_weight ("a" ∷ "" ∷ "b" ∷ []) "a")))
weight-merge_entries_example = weight-merge_entries configured ("a" ∷ "" ∷ "b" ∷ []) "a"

a_is_routed_to : contains (urls (merge_entries configured ("a" ∷ "" ∷ "b" ∷ []))) "a" ≡ true
unfolding merge_entries urls
a_is_routed_to = refl

get_a : get running.backend_health "a" ≡ some false
unfolding get
get_a = refl

rebuilt_backend_stays_refused_example :
    (checker_available 0 "a" (record {
      breaker = none;
      node = none;
      backend_health =
          write_health
            (probe_loop sched "a" results new_probe).1
            (rebuild config running).backend_health;
    })).0
    ≡ false
rebuilt_backend_stays_refused_example =
    rebuilt_backend_stays_refused config running "a" sched 3 0 results none none tt a_is_routed_to
      get_a refl (omega arith) (omega arith, tt)

abbrev scheme : String → Option String
scheme s = some "http"

abbrev unresolved : String → Bool
unresolved s = false

abbrev getenv : String → String
getenv s = ""

abbrev atoi : String → Option ℤ
atoi s = none

abbrev loaded : Config
loaded = record config { main_port = pos 80; exporters = "stdout" ∷ [] }

loaded_is_accepted : validate scheme unresolved loaded ≡ none
unfolding validate
loaded_is_accepted = refl

-- One backend, whose circuit has been open for ten nanoseconds of five.
abbrev open_circuit : Breaker
open_circuit = record {
  state = state_open;
  consecutive_fails = pos 2;
  open_at = 100;
  failure_threshold = pos 2;
  cooldown = pos 5;
  has_logger = true;
  backend = "a";
}

abbrev generation : Engine
generation = record {
  bal = round_robin (record { backends = record { url = "a"; weight = pos 1 } ∷ []; counter = 0 });
  breaker = record { breakers = ("a", open_circuit) ∷ []; logged = [] };
  backends = "a" ∷ [];
}

abbrev routed : Swappable
routed = record { current = some generation; node = none; backend_health = [] }

a_is_free : (checker_available 110 "a" (checker_of routed generation)).0 ≡ true
unfolding checker_available checker_of get
a_is_free = refl

abbrev asked : List Demand
asked = route 111 ∷ readiness 112 ∷ route 113 ∷ done "a" ∷ route 1000000 ∷ []

readiness_uses_trial_example :
    ((has_healthy_backend 110 routed).0 ≡ true)
    × NeverPicked (λ n. 0) (λ s. 0) "a" asked (has_healthy_backend 110 routed).1
unfolding has_healthy_backend get
readiness_uses_trial_example =
    readiness_uses_trial (λ n. 0) (λ s. 0) 110 routed generation "a" [] asked refl refl
      (open_circuit, refl, refl) a_is_free tt

-- The reload that adds "b", with the open circuit in the generation before it.
abbrev reloaded : Runtime
reloaded = record running { current = some generation }

abbrev in_random_order : Config
in_random_order = record config { balancer = record { strategy = "random" } }

pool_of_reload :
    merge_entries in_random_order.backends reloaded.discovered
    ≡ record { url = "a"; weight = pos 3 } ∷ record { url = "b"; weight = pos 1 } ∷ []
unfolding merge_entries
pool_of_reload = refl

open_is_known : get generation.breaker.breakers "a" ≡ some open_circuit
unfolding get
open_is_known = refl

rebuild_hides_circuit_example :
    (e' : Engine) × ((rebuild in_random_order reloaded).current ≡ some e')
    × (breaker_state "a" e'.breaker ≡ state_open)
    × (load (rebuild_gauges in_random_order reloaded new_metrics).gauges (state_gauge "a") ≡ pos 0)
unfolding get urls new_balancer
rebuild_hides_circuit_example =
    rebuild_hides_circuit in_random_order reloaded new_metrics "a" generation open_circuit
      (record { url = "a"; weight = pos 3 }) (record { url = "b"; weight = pos 1 } ∷ [])
      (random (record {
        backends = record { url = "a"; weight = pos 3 } ∷ record { url = "b"; weight = pos 1 } ∷ [];
      }))
      refl (refl, tt) open_is_known pool_of_reload refl refl
