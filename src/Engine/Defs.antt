-- ===== src/Engine/Defs.antt =====
-- cli/engine.go: the checker, the merge of the pool and rebuild.
use haribon.Prelude.{
  ℕ, String, Bool, true, false, not, ◌||◌, Option, none, some, List, [], ◌∷◌, contains, str_eq, pos,
  ℤ, negsuc, suc, wrap_int64, ◌*◌, ◌%◌, ◌^◌, ◌-◌, if◌then◌else◌,
}
use haribon.Prelude.Dict.{Dict, get, put}
use haribon.Config.{Backend, Config}
use haribon.Health.Breaker.Defs.{Registry, is_available, new_registry, carry_over}
use haribon.Cluster.Defs.{Node, get_health}
use haribon.Balancer.Types.{BackendEntry, ok, err, urls}
use haribon.Balancer.Factory.{Balancer, new_balancer, carry_balancer}
use haribon.Health.Scheduler.{StateWrite}

-- isHealthy, over the map backendHealth
unfoldable pub is_healthy : String → Dict Bool → Bool
is_healthy b backend_health = elim (get backend_health b) [ none ↦ true | some v ↦ v ]

-- setHealth, for each write of the scheduler
unfoldable pub write_health : List StateWrite → Dict Bool → Dict Bool
write_health [] m = m
write_health (w ∷ ws) m = write_health ws (put m w.backend w.healthy)

-- What engineHealthChecker.IsAvailable reads: the breaker and the node may be nil.
pub record Checker : Type 0 where
  pub breaker : Option Registry
  pub node : Option Node
  pub backend_health : Dict Bool

-- func (c engineHealthChecker) IsAvailable; a question to the breaker may change it
unfoldable pub checker_available : ℕ → String → Checker → Bool × Checker
unfolding is_healthy get_health is_available
checker_available now backend c =
    let local : Bool = is_healthy backend c.backend_health in
    let asked : Bool × Option Registry = elim c.breaker [
      | none ↦ (true, none)
      | some r ↦ ((is_available now backend r).0, some (is_available now backend r).1)
    ] in
    let peers : Bool = elim c.node [ none ↦ true | some n ↦ get_health now backend local n ] in
    if not local
    then (false, c)
    else if not peers
    then (false, c)
    else (asked.0, record c { breaker = asked.1 })

-- the loop of HasHealthyBackend
unfoldable pub any_available : ℕ → List String → Checker → Bool × Checker
unfolding checker_available
any_available now [] c = (false, c)
any_available now (b ∷ bs) c = elim (checker_available now b c).0 [
  | true ↦ (true, (checker_available now b c).1)
  | false ↦ any_available now bs (checker_available now b c).1
]

-- the second loop of mergeEntries, over what discovery found; `seen` holds the URLs taken so far
unfoldable pub add_discovered : List String → List String → List BackendEntry
add_discovered [] seen = []
add_discovered (u ∷ us) seen = elim (str_eq u "" || contains seen u) [
  | true ↦ add_discovered us seen
  | false ↦ record { url = u; weight = pos 1 } ∷ add_discovered us (u ∷ seen)
]

-- the first loop of mergeEntries, over the configuration's backends, and then the second
unfoldable pub add_configured : List Backend → List String → List String → List BackendEntry
unfolding add_discovered
add_configured [] discovered seen = add_discovered discovered seen
add_configured (b ∷ bs) discovered seen = elim (str_eq b.host "" || contains seen b.host) [
  | true ↦ add_configured bs discovered seen
  | false ↦
      record { url = b.host; weight = b.weight } ∷ add_configured bs discovered (b.host ∷ seen)
]

unfoldable pub merge_entries : List Backend → List String → List BackendEntry
unfolding add_configured
merge_entries cfg_backends discovered = add_configured cfg_backends discovered []

-- the loop of pruneHealth
unfoldable pub prune_health : List String → Dict Bool → Dict Bool
prune_health keep [] = []
prune_health keep ((u, v) ∷ m) =
    let rest = prune_health keep m in if contains keep u then (u, v) ∷ rest else rest

-- type engine struct
pub record Engine : Type 0 where
  pub bal : Balancer
  pub breaker : Registry
  pub backends : List String

-- type runtime struct, with the published generation and the process-wide maps
pub record Runtime : Type 0 where
  pub discovered : List String
  pub current : Option Engine
  pub backend_health : Dict Bool

-- time.Duration(cfg.Breaker.CooldownSec) * time.Second: nanoseconds, brought back into 64 bits.
unfoldable pub cooldown_of : Config → ℤ
cooldown_of cfg = elim cfg.breaker.cooldown_sec [
  | pos n ↦ wrap_int64 (pos ((n * 1000000000) % 2 ^ 64))
  | negsuc n ↦ wrap_int64 (pos ((2 ^ 64 - (suc n * 1000000000) % 2 ^ 64) % 2 ^ 64))
]

-- The new generation, with what the previous one hands over.
unfoldable pub next_engine : Config → List String → Balancer → Option Engine → Engine
unfolding new_registry carry_over carry_balancer cooldown_of
next_engine cfg pool bal prev =
    let fresh = new_registry pool cfg.breaker.failure_threshold (cooldown_of cfg) true in
    elim prev [
      | none ↦ record { bal = bal; breaker = fresh; backends = pool }
      | some e ↦ record {
        bal = carry_balancer e.bal bal;
        breaker = carry_over (some e.breaker) fresh;
        backends = pool;
      }
    ]

-- rebuild after the merge
unfoldable pub publish : Config → List BackendEntry → Runtime → Runtime
unfolding new_balancer next_engine prune_health
publish cfg [] rt = rt
publish cfg (b ∷ bs) rt = elim (new_balancer cfg.balancer.strategy (b ∷ bs)) [
  | err e ↦ rt
  | ok bal ↦ record rt {
    current = some (next_engine cfg (urls (b ∷ bs)) bal rt.current);
    backend_health = prune_health (urls (b ∷ bs)) rt.backend_health;
  }
]

-- func (r *runtime) rebuild
unfoldable pub rebuild : Config → Runtime → Runtime
unfolding merge_entries publish
rebuild cfg rt = publish cfg (merge_entries cfg.backends rt.discovered) rt
