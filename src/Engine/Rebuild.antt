-- ===== src/Engine/Rebuild.antt =====
-- What a rebuild publishes, keeps and drops.
use haribon.Prelude.{
  ℕ, ◌≡◌, refl, ap, ◌∙◌, ◌≤◌, String, Bool, true, false, Option, none, some, List, [], ◌∷◌, ◌⊎◌,
  inl, inr, contains, pos, ℤ, max_int64, arith, if◌then◌else◌, eq_iff,
}
use haribon.Prelude.Dict.{Dict, get, IsMap}
use haribon.Health.Breaker.Defs.{Breaker, Registry, new_breaker, new_registry}
use haribon.Health.Breaker.Reload.{carried, get-carry_over, get-new_registry}
use haribon.Cluster.Defs.{Node}
use haribon.Balancer.Types.{BackendEntry, BalancerError, Result, ok, err, urls}
use haribon.Balancer.Factory.{Balancer, new_balancer}
use haribon.Balancer.Chosen.{candidates}
use haribon.Balancer.Members.{SameMembers, candidates-new_balancer, candidates-carry_balancer}
use haribon.Health.Scheduler.{SchedulerConfig, new_probe, probe_loop}
use haribon.Health.Scheduler.Hysteresis.{NoFailingStreak, Passing, probe_loop-Passing}
use haribon.Config.{Config}
use haribon.Engine.Defs.{
  Engine, Runtime, merge_entries, cooldown_of, next_engine, publish, rebuild, prune_health,
  is_healthy, write_health, checker_available,
}

get-prune_health :
    (keep : List String) (m : Dict Bool) (u : String)
    → get (prune_health keep m) u ≡ (if contains keep u then get m u else none)
unfolding prune_health get
get-prune_health keep [] u = ground arith
get-prune_health keep ((k, v) ∷ m) u = ground (arith, get-prune_health keep m u, eq_iff k u)

-- The breaker of the previous generation, where there is one.
abbrev pub previous : Option Engine → String → Option Breaker
previous none u = none
previous (some e) u = get e.breaker.breakers u

abbrev pub PreviousIsMap : Option Engine → Type 0
PreviousIsMap none = Unit {0}
PreviousIsMap (some e) = IsMap e.breaker.breakers

-- The generation lists the pool, and its balancer chooses from the pool, from all of it and from
-- nothing else.
abbrev pub RoutesTo : List BackendEntry → Engine → Type 0
RoutesTo pool e = (e.backends ≡ urls pool) × SameMembers (candidates e.bal) (urls pool)

-- What rebuild makes of a pool: nothing at all, for a reason, or a new generation, of which this is
-- said at one URL.
abbrev pub Outcome : ℤ → Config → List BackendEntry → Runtime → String → Runtime → Type 0
Outcome cooldown cfg pool rt u rt' =
    ((rt' ≡ rt)
      × ((pool ≡ []) ⊎ ((e : BalancerError) × (new_balancer cfg.balancer.strategy pool ≡ err e))))
    ⊎ ((e : Engine) × (rt'.current ≡ some e)
        × RoutesTo pool e
        × (get e.breaker.breakers u
            ≡ carried (previous rt.current u) (
                if contains (urls pool) u
                then some (new_breaker cfg.breaker.failure_threshold cooldown true u)
                else none))
        × (get rt'.backend_health u
            ≡ (if contains (urls pool) u then get rt.backend_health u else none)))

pub next_engine-backends :
    (cfg : Config) (pool : List String) (bal : Balancer) (prev : Option Engine)
    → (next_engine cfg pool bal prev).backends ≡ pool
unfolding next_engine
next_engine-backends cfg pool bal none = refl
next_engine-backends cfg pool bal (some e) = refl

-- The balancer of the new generation is the new one, with the old one's counts at most.
pub next_engine-RoutesTo :
    (cfg : Config) (b : BackendEntry) (bs : List BackendEntry) (bal : Balancer)
    (prev : Option Engine)
    → new_balancer cfg.balancer.strategy (b ∷ bs) ≡ ok bal
    → RoutesTo (b ∷ bs) (next_engine cfg (urls (b ∷ bs)) bal prev)
unfolding next_engine
next_engine-RoutesTo cfg b bs bal none made =
    (refl, candidates-new_balancer cfg.balancer.strategy b bs bal made)
next_engine-RoutesTo cfg b bs bal (some e) made = (
  refl,
  rw (candidates-carry_balancer e.bal bal)
      (candidates-new_balancer cfg.balancer.strategy b bs bal made),
)

pub next_engine-breaker :
    (cfg : Config) (pool : List String) (bal : Balancer) (prev : Option Engine) (u : String)
    → PreviousIsMap prev
    → get (next_engine cfg pool bal prev).breaker.breakers u
      ≡ carried (previous prev u) (
          if contains pool u
          then some (new_breaker cfg.breaker.failure_threshold (cooldown_of cfg) true u)
          else none)
unfolding next_engine
next_engine-breaker cfg pool bal none u h =
    get-new_registry pool cfg.breaker.failure_threshold (cooldown_of cfg) true u
next_engine-breaker cfg pool bal (some e) u h =
    get-carry_over e.breaker
      (new_registry pool cfg.breaker.failure_threshold (cooldown_of cfg) true) u h
    ∙ ap (carried (get e.breaker.breakers u))
        (get-new_registry pool cfg.breaker.failure_threshold (cooldown_of cfg) true u)

publish-Outcome :
    (cfg : Config) (pool : List BackendEntry) (rt : Runtime) (u : String)
    → PreviousIsMap rt.current
    → Outcome (cooldown_of cfg) cfg pool rt u (publish cfg pool rt)
unfolding publish
publish-Outcome cfg [] rt u h = inl (refl, inl refl)
publish-Outcome cfg (b ∷ bs) rt u h = go (new_balancer cfg.balancer.strategy (b ∷ bs)) refl
  where
    go :
        (r : Result Balancer)
        → new_balancer cfg.balancer.strategy (b ∷ bs) ≡ r
        → Outcome (cooldown_of cfg) cfg (b ∷ bs) rt u (publish cfg (b ∷ bs) rt)
    go (err e) eq = rw (eq, publish) (inl (refl, inr (e, refl)))
    go (ok bal) eq =
        rw (eq, publish)
          (inr (
            next_engine cfg (urls (b ∷ bs)) bal rt.current,
            refl,
            next_engine-RoutesTo cfg b bs bal rt.current eq,
            next_engine-breaker cfg (urls (b ∷ bs)) bal rt.current u h,
            get-prune_health (urls (b ∷ bs)) rt.backend_health u,
          ))

rebuilt-Outcome :
    (cfg : Config) (rt : Runtime) (u : String)
    → PreviousIsMap rt.current
    → Outcome (cooldown_of cfg) cfg (merge_entries cfg.backends rt.discovered) rt u (rebuild cfg rt)
unfolding rebuild
rebuilt-Outcome cfg rt u h = publish-Outcome cfg (merge_entries cfg.backends rt.discovered) rt u h

kept-unhealthy :
    (cfg : Config) (rt : Runtime) (u : String)
    → PreviousIsMap rt.current
    → contains (urls (merge_entries cfg.backends rt.discovered)) u ≡ true
    → get rt.backend_health u ≡ some false
    → get (rebuild cfg rt).backend_health u ≡ some false
kept-unhealthy cfg rt u h member e = elim (rebuilt-Outcome cfg rt u h) [
  | inl (same, why) ↦ ap (λ r. get r.backend_health u) same ∙ e
  | inr (g, c, routes, br, kept) ↦ kept ∙ rw member e
]

-- A backend that is marked unhealthy when the pool is rebuilt stays refused by the checker after any
-- results of the new scheduler's probe in which the failures in a row stay below the threshold, a
-- thousand successes among them: the new probe takes the backend for healthy, and writes nothing.
pub rebuilt_backend_stays_refused :
    (cfg : Config) (rt : Runtime) (u : String) (sched : SchedulerConfig) (t now : ℕ)
    (oks : List Bool) (breaker : Option Registry) (peers : Option Node)
    → PreviousIsMap rt.current
    → contains (urls (merge_entries cfg.backends rt.discovered)) u ≡ true
    → get rt.backend_health u ≡ some false
    → sched.unhealthy_threshold ≡ pos t
    → t ≤ max_int64
    → NoFailingStreak t 0 oks
    → (checker_available now u (record {
      breaker = breaker;
      node = peers;
      backend_health =
          write_health (probe_loop sched u oks new_probe).1 (rebuild cfg rt).backend_health;
    })).0
      ≡ false
unfolding checker_available write_health new_probe is_healthy
rebuilt_backend_stays_refused cfg rt u sched t now oks breaker peers h member e limit fits few =
    let start : Passing 0 new_probe = record { is_healthy = refl; counted = refl } in
    let quiet = (probe_loop-Passing sched u t 0 oks new_probe limit fits few start).1 in
    rw (quiet, is_healthy, kept-unhealthy cfg rt u h member e) refl
