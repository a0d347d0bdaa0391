-- ===== src/System/Examples.antt =====
-- The running program at one schedule: "b" is discovered while the configuration that names "a" is
-- replaced by one that names "c".
use haribon.Prelude.{
  ◌≡◌, refl, String, Bool, false, Option, none, some, List, [], ◌∷◌, pos, ℤ, contains,
}
use haribon.Config.{Config, zero_config, validate}
use haribon.Config.Defaults.{defaults, apply_env_overrides}
use haribon.Config.Snapshot.{start_config, reload, accept}
use haribon.Config.Snapshot.Ready.{accept-IsReady}
use haribon.Discovery.{found, failed, not_read}
use haribon.Engine.Swappable.{same_list}
use haribon.Engine.Demands.{route, meet}
use haribon.Balancer.Types.{BackendEntry, urls}
use haribon.Balancer.Chosen.{Avoids}
use haribon.System.Requests.{current_pool, request-Avoids}
use haribon.System.{
  System, swappable_of, Event, watcher_turn, poller_turn, demand, probed, started, run, step,
  empty_runtime,
}
use haribon.System.Current.{Settled, RoutesCurrent, AllCalm, run-Routed}
use haribon.System.Overtaken.{Undone, overtaking, again, resting, reload_is_lost}

abbrev scheme : String → Option String
scheme s = some "http"

abbrev unresolved : String → Bool
unresolved s = false

abbrev getenv : String → String
getenv s = ""

abbrev atoi : String → Option ℤ
atoi s = none

abbrev naming : String → Config
naming url = record zero_config {
  main_port = pos 80;
  exporters = "stdout" ∷ [];
  backends = record { host = url; weight = pos 1 } ∷ [];
}

abbrev old : Config
old = defaults none (naming "a")

abbrev new : Config
new = defaults none (naming "c")

old_is_accepted : validate scheme unresolved (naming "a") ≡ none
unfolding validate
old_is_accepted = refl

it_starts : start_config scheme unresolved getenv atoi none (some (naming "a")) ≡ some old
unfolding start_config validate apply_env_overrides
it_starts = refl

it_reloads : reload scheme unresolved getenv atoi none (some (naming "c")) old ≡ (new, none)
unfolding reload accept validate apply_env_overrides
it_reloads = refl

abbrev events : List Event
events =
    watcher_turn (some (naming "c"))
    ∷ poller_turn (found ("b" ∷ []))
    ∷ watcher_turn none
    ∷ poller_turn (failed not_read)
    ∷ probed "a" false
    ∷ poller_turn (failed not_read)
    ∷ demand (route 5)
    ∷ []

abbrev end_state : System
end_state =
    run scheme unresolved getenv atoi none (λ n. 0) (λ s. 0) events
      (started old (failed not_read) none)

they_are_calm :
    AllCalm scheme unresolved getenv atoi none
      (λ n. 0)
      (λ s. 0)
      events
      (started old (failed not_read) none)
unfolding step started reload accept validate apply_env_overrides same_list defaults
they_are_calm = (refl, (tt, (refl, (tt, (tt, (tt, (tt, tt)))))))

they_settle : Settled end_state
unfolding run step started reload accept validate apply_env_overrides same_list defaults
they_settle = refl

run-Routed_example : RoutesCurrent end_state
run-Routed_example =
    run-Routed scheme unresolved getenv atoi none (λ n. 0) (λ s. 0) (some (naming "a")) old
      (failed not_read) none events it_starts they_are_calm they_settle

reload_is_lost_example : Undone old new ("b" ∷ []) (
    run scheme unresolved getenv atoi none
      (λ n. 0)
      (λ s. 0)
      (again ("b" ∷ []) 3)
      (run scheme unresolved getenv atoi none
        (λ n. 0)
        (λ s. 0)
        (overtaking ("b" ∷ []) (some (naming "c")))
        (resting old empty_runtime none [])))
unfolding same_list
reload_is_lost_example =
    reload_is_lost scheme unresolved getenv atoi none (λ n. 0) (λ s. 0) old new empty_runtime none
      [] "b" [] (some (naming "c")) 3
      (accept-IsReady scheme unresolved getenv atoi none (naming "a") old_is_accepted) refl refl
      it_reloads

abbrev c : BackendEntry
c = record { url = "c"; weight = pos 1 }

abbrev b : BackendEntry
b = record { url = "b"; weight = pos 1 }

pool_at_end : current_pool end_state ≡ c ∷ b ∷ []
unfolding run step started reload accept validate apply_env_overrides same_list defaults
pool_at_end = refl

a_is_out : contains (urls (c ∷ b ∷ [])) "a" ≡ false
unfolding urls
a_is_out = refl

request-Avoids_example : Avoids "a" (meet (λ n. 0) (λ s. 0) (route 7) (swappable_of end_state)).0
request-Avoids_example =
    request-Avoids scheme unresolved getenv atoi none (λ n. 0) (λ s. 0) (some (naming "a")) old
      (failed not_read) none events (route 7) "a" c (b ∷ []) it_starts they_are_calm they_settle
      pool_at_end a_is_out
