-- ===== src/Discovery/Examples.antt =====
-- Discovery at one run: the file grows by a backend, and then cannot be read.
use haribon.Prelude.{◌≡◌, refl, Option, some, none, [], ◌∷◌, List, String, Bool, false, pos}
use haribon.Config.{Config, zero_config, validate}
use haribon.Config.Defaults.{defaults}
use haribon.Config.Snapshot.Ready.{accept-IsReady}
use haribon.Engine.{Runtime, merge_entries}
use haribon.Engine.Accepted.{Routed}
use haribon.Discovery.{Lookup, found, failed, not_read, discover_all}
use haribon.Discovery.Tracking.{last_good}
use haribon.Discovery.Routing.{discover_all-Routed}

abbrev scheme : String → Option String
scheme s = some "http"

abbrev unresolved : String → Bool
unresolved s = false

abbrev loaded : Config
loaded = record zero_config {
  main_port = pos 4444;
  backends = record { host = "http://a:80"; weight = pos 2 } ∷ [];
}

loaded_is_accepted : validate scheme unresolved loaded ≡ none
unfolding validate
loaded_is_accepted = refl

abbrev config : Config
config = defaults none loaded

abbrev start : Runtime
start = record { discovered = []; current = none; backend_health = [] }

abbrev ticks : List Lookup
ticks = found ("a" ∷ []) ∷ found ("a" ∷ "b" ∷ []) ∷ failed not_read ∷ []

discover_all-Routed_example :
    ((discover_all config (found ("a" ∷ [])) ticks start).discovered
      ≡ last_good (found ("a" ∷ []) ∷ ticks) [])
    × Routed
        (merge_entries config.backends (last_good (found ("a" ∷ []) ∷ ticks) []))
        (discover_all config (found ("a" ∷ [])) ticks start).current
discover_all-Routed_example =
    discover_all-Routed scheme unresolved (λ s. "") (λ s. none) none config (found ("a" ∷ [])) ticks
      start (accept-IsReady scheme unresolved (λ s. "") (λ s. none) none loaded loaded_is_accepted)
