-- ===== src/System.antt =====
-- cli/engine.go, cli/main.go: the running program, as a schedule of its goroutines. The configuration
-- watcher and the discovery loop each rebuild the routing; they stop where another goroutine may come
-- between. Requests and the readiness probe, the health scheduler and the gossip listener act in one
-- step each. Answers from outside are part of the events.
pub mod Serving
pub mod Current
pub mod Requests
pub mod Overtaken
mod Examples
use haribon.Prelude.{ℕ, String, Bool, true, false, Option, none, some, List, [], ◌∷◌, ℤ}
use haribon.Prelude.Dict.{Dict, put}
use haribon.Cluster.Defs.{Node, GossipMessage, set_health, merge_gossip}
use haribon.Config.{Config}
use haribon.Config.Snapshot.{ReloadError, reload}
use haribon.Discovery.{Lookup, found, failed, start_discovery}
use haribon.Engine.{Runtime, rebuild}
use haribon.Engine.Swappable.{Swappable, same_list}
use haribon.Engine.Demands.{Demand, meet}

-- Where the watcher stands in the reload of StartWatcherHook: waiting, or about to call rebuild with
-- the configuration that it loaded.
pub data Watcher : Type 0 where
  idle : Watcher
  applying : Config → Watcher

-- Where the discovery loop stands in OnDiscovery: waiting, about to load the snapshot, or about to
-- call rebuild with what it loaded.
pub data Poller : Type 0 where
  idle noted : Poller
  applying : Config → Poller

-- type runtime struct, with what its goroutines hold
pub record System : Type 0 where
  pub snapshot : Config
  pub runtime : Runtime
  pub node : Option Node
  pub last : List String
  pub watcher : Watcher
  pub poller : Poller

-- One turn of a goroutine, with what it reads from outside.
pub data Event : Type 0 where
  watcher_turn : Option Config → Event
  poller_turn : Lookup → Event
  demand : Demand → Event
  probed : String → Bool → Event
  gossip : ℕ → GossipMessage → Event

-- func (r *runtime) stateWriter
unfoldable pub state_writer : String → Bool → System → System
unfolding set_health
state_writer backend healthy s = record s {
  runtime = record s.runtime { backend_health = put s.runtime.backend_health backend healthy };
  node = elim s.node [ none ↦ none | some n ↦ some (set_health backend healthy n) ];
}

-- what the swappable of the runtime reads
unfoldable pub swappable_of : System → Swappable
swappable_of s = record {
  current = s.runtime.current;
  node = s.node;
  backend_health = s.runtime.backend_health;
}

-- the guard of OnDiscovery and the write of r.discovered
unfoldable pub note_discovered : List String → System → System
unfolding same_list
note_discovered urls s = elim (same_list urls s.runtime.discovered) [
  | true ↦ s
  | false ↦ record s { runtime = record s.runtime { discovered = urls }; poller = noted }
]

-- the body of watchLoop at a tick
unfoldable pub poll : Lookup → System → System
unfolding same_list note_discovered
poll (failed e) s = s
poll (found []) s = s
poll (found (u ∷ us)) s = elim (same_list (u ∷ us) s.last) [
  | true ↦ s
  | false ↦ note_discovered (u ∷ us) (record s { last = u ∷ us })
]

-- OnDiscovery: the poll, r.snapshot.Load(), and rebuild
unfoldable pub poller_step : Lookup → Poller → System → System
unfolding poll rebuild
poller_step answer idle s = poll answer s
poller_step answer noted s = record s { poller = applying s.snapshot }
poller_step answer (applying cfg) s = record s { runtime = rebuild cfg s.runtime; poller = idle }

-- func newRuntime, with the maps of cli/main.go
abbrev pub empty_runtime : Runtime
empty_runtime = record { discovered = []; current = none; backend_health = [] }

-- startCommand up to its watcher: StartDiscovery, and the first rebuild
unfoldable pub started : Config → Lookup → Option Node → System
unfolding start_discovery rebuild
started cfg first node = record {
  snapshot = cfg;
  runtime = rebuild cfg (start_discovery first empty_runtime);
  node = node;
  last = [];
  watcher = idle;
  poller = idle;
}

module _ (scheme : String → Option String) (unresolved : String → Bool) (getenv : String → String)
    (atoi : String → Option ℤ) (hostname : Option String) where
  -- after the call of Reload
  unfoldable pub swapped : Config × Option ReloadError → System → System
  swapped (cfg, none) s = record s { snapshot = cfg; watcher = applying cfg }
  swapped (cfg, some e) s = record s { snapshot = cfg }

  -- a reload: the swap of the snapshot, and then OnConfigReload
  unfoldable pub watcher_step : Option Config → Watcher → System → System
  unfolding swapped reload rebuild
  watcher_step file idle s =
      swapped (reload scheme unresolved getenv atoi hostname file s.snapshot) s
  watcher_step file (applying cfg) s = record s { runtime = rebuild cfg s.runtime; watcher = idle }

  module _ (intn : ℕ → ℕ) (sum32 : String → ℕ) where
    unfoldable pub step : Event → System → System
    unfolding watcher_step poller_step swappable_of meet state_writer merge_gossip
    step (watcher_turn file) s = watcher_step file s.watcher s
    step (poller_turn answer) s = poller_step answer s.poller s
    step (demand d) s = record s {
      runtime = record s.runtime { current = (meet intn sum32 d (swappable_of s)).1.current };
    }
    step (probed backend healthy) s = state_writer backend healthy s
    step (gossip now msg) s = record s {
      node = elim s.node [ none ↦ none | some n ↦ some (merge_gossip now msg n) ];
    }

    unfoldable pub run : List Event → System → System
    unfolding step
    run [] s = s
    run (e ∷ es) s = run es (step e s)
