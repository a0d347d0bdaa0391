-- ===== src/System/Current.antt =====
-- The routing follows the configuration in force and the last answer of discovery.
use haribon.Prelude.{
  ℕ, ◌≡◌, refl, sym, subst, inl, inr, String, Bool, true, false, Option, none, some, List, [], ◌∷◌,
  ℤ, Bool-cases,
}
use haribon.Config.{Config}
use haribon.Config.Snapshot.{ReloadError, reload, start_config}
use haribon.Cluster.Defs.{Node}
use haribon.Config.Snapshot.Ready.{IsReady, Reloaded, reload-Reloaded, start_config-IsReady}
use haribon.Discovery.{Lookup, found, failed, start_discovery}
use haribon.Discovery.Tracking.{rebuild-discovered}
use haribon.Engine.{Runtime, merge_entries, rebuild}
use haribon.Engine.Accepted.{Routed, rebuild-Routed}
use haribon.Engine.Swappable.{same_list}
use haribon.Engine.Demands.{meet}
use haribon.System.{
  System, Watcher, Poller, Event, watcher_turn, poller_turn, demand, probed, gossip, swapped,
  watcher_step, poll, note_discovered, poller_step, state_writer, swappable_of, step, run, started,
  empty_runtime,
}
use haribon.System.Serving.{Routed-SamePool, meet-SamePool}

-- No goroutine is about to rebuild.
abbrev pub is_settled : Watcher → Poller → Bool
is_settled Watcher.idle Poller.idle = true
is_settled _ _ = false

abbrev pub Settled : System → Type 0
Settled s = is_settled s.watcher s.poller ≡ true

-- The generation lists and chooses from what the configuration in force and discovery make together.
abbrev pub RoutesCurrent : System → Type 0
RoutesCurrent s = Routed (merge_entries s.snapshot.backends s.runtime.discovered) s.runtime.current

abbrev Rebuilding : Poller → Type 0
Rebuilding Poller.idle = ⊥
Rebuilding _ = Unit {0}

unsettled : (w : Watcher) (p : Poller) → Rebuilding p → is_settled w p ≡ true → ⊥
unsettled Watcher.idle Poller.idle r h = r
unsettled Watcher.idle Poller.noted r h = cc
unsettled Watcher.idle (Poller.applying cfg) r h = cc
unsettled (Watcher.applying cfg) p r h = cc

-- What a watcher or a poller that is about to rebuild will rebuild from is in force.
abbrev pub WatcherLatest : Watcher → Config → Type 0
WatcherLatest Watcher.idle snap = Unit {0}
WatcherLatest (Watcher.applying cfg) snap = cfg ≡ snap

abbrev pub PollerLatest : Poller → Config → Type 0
PollerLatest Poller.idle snap = Unit {0}
PollerLatest Poller.noted snap = Unit {0}
PollerLatest (Poller.applying cfg) snap = cfg ≡ snap

-- The watcher does not swap the configuration while the poller is about to rebuild from the old one.
abbrev pub leaves_alone : Watcher → Poller → Bool
leaves_alone Watcher.idle (Poller.applying cfg) = false
leaves_alone _ _ = true

module _ (scheme : String → Option String) (unresolved : String → Bool) (getenv : String → String)
    (atoi : String → Option ℤ) (hostname : Option String) where
  abbrev Ready : Config → Type 0
  Ready cfg = IsReady scheme unresolved getenv atoi hostname cfg

  abbrev pub Holds : Config → Runtime → Watcher → Poller → Type 0
  Holds snap rt w p =
      Ready snap
      × (WatcherLatest w snap
          × (PollerLatest p snap
              × (is_settled w p ≡ true
                  → Routed (merge_entries snap.backends rt.discovered) rt.current)))

  -- The routing is up to date, or a goroutine is about to bring it up to date.
  abbrev pub IsUpToDate : System → Type 0
  IsUpToDate s = Holds s.snapshot s.runtime s.watcher s.poller

  rebuilt :
      (cfg snap : Config) (rt : Runtime)
      → cfg ≡ snap
      → Ready snap
      → Routed (merge_entries snap.backends (rebuild cfg rt).discovered) (rebuild cfg rt).current
  rebuilt cfg snap rt same ready =
      subst
        (λ c. Routed (merge_entries snap.backends (rebuild c rt).discovered) (rebuild c rt).current)
        (sym same)
        (rw (rebuild-discovered snap rt)
          (rebuild-Routed scheme unresolved getenv atoi hostname snap rt ready))

  swapped-IsUpToDate :
      (after : Config × Option ReloadError) (s : System) (p : Poller)
      → s.poller ≡ p
      → leaves_alone Watcher.idle p ≡ true
      → Holds s.snapshot s.runtime Watcher.idle p
      → s.watcher ≡ Watcher.idle
      → Reloaded scheme unresolved getenv atoi hostname s.snapshot after
      → IsUpToDate (swapped scheme unresolved getenv atoi hostname after s)
  unfolding swapped
  swapped-IsUpToDate (cfg, some e) s p at alone h w (inl (same, r)) =
      rw (w, at) (subst (λ c. Holds c s.runtime Watcher.idle p) (sym same) h)
  swapped-IsUpToDate (cfg, none) s p at alone h w (inl (same, (e, r))) = absurd (cc r)
  swapped-IsUpToDate (cfg, some e) s p at alone h w (inr (ready, r)) = absurd (cc r)
  swapped-IsUpToDate (cfg, none) s Poller.idle at alone h w (inr (ready, r)) =
      rw at (ready, (refl, (tt, λ settled. absurd cc)))
  swapped-IsUpToDate (cfg, none) s Poller.noted at alone h w (inr (ready, r)) =
      rw at (ready, (refl, (tt, λ settled. absurd cc)))
  swapped-IsUpToDate (cfg, none) s (Poller.applying old) at alone h w (inr (ready, r)) = absurd cc

  watcher_step-IsUpToDate :
      (file : Option Config) (s : System) (w : Watcher)
      → s.watcher ≡ w
      → leaves_alone w s.poller ≡ true
      → Holds s.snapshot s.runtime w s.poller
      → IsUpToDate (watcher_step scheme unresolved getenv atoi hostname file w s)
  unfolding watcher_step
  watcher_step-IsUpToDate file s Watcher.idle at alone h =
      swapped-IsUpToDate (reload scheme unresolved getenv atoi hostname file s.snapshot) s s.poller
        refl alone h at (reload-Reloaded scheme unresolved getenv atoi hostname file s.snapshot)
  watcher_step-IsUpToDate file s (Watcher.applying cfg) at alone h =
      (h.0, (tt, (h.1.1.0, λ settled. rebuilt cfg s.snapshot s.runtime h.1.0 h.0)))

  note-IsUpToDate :
      (us : List String) (s : System)
      → s.poller ≡ Poller.idle
      → IsUpToDate s
      → IsUpToDate (note_discovered us s)
  unfolding note_discovered
  note-IsUpToDate us s at h = elim (Bool-cases (same_list us s.runtime.discovered)) [
    | inl same ↦ rw (same, note_discovered) h
    | inr new ↦
        rw (new, note_discovered)
          (h.0, (h.1.0, (tt, λ settled. absurd (unsettled s.watcher Poller.noted tt settled))))
  ]

  poll-IsUpToDate :
      (answer : Lookup) (s : System)
      → s.poller ≡ Poller.idle
      → IsUpToDate s
      → IsUpToDate (poll answer s)
  unfolding poll
  poll-IsUpToDate (failed e) s at h = h
  poll-IsUpToDate (found []) s at h = h
  poll-IsUpToDate (found (u ∷ us)) s at h = elim (Bool-cases (same_list (u ∷ us) s.last)) [
    | inl same ↦ rw (same, poll) h
    | inr new ↦ rw (new, poll) (note-IsUpToDate (u ∷ us) (record s { last = u ∷ us }) at h)
  ]

  poller_step-IsUpToDate :
      (answer : Lookup) (s : System) (p : Poller)
      → s.poller ≡ p
      → Holds s.snapshot s.runtime s.watcher p
      → IsUpToDate (poller_step answer p s)
  unfolding poller_step
  poller_step-IsUpToDate answer s Poller.idle at h = poll-IsUpToDate answer s at (rw at h)
  poller_step-IsUpToDate answer s Poller.noted at h = (
    h.0,
    (
      h.1.0,
      (refl, λ settled. absurd (unsettled s.watcher (Poller.applying s.snapshot) tt settled)),
    ),
  )
  poller_step-IsUpToDate answer s (Poller.applying cfg) at h =
      (h.0, (h.1.0, (tt, λ settled. rebuilt cfg s.snapshot s.runtime h.1.1.0 h.0)))

  module _ (intn : ℕ → ℕ) (sum32 : String → ℕ) where
    -- The event is no swap of the configuration between the poller's load of it and its rebuild.
    abbrev pub IsCalm : Event → System → Type 0
    IsCalm (watcher_turn file) s = leaves_alone s.watcher s.poller ≡ true
    IsCalm _ s = Unit {0}

    step-IsUpToDate :
        (e : Event) (s : System)
        → IsCalm e s
        → IsUpToDate s
        → IsUpToDate (step scheme unresolved getenv atoi hostname intn sum32 e s)
    unfolding step state_writer swappable_of
    step-IsUpToDate (watcher_turn file) s calm h =
        watcher_step-IsUpToDate file s s.watcher refl calm h
    step-IsUpToDate (poller_turn answer) s calm h = poller_step-IsUpToDate answer s s.poller refl h
    step-IsUpToDate (demand d) s calm h = (
      h.0,
      (
        h.1.0,
        (
          h.1.1.0,
          λ settled.
              Routed-SamePool (merge_entries s.snapshot.backends s.runtime.discovered)
                s.runtime.current (meet intn sum32 d (swappable_of s)).1.current
                (meet-SamePool intn sum32 d (swappable_of s)) (h.1.1.1 settled),
        ),
      ),
    )
    step-IsUpToDate (probed b healthy) s calm h = h
    step-IsUpToDate (gossip now msg) s calm h = h

    -- Each event of the schedule is calm where it happens.
    abbrev pub AllCalm : List Event → System → Type 0
    AllCalm [] s = Unit {0}
    AllCalm (e ∷ es) s =
        IsCalm e s × AllCalm es (step scheme unresolved getenv atoi hostname intn sum32 e s)

    run-keeps :
        (es : List Event) (s : System)
        → AllCalm es s
        → IsUpToDate s
        → IsUpToDate (run scheme unresolved getenv atoi hostname intn sum32 es s)
    unfolding run
    run-keeps [] s calm h = h
    run-keeps (e ∷ es) s calm h = run-keeps es _ calm.1 (step-IsUpToDate e s calm.0 h)

    -- Start the program with a configuration that startCommand accepts, and let reloads, discovery,
    -- probes, gossip and requests come in any order, in which no reload swaps the configuration
    -- between the discovery loop's load of it and its rebuild. Whenever neither goroutine is about
    -- to rebuild, the current generation lists exactly the backends that the configuration in force
    -- and the last discovered list make together, and its balancer chooses from all of these and
    -- from no others, unless they make an empty pool.
    pub run-Routed :
        (file : Option Config) (cfg : Config) (first : Lookup) (node : Option Node)
        (es : List Event)
        → start_config scheme unresolved getenv atoi hostname file ≡ some cfg
        → AllCalm es (started cfg first node)
        → Settled
            (run scheme unresolved getenv atoi hostname intn sum32 es (started cfg first node))
        → RoutesCurrent
            (run scheme unresolved getenv atoi hostname intn sum32 es (started cfg first node))
    unfolding started
    run-Routed file cfg first node es accepted calm settled =
        let ready : Ready cfg =
          start_config-IsReady scheme unresolved getenv atoi hostname file cfg accepted in
        let primed : Runtime = start_discovery first empty_runtime in
        (run-keeps es (started cfg first node) calm
            (ready, (tt, (tt, λ s. rebuilt cfg cfg primed refl ready)))).1.1.1
          settled
