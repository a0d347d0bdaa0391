-- ===== src/System/Overtaken.antt =====
-- A reload that comes between the discovery loop's load of the configuration and its rebuild.
use haribon.Prelude.{
  ℕ, zero, suc, ◌≡◌, refl, sym, ap, subst, ◌∙◌, String, Bool, true, false, Option, none, List, [],
  ◌∷◌, ℤ, replicate,
}
use haribon.Prelude.{eq_refl}
use haribon.Cluster.Defs.{Node}
use haribon.Config.{Config}
use haribon.Config.Snapshot.{reload}
use haribon.Config.Snapshot.Ready.{IsReady}
use haribon.Discovery.{found}
use haribon.Discovery.Tracking.{rebuild-discovered}
use haribon.Engine.{Runtime, merge_entries, rebuild}
use haribon.Engine.Accepted.{Routed, rebuild-Routed}
use haribon.Engine.Swappable.{same_list}
use haribon.System.{
  System, Watcher, Poller, Event, watcher_turn, poller_turn, swapped, watcher_step, poll,
  note_discovered, poller_step, step, run,
}
use haribon.System.Current.{Settled}

-- The list is noted, the configuration loaded; the watcher swaps it and rebuilds; then the poller does.
abbrev pub overtaking : List String → Option Config → List Event
overtaking us file =
    poller_turn (found us)
    ∷ poller_turn (found us)
    ∷ watcher_turn file
    ∷ watcher_turn none
    ∷ poller_turn (found us)
    ∷ []

-- Nobody is about to rebuild, one configuration is in force, and the routing is that of another.
abbrev pub Undone : Config → Config → List String → System → Type 0
Undone old new us s =
    Settled s × ((s.snapshot ≡ new) × Routed (merge_entries old.backends us) s.runtime.current)

same_list_refl : (us : List String) → same_list us us ≡ true
unfolding same_list
same_list_refl [] = refl
same_list_refl (u ∷ us) = rw (eq_refl u, same_list_refl us) refl

-- The state with the configuration, the runtime and the list replaced, and both goroutines waiting.
abbrev pub resting : Config → Runtime → Option Node → List String → System
resting snap rt member last = record {
  snapshot = snap;
  runtime = rt;
  node = member;
  last = last;
  watcher = Watcher.idle;
  poller = Poller.idle;
}

noted-poll :
    (snap : Config) (rt : Runtime) (member : Option Node) (last : List String) (u : String)
    (us : List String)
    → same_list (u ∷ us) last ≡ false
    → same_list (u ∷ us) rt.discovered ≡ false
    → poll (found (u ∷ us)) (resting snap rt member last)
      ≡ record (resting snap (record rt { discovered = u ∷ us }) member (u ∷ us)) {
        poller = Poller.noted;
      }
unfolding poll note_discovered
noted-poll snap rt member last u us fresh changed =
    rw (fresh, poll) (rw (changed, note_discovered) refl)

-- Polls that find the list again, any number of them.
abbrev pub again : List String → ℕ → List Event
again us n = replicate n (poller_turn (found us))

module _ (scheme : String → Option String) (unresolved : String → Bool) (getenv : String → String)
    (atoi : String → Option ℤ) (hostname : Option String) (intn : ℕ → ℕ) (sum32 : String → ℕ) where
  abbrev after : List Event → System → System
  after es s = run scheme unresolved getenv atoi hostname intn sum32 es s

  run-overtaking :
      (snap new : Config) (rt : Runtime) (member : Option Node) (last : List String) (u : String)
      (us : List String) (file : Option Config)
      → same_list (u ∷ us) last ≡ false
      → same_list (u ∷ us) rt.discovered ≡ false
      → reload scheme unresolved getenv atoi hostname file snap ≡ (new, none)
      → after (overtaking (u ∷ us) file) (resting snap rt member last)
        ≡ resting new
            (rebuild snap (rebuild new (record rt { discovered = u ∷ us })))
            member
            (u ∷ us)
  unfolding run step poller_step watcher_step swapped
  run-overtaking snap new rt member last u us file fresh changed swaps =
      ap
        (after (
          poller_turn (found (u ∷ us))
          ∷ watcher_turn file
          ∷ watcher_turn none
          ∷ poller_turn (found (u ∷ us))
          ∷ []))
        (noted-poll snap rt member last u us fresh changed)
      ∙ ap
          (λ r. after (watcher_turn none ∷ poller_turn (found (u ∷ us)) ∷ []) (
            swapped scheme unresolved getenv atoi hostname r
              (record (resting snap (record rt { discovered = u ∷ us }) member (u ∷ us)) {
                poller = Poller.applying snap;
              })))
          swaps

  run-again :
      (snap : Config) (rt : Runtime) (member : Option Node) (u : String) (us : List String) (n : ℕ)
      → after (again (u ∷ us) n) (resting snap rt member (u ∷ us)) ≡ resting snap rt member (u ∷ us)
  unfolding run step poller_step poll
  run-again snap rt member u us zero = refl
  run-again snap rt member u us (suc n) =
      ap (after (again (u ∷ us) n)) (rw (same_list_refl (u ∷ us), poll) refl)
      ∙ run-again snap rt member u us n

  -- Where discovery finds a list that is new to its loop and to the runtime, a reload that swaps the
  -- configuration after the loop has loaded the old one, a checked and completed one, and that
  -- rebuilds before the loop does, is undone: both goroutines wait, the new configuration is in force,
  -- and the current generation lists what the old one and the discovered list make together, with a
  -- balancer that chooses from all of that and from nothing else, unless that is an empty pool. It
  -- stays so however often discovery finds that list again.
  pub reload_is_lost :
      (snap new : Config) (rt : Runtime) (member : Option Node) (last : List String) (u : String)
      (us : List String) (file : Option Config) (n : ℕ)
      → IsReady scheme unresolved getenv atoi hostname snap
      → same_list (u ∷ us) last ≡ false
      → same_list (u ∷ us) rt.discovered ≡ false
      → reload scheme unresolved getenv atoi hostname file snap ≡ (new, none)
      → Undone snap new (u ∷ us) (
          after (again (u ∷ us) n) (after (overtaking (u ∷ us) file) (resting snap rt member last)))
  reload_is_lost snap new rt member last u us file n ready fresh changed swaps =
      let mid = rebuild new (record rt { discovered = u ∷ us }) in
      let ends = resting new (rebuild snap mid) member (u ∷ us) in
      subst (Undone snap new (u ∷ us))
        (sym (
          ap (after (again (u ∷ us) n))
            (run-overtaking snap new rt member last u us file fresh changed swaps)
          ∙ run-again new (rebuild snap mid) member u us n))
        (
          refl,
          (
            refl,
            subst (λ l. Routed (merge_entries snap.backends l) ends.runtime.current)
                (rebuild-discovered new (record rt { discovered = u ∷ us }))
                (rebuild-Routed scheme unresolved getenv atoi hostname snap mid ready),
          ),
        )
