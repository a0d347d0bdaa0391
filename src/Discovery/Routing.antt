-- ===== src/Discovery/Routing.antt =====
-- What the program routes by after the answers of discovery.
use haribon.Prelude.{◌≡◌, sym, subst, String, Option, List, [], ◌∷◌, ℤ, Bool, Bool-cases, inl, inr}
use haribon.Config.{Config}
use haribon.Config.Snapshot.Ready.{IsReady}
use haribon.Engine.{Runtime, merge_entries, rebuild}
use haribon.Engine.Accepted.{Routed, rebuild-Routed}
use haribon.Engine.Swappable.{on_discovery, same_list}
use haribon.Discovery.{Lookup, deliver, discover_all, start_discovery, watch_loop}
use haribon.Discovery.Tracking.{last_good, rebuild-discovered, discover_all-discovered}

-- The generation is that of the configuration and of the list that the runtime holds.
abbrev Follows : Config → Runtime → Type 0
Follows cfg rt = Routed (merge_entries cfg.backends rt.discovered) rt.current

module _ (scheme : String → Option String) (unresolved : String → Bool) (getenv : String → String)
    (atoi : String → Option ℤ) (hostname : Option String) where
  rebuild-Follows :
      (cfg : Config) (rt : Runtime)
      → IsReady scheme unresolved getenv atoi hostname cfg
      → Follows cfg (rebuild cfg rt)
  rebuild-Follows cfg rt ready =
      subst (λ us. Routed (merge_entries cfg.backends us) (rebuild cfg rt).current)
        (sym (rebuild-discovered cfg rt))
        (rebuild-Routed scheme unresolved getenv atoi hostname cfg rt ready)

  on_discovery-Follows :
      (cfg : Config) (us : List String) (rt : Runtime)
      → IsReady scheme unresolved getenv atoi hostname cfg
      → Follows cfg rt
      → Follows cfg (on_discovery cfg us rt)
  unfolding on_discovery
  on_discovery-Follows cfg us rt ready h = elim (Bool-cases (same_list us rt.discovered)) [
    | inl same ↦ rw (same, on_discovery) h
    | inr new ↦ rw (new, on_discovery) (rebuild-Follows cfg (record rt { discovered = us }) ready)
  ]

  deliver-Follows :
      (cfg : Config) (lists : List (List String)) (rt : Runtime)
      → IsReady scheme unresolved getenv atoi hostname cfg
      → Follows cfg rt
      → Follows cfg (deliver cfg lists rt)
  unfolding deliver
  deliver-Follows cfg [] rt ready h = h
  deliver-Follows cfg (us ∷ lists) rt ready h =
      deliver-Follows cfg lists (on_discovery cfg us rt) ready
        (on_discovery-Follows cfg us rt ready h)

  -- With a configuration that has been checked and completed, after the first lookup and any number
  -- of polls, whatever they answered, the runtime holds the last answer that named a backend, and its
  -- generation lists exactly the backends that the configuration and this answer make together, with
  -- a balancer that chooses from all of these and from no others, unless they make an empty pool:
  -- errors and empty answers change nothing, and although the loop leaves out what it delivered last,
  -- no change is lost.
  pub discover_all-Routed :
      (cfg : Config) (first : Lookup) (ticks : List Lookup) (rt : Runtime)
      → IsReady scheme unresolved getenv atoi hostname cfg
      → ((discover_all cfg first ticks rt).discovered ≡ last_good (first ∷ ticks) rt.discovered)
        × Routed
            (merge_entries cfg.backends (last_good (first ∷ ticks) rt.discovered))
            (discover_all cfg first ticks rt).current
  unfolding discover_all
  discover_all-Routed cfg first ticks rt ready =
      let held = discover_all-discovered cfg first ticks rt in
      let primed = start_discovery first rt in
      (
        held,
        subst
            (λ us. Routed (merge_entries cfg.backends us) (discover_all cfg first ticks rt).current)
            held
            (deliver-Follows cfg (watch_loop ticks []) (rebuild cfg primed) ready
              (rebuild-Follows cfg primed ready)),
      )
