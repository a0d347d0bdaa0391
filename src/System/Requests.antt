-- ===== src/System/Requests.antt =====
-- Requests come to backends of the configuration in force and of discovery, and to no others.
use haribon.Prelude.{
  ℕ, ◌≡◌, ◌≢◌, ap, ◌∙◌, inl, inr, String, Bool, false, Option, some, List, ◌∷◌, ℤ, contains,
}
use haribon.Balancer.Types.{BackendEntry, urls}
use haribon.Balancer.Chosen.{Avoids, candidates, pick-Avoids, pick_for_ip-Avoids}
use haribon.Balancer.Members.{Each-other}
use haribon.Cluster.Defs.{Node}
use haribon.Config.{Config}
use haribon.Config.Snapshot.{start_config}
use haribon.Discovery.{Lookup}
use haribon.Engine.{Engine, checker_available, merge_entries}
use haribon.Engine.Swappable.{Swappable, checker_of, swappable_next, swappable_next_for_ip}
use haribon.Engine.Demands.{
  Demand, route, readiness, route_ip, question, done, success, failure, meet,
}
use haribon.System.{System, Event, swappable_of, run, started}
use haribon.System.Current.{AllCalm, Settled, RoutesCurrent, run-Routed}

-- What the configuration in force and the last discovered list make together.
abbrev pub current_pool : System → List BackendEntry
current_pool s = merge_entries s.snapshot.backends s.runtime.discovered

module _ (intn : ℕ → ℕ) (sum32 : String → ℕ) where
  meet-Avoids :
      (d : Demand) (s : Swappable) (e : Engine) (u : String)
      → s.current ≡ some e
      → contains (candidates e.bal) u ≡ false
      → Avoids u (meet intn sum32 d s).0
  unfolding meet swappable_next swappable_next_for_ip
  meet-Avoids (route now) s e u cur out =
      rw cur
        (pick-Avoids (checker_available now) (λ c. Unit {0}) u (λ v. v ≢ u) (λ v c p. tt)
          (λ v c other p free. other) intn sum32 e.bal (checker_of s e)
          (Each-other u (candidates e.bal) out) tt).0
  meet-Avoids (route_ip now ip) s e u cur out =
      rw cur
        (pick_for_ip-Avoids (checker_available now) (λ c. Unit {0}) u (λ v. v ≢ u) (λ v c p. tt)
          (λ v c other p free. other) intn sum32 e.bal ip (checker_of s e)
          (Each-other u (candidates e.bal) out) tt).0
  meet-Avoids (readiness now) s e u cur out = tt
  meet-Avoids (question now b) s e u cur out = tt
  meet-Avoids (done b) s e u cur out = tt
  meet-Avoids (success b) s e u cur out = tt
  meet-Avoids (failure now b) s e u cur out = tt

module _ (scheme : String → Option String) (unresolved : String → Bool) (getenv : String → String)
    (atoi : String → Option ℤ) (hostname : Option String) (intn : ℕ → ℕ) (sum32 : String → ℕ) where
  routed-Avoids :
      (d : Demand) (s : System) (u : String) (b : BackendEntry) (bs : List BackendEntry)
      → RoutesCurrent s
      → current_pool s ≡ b ∷ bs
      → contains (urls (b ∷ bs)) u ≡ false
      → Avoids u (meet intn sum32 d (swappable_of s)).0
  unfolding swappable_of
  routed-Avoids d s u b bs (inl empty) pool out = cc
  routed-Avoids d s u b bs (inr (e, cur, (listed, chosen))) pool out =
      meet-Avoids intn sum32 d (swappable_of s) e u cur
        (chosen u ∙ (ap (λ p. contains (urls p) u) pool ∙ out))

  -- The program after a schedule.
  abbrev pub after : Config → Lookup → Option Node → List Event → System
  after cfg first node es =
      run scheme unresolved getenv atoi hostname intn sum32 es (started cfg first node)

  -- Start the program with a configuration that startCommand accepts and run any schedule in which no
  -- reload swaps the configuration between the discovery loop's load of it and its rebuild. When
  -- neither goroutine is about to rebuild, and the configuration in force and the last discovered
  -- list make a pool that is not empty, no request picks a backend outside this pool.
  pub request-Avoids :
      (file : Option Config) (cfg : Config) (first : Lookup) (node : Option Node) (es : List Event)
      (d : Demand) (u : String) (b : BackendEntry) (bs : List BackendEntry)
      → start_config scheme unresolved getenv atoi hostname file ≡ some cfg
      → AllCalm scheme unresolved getenv atoi hostname intn sum32 es (started cfg first node)
      → Settled (after cfg first node es)
      → current_pool (after cfg first node es) ≡ b ∷ bs
      → contains (urls (b ∷ bs)) u ≡ false
      → Avoids u (meet intn sum32 d (swappable_of (after cfg first node es))).0
  request-Avoids file cfg first node es d u b bs accepted calm settled pool out =
      routed-Avoids d _ u b bs
        (run-Routed scheme unresolved getenv atoi hostname intn sum32 file cfg first node es
          accepted calm settled)
        pool out
