-- ===== src/Engine/Accepted.antt =====
-- An accepted configuration always leads to a new generation.
use haribon.Prelude.{
  ◌⊎◌, ◌≡◌, refl, subst, String, Bool, true, false, ◌||◌, Option, some, List, [], ◌∷◌, ◌++◌, str_eq,
  eq_iff, contains, ℤ, pos, negsuc, ltb_ℤ, arith, Bool-cases, inl, inr,
}
use haribon.Balancer.Types.{BackendEntry, ok, urls}
use haribon.Balancer.WeightedRoundRobin.{slots_of, expand, new_weighted_round_robin}
use haribon.Balancer.Factory.{
  Balancer, new_balancer, map_result, new_round_robin, new_random, new_ip_hash, round_robin,
  weighted, least_conn, random, ip_hash,
}
use haribon.Balancer.LeastConnections.{new_least_connections}
use haribon.Config.{Backend, Config, valid_strategies}
use haribon.Config.Accepted.{GoodBackends}
use haribon.Config.Snapshot.Ready.{IsReady}
use haribon.Engine.Defs.{
  Engine, Runtime, add_discovered, add_configured, merge_entries, next_engine, publish, rebuild,
}
use haribon.Engine.Rebuild.{RoutesTo, next_engine-RoutesTo}

-- No weight is negative.
abbrev NonNegative : List BackendEntry → Type 0
NonNegative [] = Unit {0}
NonNegative (e ∷ es) = (ltb_ℤ e.weight (pos 0) ≡ false) × NonNegative es

add_discovered-NonNegative : (us seen : List String) → NonNegative (add_discovered us seen)
unfolding add_discovered
add_discovered-NonNegative [] seen = tt
add_discovered-NonNegative (u ∷ us) seen = elim (Bool-cases (str_eq u "" || contains seen u)) [
  | inl skip ↦ rw (skip, NonNegative) (add_discovered-NonNegative us seen)
  | inr new ↦ rw (new, NonNegative) (refl, add_discovered-NonNegative us (u ∷ seen))
]

expand-ok :
    (slots : List String) (bs : List BackendEntry)
    → NonNegative bs
    → (l : List String) × (expand slots bs ≡ ok l)
unfolding expand
expand-ok slots [] h = (slots, refl)
expand-ok slots (b ∷ bs) h = go b.weight refl h.0 (λ more. expand-ok more bs h.1)
  where
    go :
        (z : ℤ)
        → b.weight ≡ z
        → ltb_ℤ b.weight (pos 0) ≡ false
        → ((more : List String) → (l : List String) × (expand more bs ≡ ok l))
        → (l : List String) × (expand slots (b ∷ bs) ≡ ok l)
    go (pos w) e n ih = let (l, same) = ih (slots ++ slots_of b.url w) in (l, rw (e, expand) same)
    go (negsuc w) e n ih = absurd (ground arith)

weighted-ok :
    (b : BackendEntry) (bs : List BackendEntry)
    → NonNegative (b ∷ bs)
    → (bal : Balancer) × (map_result weighted (new_weighted_round_robin (b ∷ bs)) ≡ ok bal)
unfolding new_weighted_round_robin
weighted-ok b bs h =
    let (l, e) = expand-ok [] (b ∷ bs) h in
    (weighted (record { slots = l; counter = 0 }), rw (e, new_weighted_round_robin) refl)

abbrev Made : BackendEntry → List BackendEntry → String → Type 0
Made b bs s = (bal : Balancer) × (new_balancer s (b ∷ bs) ≡ ok bal)

new_balancer-ok :
    (strategy : String) (b : BackendEntry) (bs : List BackendEntry)
    → contains valid_strategies strategy ≡ true
    → NonNegative (b ∷ bs)
    → Made b bs strategy
unfolding new_balancer new_round_robin new_random new_ip_hash new_least_connections
new_balancer-ok s b bs known h = elim (Bool-cases (str_eq "round_robin" s)) [
  | inl e ↦ subst (Made b bs) ((eq_iff _ _).0 e) (round_robin _, refl)
  | inr n1 ↦ elim (Bool-cases (str_eq "weighted_round_robin" s)) [
    | inl e ↦ subst (Made b bs) ((eq_iff _ _).0 e) (weighted-ok b bs h)
    | inr n2 ↦ elim (Bool-cases (str_eq "least_connections" s)) [
      | inl e ↦ subst (Made b bs) ((eq_iff _ _).0 e) (least_conn _, refl)
      | inr n3 ↦ elim (Bool-cases (str_eq "random" s)) [
        | inl e ↦ subst (Made b bs) ((eq_iff _ _).0 e) (random _, refl)
        | inr n4 ↦ elim (Bool-cases (str_eq "ip_hash" s)) [
          | inl e ↦ subst (Made b bs) ((eq_iff _ _).0 e) (ip_hash _, refl)
          | inr n5 ↦ absurd (ground arith)
        ]
      ]
    ]
  ]
]

publish-ok :
    (cfg : Config) (b : BackendEntry) (bs : List BackendEntry) (rt : Runtime)
    → Made b bs cfg.balancer.strategy
    → (e : Engine) × ((publish cfg (b ∷ bs) rt).current ≡ some e) × RoutesTo (b ∷ bs) e
unfolding publish
publish-ok cfg b bs rt (bal, made) = (
  next_engine cfg (urls (b ∷ bs)) bal rt.current,
  rw (made, publish) refl,
  next_engine-RoutesTo cfg b bs bal rt.current made,
)

-- The current generation lists the pool and chooses from it, unless there is nobody to route to.
abbrev pub Routed : List BackendEntry → Option Engine → Type 0
Routed pool current = (pool ≡ []) ⊎ ((e : Engine) × (current ≡ some e) × RoutesTo pool e)

publish-Routed :
    (cfg : Config) (pool : List BackendEntry) (rt : Runtime)
    → contains valid_strategies cfg.balancer.strategy ≡ true
    → NonNegative pool
    → Routed pool (publish cfg pool rt).current
publish-Routed cfg [] rt known h = inl refl
publish-Routed cfg (b ∷ bs) rt known h =
    inr (publish-ok cfg b bs rt (new_balancer-ok cfg.balancer.strategy b bs known h))

module _ (scheme : String → Option String) (unresolved : String → Bool) (getenv : String → String)
    (atoi : String → Option ℤ) (hostname : Option String) where
  add_configured-NonNegative :
      (bs : List Backend) (us seen : List String)
      → GoodBackends scheme unresolved bs
      → NonNegative (add_configured bs us seen)
  unfolding add_configured
  add_configured-NonNegative [] us seen h = add_discovered-NonNegative us seen
  add_configured-NonNegative (b ∷ bs) us seen h =
      elim (Bool-cases (str_eq b.host "" || contains seen b.host)) [
        | inl skip ↦ rw (skip, NonNegative) (add_configured-NonNegative bs us seen h.3)
        | inr new ↦
            rw (new, NonNegative) (h.2, add_configured-NonNegative bs us (b.host ∷ seen) h.3)
      ]

  -- A rebuild from a configuration in force that names a backend never keeps the previous
  -- generation: it always publishes a new one, which routes to the merged pool.
  pub rebuild-publishes :
      (cfg : Config) (b : Backend) (bs : List Backend) (rt : Runtime)
      → IsReady scheme unresolved getenv atoi hostname cfg
      → cfg.backends ≡ b ∷ bs
      → (e : Engine) × ((rebuild cfg rt).current ≡ some e)
        × RoutesTo (merge_entries cfg.backends rt.discovered) e
  unfolding rebuild merge_entries add_configured
  rebuild-publishes cfg b bs rt h e =
      let good : GoodBackends scheme unresolved (b ∷ bs) =
        subst (GoodBackends scheme unresolved) e h.backends_good in
      let first : BackendEntry = record { url = b.host; weight = b.weight } in
      let more : List BackendEntry = add_configured bs rt.discovered (b.host ∷ []) in
      let pool : merge_entries cfg.backends rt.discovered ≡ first ∷ more =
        rw e (rw (good.0, add_configured) refl) in
      rw pool (
        publish-ok cfg first more rt (
          new_balancer-ok cfg.balancer.strategy first more h.strategy_known
            (good.2, add_configured-NonNegative bs rt.discovered (b.host ∷ []) good.3)))

  pub rebuild-Routed :
      (cfg : Config) (rt : Runtime)
      → IsReady scheme unresolved getenv atoi hostname cfg
      → Routed (merge_entries cfg.backends rt.discovered) (rebuild cfg rt).current
  unfolding rebuild merge_entries
  rebuild-Routed cfg rt h =
      publish-Routed cfg (merge_entries cfg.backends rt.discovered) rt h.strategy_known
        (add_configured-NonNegative cfg.backends rt.discovered [] h.backends_good)
