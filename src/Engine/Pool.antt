-- ===== src/Engine/Pool.antt =====
-- The pool that configuration and discovery make together.
use haribon.Prelude.{
  ◌≡◌, String, false, ◌||◌, Option, none, some, List, [], ◌∷◌, contains, str_eq, ℤ, pos, arith,
  if◌then◌else◌, eq_iff, Bool-cases, inl, inr,
}
use haribon.Balancer.Types.{BackendEntry}
use haribon.Config.{Backend}
use haribon.Engine.Defs.{add_discovered, add_configured, merge_entries}

-- The weight of the first entry with the URL.
abbrev pub weight_of : List BackendEntry → String → Option ℤ
weight_of [] u = none
weight_of (e ∷ es) u = if str_eq e.url u then some e.weight else weight_of es u

-- The weight of the first configured backend with the host.
abbrev pub configured_weight : List Backend → String → Option ℤ
configured_weight [] u = none
configured_weight (b ∷ bs) u = if str_eq b.host u then some b.weight else configured_weight bs u

abbrev pub or_else : Option ℤ → Option ℤ → Option ℤ
or_else none o = o
or_else (some z) o = some z

abbrev pub discovered_weight : List String → String → Option ℤ
discovered_weight us u = if contains us u then some (pos 1) else none

-- No URL is empty, and none is in the list or twice in the pool.
abbrev pub Fresh : List String → List BackendEntry → Type 0
Fresh seen [] = Unit {0}
Fresh seen (e ∷ es) =
    (str_eq e.url "" ≡ false) × (contains seen e.url ≡ false) × Fresh (e.url ∷ seen) es

add_discovered-Fresh : (us seen : List String) → Fresh seen (add_discovered us seen)
unfolding add_discovered
add_discovered-Fresh [] seen = tt
add_discovered-Fresh (u ∷ us) seen = elim (Bool-cases (str_eq u "" || contains seen u)) [
  | inl skip ↦ rw (skip, Fresh) (add_discovered-Fresh us seen)
  | inr new ↦ rw (new, Fresh) (ground arith, ground arith, add_discovered-Fresh us (u ∷ seen))
]

add_configured-Fresh :
    (bs : List Backend) (us seen : List String) → Fresh seen (add_configured bs us seen)
unfolding add_configured
add_configured-Fresh [] us seen = add_discovered-Fresh us seen
add_configured-Fresh (b ∷ bs) us seen =
    elim (Bool-cases (str_eq b.host "" || contains seen b.host)) [
      | inl skip ↦ rw (skip, Fresh) (add_configured-Fresh bs us seen)
      | inr new ↦
          rw (new, Fresh) (ground arith, ground arith, add_configured-Fresh bs us (b.host ∷ seen))
    ]

weight-add_discovered :
    (us seen : List String) (u : String)
    → weight_of (add_discovered us seen) u
      ≡ (if str_eq u "" || contains seen u then none else discovered_weight us u)
unfolding add_discovered
weight-add_discovered [] seen u = ground arith
weight-add_discovered (v ∷ us) seen u = elim (Bool-cases (str_eq v "" || contains seen v)) [
  | inl skip ↦ rw (skip, weight_of) (ground (arith, weight-add_discovered us seen u, eq_iff v u))
  | inr new ↦
      rw (new, weight_of) (ground (arith, weight-add_discovered us (v ∷ seen) u, eq_iff v u))
]

weight-add_configured :
    (bs : List Backend) (us seen : List String) (u : String)
    → weight_of (add_configured bs us seen) u ≡ (
        if str_eq u "" || contains seen u
        then none
        else or_else (configured_weight bs u) (discovered_weight us u))
unfolding add_configured
weight-add_configured [] us seen u = weight-add_discovered us seen u
weight-add_configured (b ∷ bs) us seen u =
    elim (Bool-cases (str_eq b.host "" || contains seen b.host)) [
      | inl skip ↦
          rw (skip, weight_of) (ground (arith, weight-add_configured bs us seen u, eq_iff b.host u))
      | inr new ↦
          rw (new, weight_of)
            (ground (arith, weight-add_configured bs us (b.host ∷ seen) u, eq_iff b.host u))
    ]

-- The merged pool holds no empty URL and no URL twice, and holds a URL exactly if the configuration
-- or discovery names it: with the weight of the configuration's first entry for it, and with weight
-- one if only discovery names it.
pub weight-merge_entries :
    (cfg_backends : List Backend) (discovered : List String) (u : String)
    → Fresh [] (merge_entries cfg_backends discovered)
      × (weight_of (merge_entries cfg_backends discovered) u ≡ (
          if str_eq u ""
          then none
          else or_else (configured_weight cfg_backends u) (discovered_weight discovered u)))
unfolding merge_entries
weight-merge_entries bs us u =
    (add_configured-Fresh bs us [], ground (arith, weight-add_configured bs us [] u))
