-- ===== src/Config/Accepted.antt =====
-- What an accepted configuration is sure to have.
use haribon.Prelude.{
  ℕ, suc, ◌≡◌, refl, String, Bool, true, false, not, ◌&&◌, ◌||◌, Option, none, some, List, [], ◌∷◌,
  contains, str_eq, pos, ltb_ℤ, arith, eq_iff, Bool-cases, inl, inr,
}
use haribon.Config.{
  Backend, Config, ConfigError, DiscoveryConfig, fail_if, bad_port, valid_strategies,
  valid_exporters, check_exporters, check_discovery, check_url, check_backends, validate,
}

not_failed :
    (b : Bool) (e : ConfigError) (rest : Option ConfigError)
    → fail_if b e rest ≡ none
    → (b ≡ false) × (rest ≡ none)
not_failed b e rest h = ground arith

-- Each exporter is one of the known ones.
abbrev pub KnownExporters : List String → Type 0
KnownExporters [] = Unit {0}
KnownExporters (ex ∷ exs) = (contains valid_exporters ex ≡ true) × KnownExporters exs

check_exporters-none :
    (exs : List String) (rest : Option ConfigError)
    → check_exporters exs rest ≡ none
    → KnownExporters exs × (rest ≡ none)
unfolding check_exporters
check_exporters-none [] rest h = (tt, h)
check_exporters-none (ex ∷ exs) rest h =
    let (known, more) = not_failed (not (contains valid_exporters ex)) _ _ h in
    let (others, last) = check_exporters-none exs rest more in ((ground arith, others), last)

check_discovery-none :
    (cfg : Config) (rest : Option ConfigError) → check_discovery cfg rest ≡ none → rest ≡ none
unfolding check_discovery
check_discovery-none cfg rest h = ground arith

-- A discovery provider that the factory makes: DNS has a name, and a file a path.
abbrev pub GoodDiscovery : DiscoveryConfig → Type 0
GoodDiscovery d =
    ((str_eq d.provider "dns" && str_eq d.dns_name "") ≡ false)
    × ((str_eq d.provider "file" && str_eq d.file_path "") ≡ false)

check_discovery-GoodDiscovery :
    (cfg : Config) (rest : Option ConfigError)
    → check_discovery cfg rest ≡ none
    → GoodDiscovery cfg.discovery
unfolding check_discovery
check_discovery-GoodDiscovery cfg rest h = elim (Bool-cases (str_eq cfg.discovery.provider "")) [
  | inl unset ↦
      let empty : cfg.discovery.provider ≡ "" = (eq_iff _ _).0 unset in rw empty (refl, refl)
  | inr set ↦ (ground (arith, h, set), ground (arith, h, set))
]

module _ (scheme : String → Option String) (unresolved : String → Bool) where
  -- Each host parses with the scheme http or https and is not empty, and no weight is negative.
  abbrev pub GoodBackends : List Backend → Type 0
  GoodBackends [] = Unit {0}
  GoodBackends (b ∷ bs) =
      (str_eq b.host "" ≡ false)
      × ((s : String) × (scheme b.host ≡ some s) × ((str_eq s "http" || str_eq s "https") ≡ true))
      × (ltb_ℤ b.weight (pos 0) ≡ false)
      × GoodBackends bs

  check_url-none :
      (i : ℕ) (o : Option String) (rest : Option ConfigError)
      → check_url scheme unresolved i o rest ≡ none
      → ((s : String) × (o ≡ some s) × ((str_eq s "http" || str_eq s "https") ≡ true))
        × (rest ≡ none)
  unfolding check_url
  check_url-none i none rest h = absurd (ground arith)
  check_url-none i (some s) rest h =
      let (fine, more) = not_failed (not (str_eq s "http") && not (str_eq s "https")) _ _ h in
      ((s, refl, ground arith), more)

  check_backends-none :
      (i : ℕ) (bs : List Backend) (rest : Option ConfigError)
      → check_backends scheme unresolved i bs rest ≡ none
      → GoodBackends bs × (rest ≡ none)
  unfolding check_backends
  check_backends-none i [] rest h = (tt, h)
  check_backends-none i (b ∷ bs) rest h =
      let (full, h1) = not_failed _ _ _ h in
      let (url, h2) = check_url-none i (scheme b.host) _ h1 in
      let (weight, h3) = not_failed _ _ _ h2 in
      let (others, h4) = check_backends-none (suc i) bs rest h3 in ((full, url, weight, others), h4)

  -- A configuration that Validate accepts has backends or a discovery provider; each backend has an
  -- http or https URL and no negative weight; the port is 0 or in 1..65535; the strategy is empty or
  -- one that the factory knows; every exporter is known; and a clustered node has a resolved name.
  pub validate-accepted :
      (cfg : Config)
      → validate scheme unresolved cfg ≡ none
      → (((elim cfg.backends [ [] ↦ true | b ∷ bs ↦ false ]) && str_eq cfg.discovery.provider "")
          ≡ false)
        × GoodBackends cfg.backends
        × (bad_port cfg.main_port ≡ false)
        × ((str_eq cfg.balancer.strategy "" || contains valid_strategies cfg.balancer.strategy)
            ≡ true)
        × KnownExporters cfg.exporters
        × ((cfg.cluster.enabled && unresolved cfg.cluster.node_id) ≡ false)
  unfolding validate
  validate-accepted cfg h =
      let (some_pool, h1) = not_failed _ _ _ h in
      let (good, h2) = check_backends-none 0 cfg.backends _ h1 in
      let h3 = check_discovery-none cfg _ h2 in
      let (port, h4) = not_failed _ _ _ h3 in
      let (strategy, h5) =
        not_failed
          (not (str_eq cfg.balancer.strategy "")
            && not (contains valid_strategies cfg.balancer.strategy))
          _ _ h4 in
      let (format, h6) = not_failed _ _ _ h5 in
      let (known, h7) = check_exporters-none cfg.exporters _ h6 in
      let (named, h8) = not_failed _ _ _ h7 in
      (some_pool, good, port, ground (arith, strategy), known, named)

  pub validate-GoodDiscovery :
      (cfg : Config) → validate scheme unresolved cfg ≡ none → GoodDiscovery cfg.discovery
  unfolding validate
  validate-GoodDiscovery cfg h =
      let (some_pool, h1) = not_failed _ _ _ h in
      let (good, h2) = check_backends-none 0 cfg.backends _ h1 in
      check_discovery-GoodDiscovery cfg _ h2
