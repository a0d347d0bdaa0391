-- ===== src/Config/Snapshot/Ready.antt =====
-- Only configurations that have been checked and completed ever come into force.
use haribon.Prelude.{
  String, Bool, true, false, ◌||◌, ◌&&◌, ◌≡◌, refl, sym, subst, ◌⊎◌, Option, none, some, List, [],
  ◌∷◌, ℤ, contains, str_eq, Bool-cases, inl, inr, arith, some-injective,
}
use haribon.Config.{Config, ConfigError, valid_strategies, bad_port, validate}
use haribon.Config.Accepted.{GoodBackends, validate-accepted}
use haribon.Config.Defaults.{apply_env_overrides, defaults, or_text}
use haribon.Config.Defaults.Complete.{IsComplete, defaults-IsComplete}
use haribon.Config.Snapshot.{
  Snapshot, ReloadError, not_loaded, not_valid, notify, accept, reload, watch, checked,
  start_config,
}

known-or_text :
    (s : String)
    → (str_eq s "" || contains valid_strategies s) ≡ true
    → contains valid_strategies (or_text "round_robin" s) ≡ true
unfolding or_text
known-or_text s h = elim (Bool-cases (str_eq s "")) [
  | inl empty ↦ rw empty refl
  | inr full ↦ rw full (ground arith)
]

module _ (scheme : String → Option String) (unresolved : String → Bool) (getenv : String → String)
    (atoi : String → Option ℤ) (hostname : Option String) where
  -- A configuration that has been checked and completed.
  pub record IsReady (cfg : Config) : Type 0 where
    pub complete : IsComplete cfg
    pub strategy_known : contains valid_strategies cfg.balancer.strategy ≡ true
    pub backends_good : GoodBackends scheme unresolved cfg.backends
    pub port_good : bad_port cfg.main_port ≡ false
    pub some_pool :
        ((elim cfg.backends [ [] ↦ true | b ∷ bs ↦ false ]) && str_eq cfg.discovery.provider "")
        ≡ false

  pub accept-IsReady :
      (cfg : Config) → validate scheme unresolved cfg ≡ none → IsReady (defaults hostname cfg)
  unfolding defaults or_text
  accept-IsReady cfg h =
      let (pool, good, port, strategy, known, named) = validate-accepted scheme unresolved cfg h in
      record {
        complete = defaults-IsComplete hostname cfg;
        strategy_known = known-or_text cfg.balancer.strategy strategy;
        backends_good = good;
        port_good = port;
        some_pool = pool;
      }

  -- What Reload comes to: the old configuration and an error, or a ready one and none.
  abbrev pub Reloaded : Snapshot → Snapshot × Option ReloadError → Type 0
  Reloaded s after =
      ((after.0 ≡ s) × ((e : ReloadError) × (after.1 ≡ some e)))
      ⊎ (IsReady after.0 × (after.1 ≡ none))

  accept-Reloaded :
      (cfg : Config) (s : Snapshot) (o : Option ConfigError)
      → validate scheme unresolved cfg ≡ o
      → Reloaded s (accept scheme unresolved getenv atoi hostname cfg o s)
  unfolding accept
  accept-Reloaded cfg s none h = inr (accept-IsReady cfg h, refl)
  accept-Reloaded cfg s (some e) h = inl (refl, (not_valid e, refl))

  pub reload-Reloaded :
      (file : Option Config) (s : Snapshot)
      → Reloaded s (reload scheme unresolved getenv atoi hostname file s)
  unfolding reload
  reload-Reloaded none s = inl (refl, (not_loaded, refl))
  reload-Reloaded (some cfg) s =
      accept-Reloaded (apply_env_overrides getenv atoi cfg) s
        (validate scheme unresolved (apply_env_overrides getenv atoi cfg)) refl

  abbrev pub AllReady : List Config → Type 0
  AllReady [] = Unit {0}
  AllReady (cfg ∷ cfgs) = IsReady cfg × AllReady cfgs

  abbrev later : List (Option Config) → Snapshot → Snapshot × List Config
  later files s = watch scheme unresolved getenv atoi hostname files s

  notify-IsReady :
      (s : Snapshot)
      → IsReady s
      → (files : List (Option Config)) (after : Snapshot × Option ReloadError) → Reloaded s after
      → (IsReady after.0 → IsReady (later files after.0).0 × AllReady (later files after.0).1)
      → IsReady (later files after.0).0 × AllReady (notify after.1 after.0 (later files after.0).1)
  unfolding notify
  notify-IsReady s h files after (inl (same, (e, failed))) ih =
      let rest = ih (subst IsReady (sym same) h) in (rest.0, rw failed rest.1)
  notify-IsReady s h files after (inr (ready, ok)) ih =
      let rest = ih ready in (rest.0, rw ok (ready, rest.1))

  pub watch-IsReady :
      (files : List (Option Config)) (s : Snapshot)
      → IsReady s
      → IsReady (watch scheme unresolved getenv atoi hostname files s).0
        × AllReady (watch scheme unresolved getenv atoi hostname files s).1
  unfolding watch
  watch-IsReady [] s h = (h, tt)
  watch-IsReady (file ∷ files) s h =
      notify-IsReady s h files (reload scheme unresolved getenv atoi hostname file s)
        (reload-Reloaded file s)
        (watch-IsReady files (reload scheme unresolved getenv atoi hostname file s).0)

  checked-IsReady :
      (cfg : Config) (o : Option ConfigError) (s : Snapshot)
      → validate scheme unresolved cfg ≡ o
      → checked scheme unresolved getenv atoi hostname cfg o ≡ some s
      → IsReady s
  unfolding checked
  checked-IsReady cfg (some e) s h made = absurd cc
  checked-IsReady cfg none s h made =
      subst IsReady (some-injective (defaults hostname cfg) s made) (accept-IsReady cfg h)

  pub start_config-IsReady :
      (file : Option Config) (s : Snapshot)
      → start_config scheme unresolved getenv atoi hostname file ≡ some s
      → IsReady s
  unfolding start_config
  start_config-IsReady none s h = absurd cc
  start_config-IsReady (some cfg) s h =
      let cfg' = apply_env_overrides getenv atoi cfg in
      checked-IsReady cfg' (validate scheme unresolved cfg') s refl h

  -- If startCommand gets past its checks, then whatever the file holds at each later signal or tick,
  -- the configuration in force at the end, and every one that the routing is rebuilt from on the
  -- way, has been checked and completed: its strategy is known, its backends have http or https URLs
  -- and weights that are not negative, its port is one that Validate lets pass, it has backends or a
  -- discovery provider, and every setting that Defaults looks after has a value, the node's name
  -- aside.
  pub start_config-watch :
      (file : Option Config) (files : List (Option Config)) (s : Snapshot)
      → start_config scheme unresolved getenv atoi hostname file ≡ some s
      → IsReady (watch scheme unresolved getenv atoi hostname files s).0
        × AllReady (watch scheme unresolved getenv atoi hostname files s).1
  start_config-watch file files s h = watch-IsReady files s (start_config-IsReady file s h)
