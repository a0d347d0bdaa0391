-- ===== src/Engine/Swappable.antt =====
-- cli/engine.go: swappable, which passes each call on to the current generation, and OnDiscovery.
use haribon.Prelude.{ℕ, String, Bool, true, false, ◌&&◌, Option, none, some, List, [], ◌∷◌, str_eq}
use haribon.Prelude.Dict.{Dict}
use haribon.Health.Breaker.Defs.{record_success, record_failure}
use haribon.Cluster.Defs.{Node}
use haribon.Balancer.Types.{Pick, err_no_healthy_backend}
use haribon.Balancer.Factory.{Balancer, balancer_next, balancer_next_for_ip, balancer_done}
use haribon.Config.{Config}
use haribon.Engine.Defs.{Checker, checker_available, any_available, Engine, Runtime, rebuild}

-- The current generation, with the node and the health map that its checker reads.
pub record Swappable : Type 0 where
  pub current : Option Engine
  pub node : Option Node
  pub backend_health : Dict Bool

-- e.health
unfoldable pub checker_of : Swappable → Engine → Checker
checker_of s e = record {
  breaker = some e.breaker;
  node = s.node;
  backend_health = s.backend_health;
}

-- What a call leaves behind the pointers of the generation.
unfoldable pub leave : Swappable → Engine → Balancer → Checker → Swappable
leave s e bal c = record s {
  current =
      some (record e { bal = bal; breaker = elim c.breaker [ none ↦ e.breaker | some r ↦ r ] });
}

module _ (now : ℕ) (intn : ℕ → ℕ) (sum32 : String → ℕ) where
  -- func (s *swappable) Next
  unfoldable pub swappable_next : Swappable → Pick × Swappable
  unfolding checker_of leave balancer_next
  swappable_next s = elim s.current [
    | none ↦ (err_no_healthy_backend, s)
    | some e ↦
        (let (pick, left) =
            balancer_next (checker_available now) intn sum32 e.bal (checker_of s e) in
          (pick, leave s e left.0 left.1))
  ]

  -- func (s *swappable) NextForIP
  unfoldable pub swappable_next_for_ip : String → Swappable → Pick × Swappable
  unfolding checker_of leave balancer_next_for_ip
  swappable_next_for_ip client_ip s = elim s.current [
    | none ↦ (err_no_healthy_backend, s)
    | some e ↦
        (let (pick, left) =
            balancer_next_for_ip (checker_available now) intn sum32 e.bal client_ip
              (checker_of s e) in
          (pick, leave s e left.0 left.1))
  ]

-- func (s *swappable) Done
unfoldable pub swappable_done : String → Swappable → Swappable
unfolding balancer_done
swappable_done backend s = elim s.current [
  | none ↦ s
  | some e ↦ record s { current = some (record e { bal = balancer_done backend e.bal }) }
]

-- func (s *swappable) Backends
unfoldable pub swappable_backends : Swappable → List String
swappable_backends s = elim s.current [ none ↦ [] | some e ↦ e.backends ]

-- func (s *swappable) IsAvailable
unfoldable pub swappable_available : ℕ → String → Swappable → Bool × Swappable
unfolding checker_available checker_of leave
swappable_available now backend s = elim s.current [
  | none ↦ (false, s)
  | some e ↦ (
    (checker_available now backend (checker_of s e)).0,
    leave s e e.bal (checker_available now backend (checker_of s e)).1,
  )
]

-- func (s *swappable) RecordSuccess
unfoldable pub swappable_success : String → Swappable → Swappable
unfolding record_success
swappable_success backend s = elim s.current [
  | none ↦ s
  | some e ↦ record s { current = some (record e { breaker = record_success backend e.breaker }) }
]

-- func (s *swappable) RecordFailure
unfoldable pub swappable_failure : ℕ → String → Swappable → Swappable
unfolding record_failure
swappable_failure now backend s = elim s.current [
  | none ↦ s
  | some e ↦ record s {
    current = some (record e { breaker = record_failure now backend e.breaker });
  }
]

-- func (s *swappable) HasHealthyBackend
unfoldable pub has_healthy_backend : ℕ → Swappable → Bool × Swappable
unfolding any_available checker_of leave
has_healthy_backend now s = elim s.current [
  | none ↦ (false, s)
  | some e ↦ (
    (any_available now e.backends (checker_of s e)).0,
    leave s e e.bal (any_available now e.backends (checker_of s e)).1,
  )
]

-- discover.SameList
unfoldable pub same_list : List String → List String → Bool
same_list [] [] = true
same_list (x ∷ xs) (y ∷ ys) = str_eq x y && same_list xs ys
same_list xs ys = false

-- func (r *runtime) OnDiscovery, with the configuration that the snapshot holds
unfoldable pub on_discovery : Config → List String → Runtime → Runtime
unfolding same_list rebuild
on_discovery cfg found rt = elim (same_list found rt.discovered) [
  | true ↦ rt
  | false ↦ rebuild cfg (record rt { discovered = found })
]
