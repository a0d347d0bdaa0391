-- ===== src/Engine/Demands.antt =====
-- What is asked of the engine: routing (Next, NextForIP, Done), the readiness probe, health
-- questions and the outcomes of requests, as values, and what the answers pick.
use haribon.Prelude.{ℕ, ◌≡◌, String, false, List, [], ◌∷◌, str_eq}
use haribon.Balancer.Types.{Pick, err_no_healthy_backend}
use haribon.Balancer.Chosen.{Avoids}
use haribon.Engine.Swappable.{
  Swappable, swappable_next, swappable_next_for_ip, swappable_done, swappable_available,
  swappable_success, swappable_failure, has_healthy_backend,
}

-- What the proxy, the readiness probe and a health question ask of the engine.
pub data Demand : Type 0 where
  route readiness : ℕ → Demand
  route_ip : ℕ → String → Demand
  question : ℕ → String → Demand
  done : String → Demand
  success : String → Demand
  failure : ℕ → String → Demand

module _ (intn : ℕ → ℕ) (sum32 : String → ℕ) where
  -- The backend that a demand picks, if it picks one, and what it leaves behind.
  unfoldable pub meet : Demand → Swappable → Pick × Swappable
  unfolding swappable_next swappable_next_for_ip swappable_done swappable_available
      swappable_success swappable_failure has_healthy_backend
  meet (route now) s = swappable_next now intn sum32 s
  meet (route_ip now ip) s = swappable_next_for_ip now intn sum32 ip s
  meet (readiness now) s = (err_no_healthy_backend, (has_healthy_backend now s).1)
  meet (question now b) s = (err_no_healthy_backend, (swappable_available now b s).1)
  meet (done b) s = (err_no_healthy_backend, swappable_done b s)
  meet (success b) s = (err_no_healthy_backend, swappable_success b s)
  meet (failure now b) s = (err_no_healthy_backend, swappable_failure now b s)

  -- No pick of the demands is `u`.
  abbrev pub NeverPicked : String → List Demand → Swappable → Type 0
  NeverPicked u [] s = Unit {0}
  NeverPicked u (d ∷ ds) s = Avoids u (meet d s).0 × NeverPicked u ds (meet d s).1

-- No demand reports an outcome for `u`.
abbrev pub NoReport : String → List Demand → Type 0
NoReport u [] = Unit {0}
NoReport u (success b ∷ ds) = (str_eq b u ≡ false) × NoReport u ds
NoReport u (failure now b ∷ ds) = (str_eq b u ≡ false) × NoReport u ds
NoReport u (route now ∷ ds) = NoReport u ds
NoReport u (readiness now ∷ ds) = NoReport u ds
NoReport u (route_ip now ip ∷ ds) = NoReport u ds
NoReport u (question now b ∷ ds) = NoReport u ds
NoReport u (done b ∷ ds) = NoReport u ds
