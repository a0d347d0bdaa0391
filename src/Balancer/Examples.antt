-- ===== src/Balancer/Examples.antt =====
-- The theorems about the strategies at a concrete pool, and test runs.
use haribon.Prelude.{
  ℕ, ◌+◌, ◌%◌, ◌^◌, ◌≡◌, refl, Bool, true, false, String, List, [], ◌∷◌, map, length, rotate, pos,
  arith, str_eq, if◌then◌else◌,
}
use haribon.Prelude.Dict.{get}
use haribon.Balancer.Types.{BackendEntry, picked, panic, urls}
use haribon.Balancer.Walk.{RoundRobin, IpHash, round_robin_next}
use haribon.Balancer.Walk.Rotation.{first_available, round_robin_next-eq, round_robin_next-panics}
use haribon.Balancer.Walk.Fairness.{next_calls, next_calls-fair}
use haribon.Balancer.WeightedRoundRobin.{WeightedRr}
use haribon.Balancer.LeastConnections.{LeastConn, least_next}
use haribon.Balancer.LeastConnections.Minimum.{LeastOutcome, ask_all, least_next-LeastOutcome}
use haribon.Balancer.Factory.{balancer_next, random}
use haribon.Balancer.Chosen.{Avoids}
use haribon.Balancer.Refused.{balancer_next-Avoids}

-- A health checker for which all backends are up, one for which one is down, and the first in its
-- stateful form.
abbrev up : String → Unit {0} → Bool × Unit {0}
up url hc = (true, hc)

abbrev b_down : String → Unit {0} → Bool × Unit {0}
b_down url hc = (if str_eq url "b" then false else true, hc)

abbrev entry : String → ℕ → BackendEntry
entry url weight = record { url = url; weight = pos weight }

abbrev pool : List BackendEntry
pool = entry "a" 0 ∷ entry "b" 2 ∷ entry "c" 1 ∷ []

abbrev robin : RoundRobin
robin = record { backends = pool; counter = 4 }

abbrev hashed : IpHash
hashed = record { backends = pool; counter = 0 }

abbrev zero_hash : String → ℕ
zero_hash ip = 7

abbrev least : LeastConn
least = record { backends = pool; conns = ("a", pos 2) ∷ ("b", pos 0) ∷ ("c", pos 1) ∷ [] }

abbrev first_index : ℕ → ℕ
first_index n = 0

round_robin_next-eq_example : round_robin_next b_down robin tt ≡ (
  (first_available b_down (urls (rotate (4 % length pool) pool)) tt).0,
  (
    record robin { counter = 5 },
    (first_available b_down (urls (rotate (4 % length pool) pool)) tt).1,
  ),
)
round_robin_next-eq_example = round_robin_next-eq b_down robin tt (omega arith) (omega arith)

-- From place 1 on, with "b" down, "c" is next.
skips_unavailable : (round_robin_next b_down robin tt).0 ≡ picked "c"
unfolding round_robin_next
skips_unavailable = refl

round_robin_next-panics_example :
    (round_robin_next up (record robin { counter = 2 ^ 63 + 1 }) tt).0 ≡ panic
round_robin_next-panics_example =
    round_robin_next-panics up (record robin { counter = 2 ^ 63 + 1 }) tt (omega arith)
      (omega arith) (omega arith) (omega arith)

next_calls-fair_example :
    next_calls up (length pool) robin tt ≡ map picked (urls (rotate (4 % length pool) pool))
next_calls-fair_example = next_calls-fair up robin tt (λ url h. refl) (omega arith) (omega arith)

abbrev weighted_pool : WeightedRr
weighted_pool = record { slots = "a" ∷ "b" ∷ "b" ∷ "c" ∷ []; counter = 0 }

least_next-LeastOutcome_example :
    LeastOutcome least
      (ask_all b_down pool tt).0
      (least_next b_down least tt).0
      (least_next b_down least tt).1.0
    × ((least_next b_down least tt).1.1 ≡ (ask_all b_down pool tt).1)
unfolding get
least_next-LeastOutcome_example =
    least_next-LeastOutcome b_down least tt ((2, refl), ((0, refl), ((1, refl), tt)))
      (refl, (refl, (refl, tt)))

b_is_refused : (hc : Unit {0}) → Unit {0} → (b_down "b" hc).0 ≡ false
b_is_refused hc h = refl

balancer_next-Avoids_example :
    Avoids "b" (balancer_next b_down (λ n. 1) (λ s. 0) (random (record { backends = pool })) tt).0
    × Unit {0}
balancer_next-Avoids_example =
    balancer_next-Avoids b_down (λ hc. Unit {0}) "b" (λ url hc h. tt) b_is_refused (λ n. 1) (λ s. 0)
      (random (record { backends = pool })) tt tt
