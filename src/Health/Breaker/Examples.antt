-- ===== src/Health/Breaker/Examples.antt =====
-- The theorems about the circuit breaker at concrete registries, and test runs.
use haribon.Prelude.{str_eq, false, ◌≡◌, ◌⊎◌, refl, true, false, some, List, [], ◌∷◌, pos, arith}
use haribon.Prelude.Dict.{get}
use haribon.Health.Breaker.Defs.{
  state_closed, state_open, state_half_open, Breaker, Registry, new_registry, is_available,
  record_failure, breaker_state, carry_over,
}
use haribon.Health.Breaker.Calls.{Call, ask, succeed, fail, step, run, target}
use haribon.Health.Breaker.Transitions.{Edge, is_due, step-Edge}
use haribon.Health.Breaker.Trial.{trial_is_exclusive}
use haribon.Health.Breaker.Threshold.{CountingAt, opens_at_threshold}
use haribon.Health.Breaker.Reload.{carried, get-carry_over, new_registry-IsMap}

abbrev tripped : Breaker
tripped = record {
  state = state_open;
  consecutive_fails = pos 0;
  open_at = 100;
  failure_threshold = pos 3;
  cooldown = pos 50;
  has_logger = true;
  backend = "http://a";
}

abbrev trying : Breaker
trying = record tripped { state = state_half_open }

abbrev fresh : Breaker
fresh = record tripped { state = state_closed }

abbrev registry_of : Breaker → Registry
registry_of br = record { breakers = ("http://a", br) ∷ []; logged = [] }

abbrev others : List Call
others = ask 160 "http://a" ∷ fail 170 "http://b" ∷ succeed "http://b" ∷ []

step-Edge_example :
    ((target (fail 7 "http://a") ≡ "http://a")
      × Edge
          (fail 7 "http://a")
          (is_due (fail 7 "http://a") (get (registry_of fresh).breakers "http://a"))
          (breaker_state "http://a" (registry_of fresh))
          (breaker_state "http://a" (step (registry_of fresh) (fail 7 "http://a"))))
    ⊎ ((str_eq (target (fail 7 "http://a")) "http://a" ≡ false)
        × (breaker_state "http://a" (step (registry_of fresh) (fail 7 "http://a"))
            ≡ breaker_state "http://a" (registry_of fresh)))
step-Edge_example = step-Edge (registry_of fresh) (fail 7 "http://a") "http://a"

trial_is_exclusive_example :
    (is_available 999 "http://a"
      (run (is_available 150 "http://a" (registry_of tripped)).1 others)).0
    ≡ false
unfolding get is_available
trial_is_exclusive_example =
    trial_is_exclusive (registry_of tripped) 150 999 "http://a" others (tripped, refl, refl) refl
      (refl, (refl, tt))

abbrev two_failures : List Call
two_failures = fail 1 "http://a" ∷ fail 2 "http://b" ∷ fail 3 "http://a" ∷ []

opens_at_threshold_example :
    CountingAt 2 3 "http://a" (run (registry_of fresh) two_failures)
    × ((br : Breaker) × (get
            (record_failure 4 "http://a" (run (registry_of fresh) two_failures)).breakers
            "http://a"
          ≡ some br)
        × (br.state ≡ state_open)
        × (br.open_at ≡ 4)
        × (br.consecutive_fails ≡ pos 0))
unfolding get
opens_at_threshold_example =
    opens_at_threshold (registry_of fresh) "http://a" 0 3 4 two_failures
      (fresh, refl, record { is_closed = refl; counted = refl; limit = refl; fits = omega arith })
      tt refl

get-carry_over_example :
    get
      (carry_over
        (some (new_registry ("http://a" ∷ []) (pos 3) (pos 50) true))
        (registry_of tripped)).breakers
      "http://a"
    ≡ carried
        (get (new_registry ("http://a" ∷ []) (pos 3) (pos 50) true).breakers "http://a")
        (some tripped)
unfolding get
get-carry_over_example =
    get-carry_over (new_registry ("http://a" ∷ []) (pos 3) (pos 50) true) (registry_of tripped)
      "http://a" (new_registry-IsMap ("http://a" ∷ []) (pos 3) (pos 50) true)
