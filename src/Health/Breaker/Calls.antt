-- ===== src/Health/Breaker/Calls.antt =====
-- The calls that reach a registry, one after the other, and what one call does to one breaker.
use haribon.Prelude.{
  ℕ, String, ◌≡◌, refl, Option, none, some, List, [], ◌∷◌, arith, str_eq, eq_iff, if◌then◌else◌,
}
use haribon.Prelude.Dict.{get, get-put}
use haribon.Health.Breaker.Defs.{
  Breaker, Transition, Registry, breaker_available, breaker_success, breaker_failure, is_available,
  record_success, record_failure, update,
}

pub data Call : Type 0 where
  ask : ℕ → String → Call
  succeed : String → Call
  fail : ℕ → String → Call

unfoldable pub step : Registry → Call → Registry
step r (ask now url) = (is_available now url r).1
step r (succeed url) = record_success url r
step r (fail now url) = record_failure now url r

unfoldable pub run : Registry → List Call → Registry
run r [] = r
run r (c ∷ cs) = run (step r c) cs

abbrev pub target : Call → String
target (ask now url) = url
target (succeed url) = url
target (fail now url) = url

abbrev pub effect : Call → Breaker → Breaker × List Transition
effect (ask now url) br = (breaker_available now br).1
effect (succeed url) br = breaker_success br
effect (fail now url) br = breaker_failure now br

abbrev pub with : (Breaker → Breaker × List Transition) → Option Breaker → Option Breaker
with f none = none
with f (some br) = some (f br).0

get-update :
    (b : String) (f : Breaker → Breaker × List Transition) (r : Registry) (url : String)
    → get (update b f r).breakers url
      ≡ (if str_eq b url then with f (get r.breakers url) else get r.breakers url)
unfolding update
get-update b f r url = go (get r.breakers b) refl
  where
    go :
        (o : Option Breaker)
        → get r.breakers b ≡ o
        → get (update b f r).breakers url
          ≡ (if str_eq b url then with f (get r.breakers url) else get r.breakers url)
    go none e = ground (arith, e, eq_iff b url)
    go (some br) e = rw (e, update) (rw get-put (ground (arith, e, eq_iff b url)))

-- A call changes the breaker of its backend, and no other.
pub get-step :
    (r : Registry) (c : Call) (url : String)
    → get (step r c).breakers url
      ≡ (if str_eq (target c) url then with (effect c) (get r.breakers url) else get r.breakers url)
unfolding step is_available record_success record_failure
get-step r (ask now b) url = get-update b (λ br. (breaker_available now br).1) r url
get-step r (succeed b) url = get-update b (breaker_success) r url
get-step r (fail now b) url = get-update b (breaker_failure now) r url
