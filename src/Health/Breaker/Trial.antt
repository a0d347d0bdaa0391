-- ===== src/Health/Breaker/Trial.antt =====
-- The trial that follows the cooldown: one caller gets through, and the circuit waits for its
-- outcome.
use haribon.Prelude.{
  ℕ, String, ◌≡◌, true, false, Option, some, List, [], ◌∷◌, arith, str_eq, eq_iff, eq_refl,
  if◌then◌else◌, ◌∙◌, leb_ℤ, sub_ℕ,
}
use haribon.Prelude.Dict.{get}
use haribon.Health.Breaker.Defs.{
  State, state_open, state_half_open, Breaker, Registry, breaker_success, breaker_failure,
  available_in, is_available, record_success, record_failure, breaker_available,
}
use haribon.Health.Breaker.Calls.{Call, ask, succeed, fail, step, run, effect, with, get-step}

-- No call of the list reports an outcome for `url`.
abbrev pub NoOutcome : String → List Call → Type 0
NoOutcome url [] = Unit {0}
NoOutcome url (ask now b ∷ cs) = NoOutcome url cs
NoOutcome url (succeed b ∷ cs) = (str_eq b url ≡ false) × NoOutcome url cs
NoOutcome url (fail now b ∷ cs) = (str_eq b url ≡ false) × NoOutcome url cs

abbrev pub InState : State → String → Registry → Type 0
InState s url r = (br : Breaker) × (get r.breakers url ≡ some br) × (br.state ≡ s)

ask-waits :
    (o : Option Breaker) (now : ℕ) (b url : String)
    → ((br : Breaker) × (o ≡ some br) × (br.state ≡ state_half_open))
    → (br : Breaker) × ((if str_eq b url then with (effect (ask now b)) o else o) ≡ some br)
      × (br.state ≡ state_half_open)
unfolding available_in
ask-waits o now b url (br, e, s) = (br, ground (arith, eq_iff b url), s)

pub step-waits :
    (r : Registry) (c : Call) (url : String)
    → NoOutcome url (c ∷ [])
    → InState state_half_open url r
    → InState state_half_open url (step r c)
step-waits r (ask now b) url n h = rw get-step (ask-waits _ now b url h)
step-waits r (succeed b) url n (br, e, s) = (br, rw get-step (rw n.0 e), s)
step-waits r (fail now b) url n (br, e, s) = (br, rw get-step (rw n.0 e), s)

pub run-waits :
    (r : Registry) (cs : List Call) (url : String)
    → NoOutcome url cs
    → InState state_half_open url r
    → InState state_half_open url (run r cs)
unfolding run
run-waits r [] url n h = h
run-waits r (ask now b ∷ cs) url n h =
    run-waits (step r (ask now b)) cs url n (step-waits r (ask now b) url tt h)
run-waits r (succeed b ∷ cs) url n h =
    run-waits (step r (succeed b)) cs url n.1 (step-waits r (succeed b) url (n.0, tt) h)
run-waits r (fail now b ∷ cs) url n h =
    run-waits (step r (fail now b)) cs url n.1 (step-waits r (fail now b) url (n.0, tt) h)

pub half_open-refuses :
    (r : Registry) (now : ℕ) (url : String)
    → InState state_half_open url r
    → (is_available now url r).0 ≡ false
unfolding is_available
half_open-refuses r now url (br, e, s) = ground arith

admitted :
    (now : ℕ) (br : Breaker)
    → br.state ≡ state_open
    → (breaker_available now br).0 ≡ true
    → (breaker_available now br).1.0.state ≡ state_half_open
unfolding available_in
admitted now br s h = ground arith

pub open-admits :
    (r : Registry) (now : ℕ) (url : String)
    → InState state_open url r
    → (is_available now url r).0 ≡ true
    → InState state_half_open url (is_available now url r).1
unfolding is_available step
open-admits r now url (br, e, s) h = (
  (breaker_available now br).1.0,
  get-step r (ask now url) url ∙ rw (eq_refl, e),
  admitted now br s (rw (e, is_available) at h),
)

-- Once IsAvailable has let a caller through an open circuit, it refuses every later caller, at
-- whatever time, until the outcome of the trial is recorded; calls for other backends and further
-- questions in between do not change that.
pub trial_is_exclusive :
    (r : Registry) (now later : ℕ) (url : String) (cs : List Call)
    → InState state_open url r
    → (is_available now url r).0 ≡ true
    → NoOutcome url cs
    → (is_available later url (run (is_available now url r).1 cs)).0 ≡ false
trial_is_exclusive r now later url cs h ok n =
    half_open-refuses _ later url (run-waits _ cs url n (open-admits r now url h ok))

outcome_of_success :
    (br : Breaker)
    → br.state ≡ state_half_open
    → (now : ℕ) → (breaker_available now (breaker_success br).0).0 ≡ true
unfolding breaker_success available_in
outcome_of_success br s now = ground arith

outcome_of_failure :
    (br : Breaker) (t : ℕ)
    → br.state ≡ state_half_open
    → (now : ℕ)
    → (breaker_available now (breaker_failure t br).0).0 ≡ leb_ℤ br.cooldown (sub_ℕ now t)
unfolding breaker_failure available_in
outcome_of_failure br t s now = ground arith

answer :
    (r : Registry) (now : ℕ) (url : String) {br : Breaker}
    → get r.breakers url ≡ some br
    → (is_available now url r).0 ≡ (breaker_available now br).0
unfolding is_available
answer r now url e = rw (e, is_available)

-- The outcome of a trial decides what the next caller is told: after a success he gets through at
-- any time; after a failure at time t he is refused until the cooldown, counted from t, is over.
pub trial_outcome :
    (r : Registry) (url : String) (t now : ℕ) {br : Breaker}
    → get r.breakers url ≡ some br
    → br.state ≡ state_half_open
    → ((is_available now url (record_success url r)).0 ≡ true)
      × ((is_available now url (record_failure t url r)).0 ≡ leb_ℤ br.cooldown (sub_ℕ now t))
unfolding step
trial_outcome r url t now {br} e s = (
  answer (record_success url r) now url (get-step r (succeed url) url ∙ rw (eq_refl, e))
      ∙ outcome_of_success br s now,
  answer (record_failure t url r) now url (get-step r (fail t url) url ∙ rw (eq_refl, e))
      ∙ outcome_of_failure br t s now,
)
