-- ===== src/Health/Breaker/Transitions.antt =====
-- The state machine that the comments of breaker.go describe, and what the logger sees of it.
use haribon.Prelude.{
  ℕ, Bool, false, leb_ℤ, sub_ℕ, inc_int64, String, ◌≡◌, refl, true, Option, none, some, List, [],
  ◌∷◌, ◌++◌, arith, str_eq, if◌then◌else◌, Bool-cases, eq_iff, ◌⊎◌, inl, inr,
}
use haribon.Prelude.Dict.{get}
use haribon.Health.Breaker.Defs.{
  State, state_closed, state_open, state_half_open, state_eq, Breaker, Transition, Registry,
  breaker_success, breaker_failure, available_in, breaker_state, is_available, record_success,
  record_failure, update,
}
use haribon.Health.Breaker.Calls.{Call, ask, succeed, fail, step, target, effect, with, get-step}

-- Whether the wait is over that a question would end, or a failure is the one that opens the circuit.
abbrev pub is_due : Call → Option Breaker → Bool
is_due c none = false
is_due (ask now url) (some br) = leb_ℤ br.cooldown (sub_ℕ now br.open_at)
is_due (succeed url) (some br) = false
is_due (fail now url) (some br) = leb_ℤ br.failure_threshold (inc_int64 br.consecutive_fails)

-- An edge of the diagram, with the call that goes along it, and whether it was due.
pub data Edge : Call → Bool → State → State → Type 0 where
  pass : {now : ℕ} {url : String} {due : Bool} → Edge (ask now url) due state_closed state_closed
  wait : {now : ℕ} {url : String} → Edge (ask now url) false state_open state_open
  trial : {now : ℕ} {url : String} → Edge (ask now url) true state_open state_half_open
  busy :
      {now : ℕ} {url : String} {due : Bool} → Edge (ask now url) due state_half_open state_half_open
  clear : {url : String} {due : Bool} → Edge (succeed url) due state_closed state_closed
  late : {url : String} {due : Bool} → Edge (succeed url) due state_open state_open
  recover : {url : String} {due : Bool} → Edge (succeed url) due state_half_open state_closed
  count : {now : ℕ} {url : String} → Edge (fail now url) false state_closed state_closed
  trip : {now : ℕ} {url : String} → Edge (fail now url) true state_closed state_open
  relapse :
      {now : ℕ} {url : String} {due : Bool} → Edge (fail now url) due state_half_open state_open
  remain : {now : ℕ} {url : String} {due : Bool} → Edge (fail now url) due state_open state_open

effect-Edge : (c : Call) (br : Breaker) → Edge c (is_due c (some br)) br.state (effect c br).0.state
unfolding available_in breaker_success breaker_failure
effect-Edge (ask now url) br = grind (arith, pass, wait, trial, busy)
effect-Edge (succeed url) br = grind (arith, clear, late, recover)
effect-Edge (fail now url) br = grind (arith, count, trip, relapse, remain)

state_of : Option Breaker → State
state_of none = state_closed
state_of (some br) = br.state

breaker_state-eq :
    (r : Registry) (url : String) → breaker_state url r ≡ state_of (get r.breakers url)
unfolding breaker_state state_of
breaker_state-eq r url = ground arith

unknown-Edge : (c : Call) → Edge c false state_closed state_closed
unknown-Edge (ask now url) = pass
unknown-Edge (succeed url) = clear
unknown-Edge (fail now url) = count

with-Edge :
    (c : Call) (o : Option Breaker)
    → Edge c (is_due c o) (state_of o) (state_of (with (effect c) o))
unfolding state_of
with-Edge c none = unknown-Edge c
with-Edge c (some br) = effect-Edge c br

-- One call moves the state of its backend, as BreakerState reports it, along the one edge that the
-- diagram has for this call: a question starts the trial of an open circuit if the cooldown is over,
-- and changes nothing else; a success closes a half-open circuit only; a failure reopens a half-open
-- one, and opens a closed one if it makes the threshold full. No other backend's state moves.
pub step-Edge :
    (r : Registry) (c : Call) (url : String)
    → ((target c ≡ url)
        × Edge c
            (is_due c (get r.breakers url))
            (breaker_state url r)
            (breaker_state url (step r c)))
      ⊎ ((str_eq (target c) url ≡ false) × (breaker_state url (step r c) ≡ breaker_state url r))
step-Edge r c url =
    rw (breaker_state-eq r url, breaker_state-eq (step r c) url, get-step)
      (elim (Bool-cases (str_eq (target c) url)) [
        | inl same ↦
            rw same (inl ((eq_iff (target c) url).0 same, with-Edge c (get r.breakers url)))
        | inr other ↦ rw other (inr (refl, refl))
      ])

logged-update :
    (url : String) (f : Breaker → Breaker × List Transition) (r : Registry) {br : Breaker}
    → get r.breakers url ≡ some br
    → (update url f r).logged ≡ r.logged ++ (f br).1
unfolding update
logged-update url f r e = rw (e, update)

effect-logged :
    (c : Call) (br : Breaker)
    → br.has_logger ≡ true
    → (effect c br).1 ≡ (
        if state_eq br.state (effect c br).0.state
        then []
        else record { backend = br.backend; to = (effect c br).0.state; from = br.state } ∷ [])
unfolding available_in breaker_success breaker_failure
effect-logged (ask now url) br l = ground arith
effect-logged (succeed url) br l = ground arith
effect-logged (fail now url) br l = ground arith

-- One call on a known backend adds to the logger's calls exactly the change of its state, and
-- nothing where the state stays.
pub logged-step :
    (r : Registry) (c : Call) {br : Breaker}
    → get r.breakers (target c) ≡ some br
    → br.has_logger ≡ true
    → (step r c).logged
      ≡ r.logged
        ++ (if state_eq br.state (effect c br).0.state
            then []
            else record { backend = br.backend; to = (effect c br).0.state; from = br.state } ∷ [])
unfolding step is_available record_success record_failure
logged-step r (ask now url) {br} e l =
    rw (← effect-logged (ask now url) br l) (logged-update url _ r e)
logged-step r (succeed url) {br} e l =
    rw (← effect-logged (succeed url) br l) (logged-update url _ r e)
logged-step r (fail now url) {br} e l =
    rw (← effect-logged (fail now url) br l) (logged-update url _ r e)
