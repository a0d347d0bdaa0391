-- ===== src/Health/Breaker/Defs.antt =====
-- internal/health/breaker.go: one circuit breaker per backend, in a registry. Times are readings of
-- the monotonic clock in nanoseconds; `now` is what `time.Now()` gives at the call. A method takes
-- the registry and returns it as the call leaves it; the calls of the logger are kept in order.
use haribon.Prelude.{
  ℕ, String, Bool, true, false, ◌&&◌, ◌||◌, not, Option, none, some, List, [], ◌∷◌, ◌++◌, ℤ, pos,
  sub_ℕ, leb_ℤ, inc_int64, if◌then◌else◌,
}
use haribon.Prelude.Dict.{Dict, get, put}

pub data State : Type 0 where
  state_closed state_open state_half_open : State

unfoldable pub state_string : State → String
state_string state_closed = "closed"
state_string state_open = "open"
state_string state_half_open = "half_open"

abbrev pub state_eq : State → State → Bool
state_eq state_closed state_closed = true
state_eq state_open state_open = true
state_eq state_half_open state_half_open = true
state_eq _ _ = false

-- One call of the logger: backend, state, and the state left (the reason).
pub record Transition : Type 0 where
  pub backend : String
  pub to : State
  pub from : State

-- type breaker struct; `has_logger` says whether `logger` is non-nil.
pub record Breaker : Type 0 where
  pub state : State
  pub consecutive_fails : ℤ
  pub open_at : ℕ
  pub failure_threshold : ℤ
  pub cooldown : ℤ
  pub has_logger : Bool
  pub backend : String

pub record Registry : Type 0 where
  pub breakers : Dict Breaker
  pub logged : List Transition

unfoldable pub new_breaker : ℤ → ℤ → Bool → String → Breaker
new_breaker threshold cooldown has_logger url = record {
  state = state_closed;
  consecutive_fails = pos 0;
  open_at = 0;
  failure_threshold = threshold;
  cooldown = cooldown;
  has_logger = has_logger;
  backend = url;
}

-- the loop of NewRegistry
unfoldable pub add_breakers : ℤ → ℤ → Bool → List String → Dict Breaker → Dict Breaker
add_breakers threshold cooldown has_logger [] m = m
add_breakers threshold cooldown has_logger (b ∷ bs) m =
    add_breakers threshold cooldown has_logger bs
      (put m b (new_breaker threshold cooldown has_logger b))

unfoldable pub new_registry : List String → ℤ → ℤ → Bool → Registry
unfolding add_breakers
new_registry backends threshold cooldown has_logger = record {
  breakers = add_breakers threshold cooldown has_logger backends [];
  logged = [];
}

-- func (br *breaker) transition(to State)
unfoldable pub transition : State → Breaker → Breaker × List Transition
transition to br = (
  record br { state = to },
  if br.has_logger && not (state_eq br.state to)
      then record { backend = br.backend; to = to; from = br.state } ∷ []
      else [],
)

-- the switch of IsAvailable
unfoldable pub available_in : State → ℕ → Breaker → Bool × (Breaker × List Transition)
unfolding transition
available_in state_closed now br = (true, (br, []))
available_in state_open now br =
    if leb_ℤ br.cooldown (sub_ℕ now br.open_at)
    then (true, transition state_half_open br)
    else (false, (br, []))
available_in state_half_open now br = (false, (br, []))

abbrev pub breaker_available : ℕ → Breaker → Bool × (Breaker × List Transition)
breaker_available now br = available_in br.state now br

-- the body of RecordSuccess below the lookup
unfoldable pub breaker_success : Breaker → Breaker × List Transition
unfolding transition
breaker_success br =
    let (br', calls) =
      if state_eq br.state state_half_open then transition state_closed br else (br, []) in
    (record br' { consecutive_fails = pos 0 }, calls)

-- the body of RecordFailure below the lookup
unfoldable pub breaker_failure : ℕ → Breaker → Breaker × List Transition
unfolding transition
breaker_failure now br =
    let counted : Breaker = record br { consecutive_fails = inc_int64 br.consecutive_fails } in
    if state_eq counted.state state_half_open
      || leb_ℤ counted.failure_threshold counted.consecutive_fails
    then (let (br', calls) = transition state_open (record counted { open_at = now }) in
        (record br' { consecutive_fails = pos 0 }, calls))
    else (counted, [])

-- What a method leaves behind: the breaker behind its pointer, and the logger's calls.
unfoldable pub store : String → Registry → Breaker × List Transition → Registry
store url r (br, calls) = record { breakers = put r.breakers url br; logged = r.logged ++ calls }

-- Every method looks the breaker up first, and leaves the registry alone where there is none.
unfoldable pub update : String → (Breaker → Breaker × List Transition) → Registry → Registry
unfolding store
update url f r = elim (get r.breakers url) [ none ↦ r | some br ↦ store url r (f br) ]

-- An unknown backend is available.
unfoldable pub is_available : ℕ → String → Registry → Bool × Registry
unfolding update available_in
is_available now url r = (
  elim (get r.breakers url) [ none ↦ true | some br ↦ (breaker_available now br).0 ],
  update url (λ br. (breaker_available now br).1) r,
)

unfoldable pub record_success : String → Registry → Registry
unfolding update breaker_success
record_success url r = update url breaker_success r

unfoldable pub record_failure : ℕ → String → Registry → Registry
unfolding update breaker_failure
record_failure now url r = update url (breaker_failure now) r

unfoldable pub breaker_state : String → Registry → State
breaker_state url r = elim (get r.breakers url) [ none ↦ state_closed | some br ↦ br.state ]

unfoldable pub carry_breaker : Breaker → Breaker → Breaker
carry_breaker ob nb = record nb {
  state = ob.state;
  consecutive_fails = ob.consecutive_fails;
  open_at = ob.open_at;
}

-- the loop of CarryOver, over the old registry's breakers
unfoldable pub carry_over_loop : Dict Breaker → Dict Breaker → Dict Breaker
unfolding carry_breaker
carry_over_loop [] m = m
carry_over_loop ((url, ob) ∷ rest) m =
    carry_over_loop rest (elim (get m url) [ none ↦ m | some nb ↦ put m url (carry_breaker ob nb) ])

-- r.CarryOver(old), where old may be nil. The early return at `old == r` saves the copy of a
-- registry into itself, which is modelled as that copy.
unfoldable pub carry_over : Option Registry → Registry → Registry
unfolding carry_over_loop
carry_over none r = r
carry_over (some old) r = record r { breakers = carry_over_loop old.breakers r.breakers }
