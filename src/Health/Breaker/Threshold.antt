-- ===== src/Health/Breaker/Threshold.antt =====
-- The failure threshold: the circuit opens at exactly the configured number of failures in a row.
use haribon.Prelude.{
  ℕ, suc, ◌+◌, ◌≤◌, ◌<◌, String, ◌≡◌, true, false, some, List, [], ◌∷◌, arith, str_eq, eq_refl,
  if◌then◌else◌, Bool-cases, inl, inr, pos, max_int64, inc_int64, ◌∙◌, subst,
}
use haribon.Prelude.Dict.{get}
use haribon.Health.Breaker.Defs.{
  state_closed, state_open, Breaker, Registry, breaker_failure, breaker_success, available_in,
  record_failure, breaker_available,
}
use haribon.Health.Breaker.Calls.{Call, ask, succeed, fail, step, run, target, get-step}

-- How many calls of the list report a failure of `url`.
abbrev pub failures_of : String → List Call → ℕ
failures_of url [] = 0
failures_of url (ask now b ∷ cs) = failures_of url cs
failures_of url (succeed b ∷ cs) = failures_of url cs
failures_of url (fail now b ∷ cs) =
    let rest = failures_of url cs in if str_eq b url then suc rest else rest

-- No call of the list reports a success of `url`.
abbrev pub NoSuccess : String → List Call → Type 0
NoSuccess url [] = Unit {0}
NoSuccess url (ask now b ∷ cs) = NoSuccess url cs
NoSuccess url (succeed b ∷ cs) = (str_eq b url ≡ false) × NoSuccess url cs
NoSuccess url (fail now b ∷ cs) = NoSuccess url cs

-- A closed breaker that has counted `f` failures of the `t` that open it.
pub record Counting (f t : ℕ) (br : Breaker) : Type 0 where
  pub is_closed : br.state ≡ state_closed
  pub counted : br.consecutive_fails ≡ pos f
  pub limit : br.failure_threshold ≡ pos t
  pub fits : t ≤ max_int64

abbrev pub CountingAt : ℕ → ℕ → String → Registry → Type 0
CountingAt f t url r = (br : Breaker) × (get r.breakers url ≡ some br) × Counting f t br

failure-below :
    (now f t : ℕ) (br : Breaker)
    → Counting f t br
    → suc f < t
    → Counting (suc f) t (breaker_failure now br).0
unfolding breaker_failure inc_int64
failure-below now f t br h lt = ground arith

failure-at :
    (now f t : ℕ) (br : Breaker)
    → Counting f t br
    → suc f ≡ t
    → ((breaker_failure now br).0.state ≡ state_open)
      × ((breaker_failure now br).0.open_at ≡ now)
      × ((breaker_failure now br).0.consecutive_fails ≡ pos 0)
unfolding breaker_failure inc_int64
failure-at now f t br h e = ground arith

ask-keeps :
    (now f t : ℕ) (br : Breaker) → Counting f t br → Counting f t (breaker_available now br).1.0
unfolding available_in
ask-keeps now f t br h = ground arith

other-keeps :
    (r : Registry) (c : Call) (url : String) (f t : ℕ)
    → str_eq (target c) url ≡ false
    → CountingAt f t url r
    → CountingAt f t url (step r c)
other-keeps r c url f t other (br, e, h) = (br, get-step r c url ∙ rw other e, h)

ask-keeps-at :
    (r : Registry) (now : ℕ) (b url : String) (f t : ℕ)
    → CountingAt f t url r
    → CountingAt f t url (step r (ask now b))
ask-keeps-at r now b url f t (br, e, h) = elim (Bool-cases (str_eq b url)) [
  | inl same ↦ (
    (breaker_available now br).1.0,
    get-step r (ask now b) url ∙ rw (same, e),
    ask-keeps now f t br h,
  )
  | inr other ↦ other-keeps r (ask now b) url f t other (br, e, h)
]

pub failure-counts-at :
    (r : Registry) (now : ℕ) (b url : String) (f t : ℕ)
    → str_eq b url ≡ true
    → suc f < t
    → CountingAt f t url r
    → CountingAt (suc f) t url (step r (fail now b))
failure-counts-at r now b url f t same lt (br, e, h) = (
  (breaker_failure now br).0,
  get-step r (fail now b) url ∙ rw (same, e),
  failure-below now f t br h lt,
)

success-resets : (f t : ℕ) (br : Breaker) → Counting f t br → Counting 0 t (breaker_success br).0
unfolding breaker_success
success-resets f t br h = ground arith

pub success-resets-at :
    (r : Registry) (url : String) (f t : ℕ)
    → CountingAt f t url r
    → CountingAt 0 t url (step r (succeed url))
success-resets-at r url f t (br, e, h) = (
  (breaker_success br).0,
  get-step r (succeed url) url ∙ rw (eq_refl, e),
  success-resets f t br h,
)

Counting-run :
    (r : Registry) (url : String) (f t : ℕ) (cs : List Call)
    → CountingAt f t url r
    → NoSuccess url cs
    → f + failures_of url cs < t
    → CountingAt (f + failures_of url cs) t url (run r cs)
unfolding run
Counting-run r url f t [] h n lt = subst (λ k. CountingAt k t url r) (omega arith) h
Counting-run r url f t (ask now b ∷ cs) h n lt =
    Counting-run (step r (ask now b)) url f t cs (ask-keeps-at r now b url f t h) n lt
Counting-run r url f t (succeed b ∷ cs) h n lt =
    Counting-run (step r (succeed b)) url f t cs (other-keeps r (succeed b) url f t n.0 h) n.1 lt
Counting-run r url f t (fail now b ∷ cs) h n lt = elim (Bool-cases (str_eq b url)) [
  | inl same ↦ rw same (
      subst (λ k. CountingAt k t url (run (step r (fail now b)) cs)) (omega arith)
        (Counting-run (step r (fail now b)) url (suc f) t cs
          (failure-counts-at r now b url f t same (ground arith) h) n (ground arith)))
  | inr other ↦ rw other (
      Counting-run (step r (fail now b)) url f t cs (other-keeps r (fail now b) url f t other h) n
        (ground arith))
]

-- A closed circuit that has counted f failures, of the t that open it, stays closed through any
-- calls that report no success for its backend and fewer than t - f failures, with the failures
-- counted; and the failure that makes t opens it, stamped with that failure's time and with the
-- count reset. Calls about other backends and questions in between change nothing.
pub opens_at_threshold :
    (r : Registry) (url : String) (f t last : ℕ) (cs : List Call)
    → CountingAt f t url r
    → NoSuccess url cs
    → suc (f + failures_of url cs) ≡ t
    → CountingAt (f + failures_of url cs) t url (run r cs)
      × ((br : Breaker) × (get (record_failure last url (run r cs)).breakers url ≡ some br)
          × (br.state ≡ state_open)
          × (br.open_at ≡ last)
          × (br.consecutive_fails ≡ pos 0))
unfolding step
opens_at_threshold r url f t last cs h n e =
    let before = Counting-run r url f t cs h n (omega arith) in
    let opened = failure-at last (f + failures_of url cs) t before.0 before.2 e in
    (
      before,
      (
        (breaker_failure last before.0).0,
        get-step (run r cs) (fail last url) url ∙ rw (eq_refl, before.1),
        opened.0,
        opened.1,
        opened.2,
      ),
    )
