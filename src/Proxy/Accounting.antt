-- ===== src/Proxy/Accounting.antt =====
-- What the handler's calls add up to.
use haribon.Prelude.{
  ℕ, zero, suc, ◌+◌, ◌≤◌, ◌≡◌, refl, String, Bool, Option, List, [], ◌∷◌, str_eq, arith, ltb,
  if◌then◌else◌,
}
use haribon.Proxy.Attempts.{
  Exchange, ProxyCall, requested, done, success, failure, attempts, max_attempts, serve_http,
  idempotent_method,
}

-- One for each call of the first kind for the backend.
abbrev one_if : Bool → ℕ → ℕ
one_if b n = if b then suc n else n

abbrev pub requests_of : String → List ProxyCall → ℕ
requests_of s [] = 0
requests_of s (requested u ∷ cs) = one_if (str_eq u s) (requests_of s cs)
requests_of s (_ ∷ cs) = requests_of s cs

abbrev pub dones_of : String → List ProxyCall → ℕ
dones_of s [] = 0
dones_of s (done u ∷ cs) = one_if (str_eq u s) (dones_of s cs)
dones_of s (_ ∷ cs) = dones_of s cs

-- Successes and failures together.
abbrev pub outcomes_of : String → List ProxyCall → ℕ
outcomes_of s [] = 0
outcomes_of s (success u ∷ cs) = one_if (str_eq u s) (outcomes_of s cs)
outcomes_of s (failure u ∷ cs) = one_if (str_eq u s) (outcomes_of s cs)
outcomes_of s (_ ∷ cs) = outcomes_of s cs

abbrev pub requests : List ProxyCall → ℕ
requests [] = 0
requests (requested u ∷ cs) = suc (requests cs)
requests (_ ∷ cs) = requests cs

-- Each request to the backend is ended once, and its outcome is reported once.
abbrev pub Balanced : String → List ProxyCall → Type 0
Balanced s cs = (dones_of s cs ≡ requests_of s cs) × (outcomes_of s cs ≡ requests_of s cs)

module _ (method : String) (picks : ℕ → Option String) (exchange : ℕ → String → Exchange) where
  attempts-Balanced :
      (s : String) (left attempt retries : ℕ)
      → Balanced s (attempts method picks exchange left attempt retries).1
        × (requests (attempts method picks exchange left attempt retries).1 ≤ left)
  unfolding attempts
  attempts-Balanced s zero attempt retries = ((refl, refl), omega arith)
  attempts-Balanced s (suc left) attempt retries = ground (
    arith,
    attempts-Balanced s left (suc attempt) (if ltb 0 attempt then suc retries else retries),
  )

  -- Whatever the balancer picks and the network answers, for each backend the handler ends each
  -- request that it starts exactly once, and reports exactly one outcome of it to the circuit
  -- breaker; it starts at most one request and, for the idempotent methods only, one more for each
  -- retry that is configured.
  pub serve_http-Balanced :
      (s : String) (max_retries : ℕ)
      → Balanced s (serve_http method picks exchange max_retries).1
        × (requests (serve_http method picks exchange max_retries).1
            ≤ 1 + (if idempotent_method method then max_retries else 0))
  unfolding serve_http
  serve_http-Balanced s max_retries =
      ground (arith, attempts-Balanced s (max_attempts method max_retries) 0 0)
