-- ===== src/Proxy/Outcomes.antt =====
-- internal/proxy/handler.go: New, pickBackend, and what the handler's reports do to the circuit breaker.
use haribon.Prelude.{
  ℕ, zero, suc, ◌+◌, ◌<◌, ◌≡◌, subst, String, false, ◌&&◌, some, List, [], ◌∷◌, ltb, ℤ, pos, leb_ℤ,
  ltb_ℤ, eq_refl, Bool-cases, inl, inr, arith, if◌then◌else◌,
}
use haribon.Health.Breaker.Defs.{Registry, record_success, record_failure}
use haribon.Health.Breaker.Calls.{step}
use haribon.Health.Breaker.Threshold.{CountingAt, failure-counts-at, success-resets-at}
use haribon.Proxy.Attempts.{
  status, Answer, ProxyCall, requested, done, success, failure, retried, responded, gave_up,
  attempts, max_attempts, serve_http, idempotent_method, retryable_status,
}

-- type Config struct, with the timeout in nanoseconds
pub record HandlerConfig : Type 0 where
  pub handler_timeout : ℤ
  pub max_retries : ℤ

-- func New, for its Config
unfoldable pub new_handler : HandlerConfig → HandlerConfig
new_handler cfg = record {
  handler_timeout =
      if leb_ℤ cfg.handler_timeout (pos 0) then pos 10000000000 else cfg.handler_timeout;
  max_retries = if ltb_ℤ cfg.max_retries (pos 0) then pos 0 else cfg.max_retries;
}

-- h.breaker, for each call of the handler; the i-th call is made at the time that the clock gives
unfoldable pub report : (ℕ → ℕ) → ℕ → List ProxyCall → Registry → Registry
unfolding record_success record_failure
report clock i [] r = r
report clock i (success s ∷ cs) r = report clock (suc i) cs (record_success s r)
report clock i (failure s ∷ cs) r = report clock (suc i) cs (record_failure (clock i) s r)
report clock i (requested s ∷ cs) r = report clock (suc i) cs r
report clock i (done s ∷ cs) r = report clock (suc i) cs r
report clock i (retried s ∷ cs) r = report clock (suc i) cs r
report clock i (responded s code ∷ cs) r = report clock (suc i) cs r
report clock i (gave_up ∷ cs) r = report clock (suc i) cs r

-- A request: its method, the statuses that come back, and its clock.
pub record Exchanged : Type 0 where
  pub method : String
  pub codes : ℕ → ℕ
  pub clock : ℕ → ℕ

-- Requests that are served one after the other, with every pick the backend `u` and every attempt
-- answered with a status: one of the schedules of a handler whose requests otherwise overlap.
unfoldable pub serve_all : ℕ → String → List Exchanged → Registry → Registry
unfolding serve_http report
serve_all max_retries u [] r = r
serve_all max_retries u (q ∷ qs) r = serve_all max_retries u qs (
    report q.clock 0
      (serve_http q.method (λ attempt. some u) (λ attempt server. status (q.codes attempt))
        max_retries).1
      r)

module _ (u : String) (t : ℕ) (method : String) (codes clock : ℕ → ℕ) where
  -- The loop of a request to `u` alone, each attempt answered with a status.
  abbrev answered : ℕ → ℕ → ℕ → Answer × List ProxyCall
  answered left attempt retries =
      attempts method (λ n. some u) (λ n server. status (codes n)) left attempt retries

  report-attempts :
      (left attempt retries i f : ℕ) (r : Registry)
      → f + left < t
      → CountingAt f t u r
      → CountingAt 0 t u (report clock i (answered (suc left) attempt retries).1 r)
  unfolding attempts report
  report-attempts zero attempt retries i f r room h =
      let never : (retryable_status (codes attempt) && (idempotent_method method && false))
          ≡ false =
        ground arith in
      rw never (unfold step in success-resets-at r u f t h)
  report-attempts (suc left) attempt retries i f r room h =
      elim (Bool-cases
        (retryable_status (codes attempt) && (idempotent_method method && ltb 0 (suc left)))) [
          | inl retry ↦ rw retry (
              report-attempts left (suc attempt) (if ltb 0 attempt then suc retries else retries)
                (suc (suc (suc (suc i)))) (suc f) (record_failure (clock (suc (suc i))) u r)
                (omega arith)
                (unfold step in
                  failure-counts-at r (clock (suc (suc i))) u u f t (eq_refl u) (omega arith) h))
          | inr last ↦ rw last (unfold step in success-resets-at r u f t h)
        ]

  report-serve_http :
      (max_retries : ℕ) (r : Registry)
      → max_retries < t
      → CountingAt 0 t u r
      → CountingAt 0 t u (
          report clock 0
            (serve_http method (λ n. some u) (λ n server. status (codes n)) max_retries).1
            r)
  unfolding serve_http max_attempts
  report-serve_http max_retries r room h = elim (Bool-cases (idempotent_method method)) [
    | inl safe ↦
        let more : suc max_retries ≡ 1 + max_retries = omega arith in
        rw (safe, max_attempts)
          (subst (λ n. CountingAt 0 t u (report clock 0 (answered n 0 0).1 r)) more
            (report-attempts max_retries 0 0 0 0 r (omega arith) h))
    | inr once ↦ rw (once, max_attempts) (report-attempts 0 0 0 0 0 r (omega arith) h)
  ]

-- Where requests are served one after the other, each reported before the next begins, and every
-- attempt goes to the same backend and is answered with a status, the circuit of this backend stays
-- closed, with no failure counted at the end of a request, whatever the statuses are, 502, 503 and 504
-- each time included, as long as there are fewer retries than failures that open it.
pub unavailable_never_opens :
    (u : String) (t max_retries : ℕ) (qs : List Exchanged) (r : Registry)
    → max_retries < t
    → CountingAt 0 t u r
    → CountingAt 0 t u (serve_all max_retries u qs r)
unfolding serve_all
unavailable_never_opens u t max_retries [] r room h = h
unavailable_never_opens u t max_retries (q ∷ qs) r room h =
    unavailable_never_opens u t max_retries qs _ room
      (report-serve_http u t q.method q.codes q.clock max_retries r room h)
