-- ===== src/Proxy/Attempts.antt =====
-- internal/proxy/handler.go: the loop of ServeHTTP. The answers of the balancer and of the network
-- are inputs, one for each attempt; the result is what the client is told, with the calls that the
-- handler makes on the balancer, the circuit breaker (which is given) and the metrics, in their order.
use haribon.Prelude.{
  ℕ, zero, suc, ◌+◌, String, Bool, ◌||◌, ◌&&◌, Option, none, some, List, [], ◌∷◌, str_eq, ◌==◌, ltb,
  if◌then◌else◌,
}

unfoldable pub idempotent_method : String → Bool
idempotent_method method =
    str_eq method "GET"
    || str_eq method "HEAD"
    || str_eq method "OPTIONS"
    || str_eq method "PUT"
    || str_eq method "DELETE"

unfoldable pub retryable_status : ℕ → Bool
retryable_status code = code == 502 || code == 503 || code == 504

-- What comes of a request to a backend: it cannot be built, h.client.Do fails, or a status comes back.
pub data Exchange : Type 0 where
  not_built failed : Exchange
  status : ℕ → Exchange

-- The calls on h.bal, h.breaker and the counters.
pub data ProxyCall : Type 0 where
  requested done success failure retried : String → ProxyCall
  responded : String → ℕ → ProxyCall
  gave_up : ProxyCall

-- What the client is told, with the value of X-Haribon-Retries.
pub data Answer : Type 0 where
  forwarded : String → ℕ → ℕ → Answer
  all_failed : ℕ → Answer

unfoldable pub max_attempts : String → ℕ → ℕ
unfolding idempotent_method
max_attempts method max_retries = if idempotent_method method then 1 + max_retries else 1

module _ (method : String) (picks : ℕ → Option String) (exchange : ℕ → String → Exchange) where
  -- the loop, at `attempt`, with `left` attempts of maxAttempts to come, this one included
  unfoldable pub attempts : (left attempt retries : ℕ) → Answer × List ProxyCall
  unfolding idempotent_method retryable_status
  attempts zero attempt retries = (all_failed retries, gave_up ∷ [])
  attempts (suc left) attempt retries =
      let tries : ℕ = if ltb 0 attempt then suc retries else retries in
      let rest = attempts left (suc attempt) tries in
      elim (picks attempt) [
        | none ↦ (all_failed tries, gave_up ∷ [])
        | some server ↦ elim (exchange attempt server) [
          | not_built ↦ (rest.0, requested server ∷ done server ∷ failure server ∷ rest.1)
          | failed ↦ (rest.0, requested server ∷ done server ∷ failure server ∷ rest.1)
          | status code ↦
              if retryable_status code && (idempotent_method method && ltb 0 left)
              then (
                rest.0,
                requested server ∷ done server ∷ failure server ∷ retried server ∷ rest.1,
              )
              else (
                forwarded server code tries,
                requested server ∷ done server ∷ success server ∷ responded server code ∷ [],
              )
        ]
      ]

  unfoldable pub serve_http : ℕ → Answer × List ProxyCall
  unfolding attempts max_attempts
  serve_http max_retries = attempts (max_attempts method max_retries) 0 0
