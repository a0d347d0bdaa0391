-- ===== src/Proxy/Examples.antt =====
-- The handler's theorems at one request: "a" answers 503, "b" does not answer, and "a" answers 200.
use haribon.Prelude.{
  ℕ, zero, suc, ◌+◌, ◌≤◌, str_eq, ◌≡◌, refl, String, Option, some, List, [], ◌∷◌, if◌then◌else◌,
}
use haribon.Prelude.Dict.{Dict, get, put, remove}
use haribon.Prelude.{true, pos, arith}
use haribon.Health.Breaker.Defs.{Breaker, Registry, state_closed}
use haribon.Health.Breaker.Threshold.{CountingAt}
use haribon.Proxy.Outcomes.{Exchanged, serve_all, unavailable_never_opens}
use haribon.Proxy.Attempts.{
  Exchange, failed, status, requested, done, success, failure, retried, responded, forwarded,
  serve_http, idempotent_method,
}
use haribon.Proxy.Accounting.{Balanced, requests, serve_http-Balanced}
use haribon.Proxy.Answers.{Answered, Limit, serve_http-Answered}
use haribon.Proxy.Forwarding.{request_headers, chained, kept_value, get-request_headers}
use haribon.Proxy.Observed.{Twice, reported, observe, requests_counted, serve_http-Twice}

abbrev picks : ℕ → Option String
picks zero = some "a"
picks (suc zero) = some "b"
picks (suc (suc n)) = some "a"

abbrev exchange : ℕ → String → Exchange
exchange zero s = status 503
exchange (suc zero) s = failed
exchange (suc (suc n)) s = status 200

served : serve_http "GET" picks exchange 2 ≡ (
  forwarded "a" 200 2,
  requested "a"
      ∷ done "a"
      ∷ failure "a"
      ∷ retried "a"
      ∷ requested "b"
      ∷ done "b"
      ∷ failure "b"
      ∷ requested "a"
      ∷ done "a"
      ∷ success "a"
      ∷ responded "a" 200
      ∷ [],
)
unfolding serve_http
served = refl

serve_http-Balanced_example :
    Balanced "a" (serve_http "GET" picks exchange 2).1
    × (requests (serve_http "GET" picks exchange 2).1
        ≤ 1 + (if idempotent_method "GET" then 2 else 0))
serve_http-Balanced_example = serve_http-Balanced "GET" picks exchange "a" 2

serve_http-Answered_example :
    (limit : ℕ) × Limit "GET" 2 limit
    × Answered "GET" picks exchange limit (serve_http "GET" picks exchange 2).0
serve_http-Answered_example = serve_http-Answered "GET" picks exchange 2

abbrev names : String → List String
names v = v ∷ []

abbrev headers : Dict (List String)
headers = ("Connection", "X-Trace" ∷ []) ∷ ("X-Trace", "1" ∷ []) ∷ ("Accept", "text/html" ∷ []) ∷ []

serve_http-Twice_example :
    Twice "a" (reported (serve_http "GET" picks exchange 2).0) (serve_http "GET" picks exchange 2)
serve_http-Twice_example = serve_http-Twice "GET" picks exchange "a" 2

-- Two requests to "a", and one to "b", are counted as three to "a".
requests_of_a :
    requests_counted "a" (
      observe
        (reported (serve_http "GET" picks exchange 2).0)
        (serve_http "GET" picks exchange 2).1)
    ≡ 3
unfolding serve_http observe
requests_of_a = refl

abbrev sent : Dict (List String)
sent = ("X-Forwarded-For", "10.0.0.1" ∷ "10.0.0.2" ∷ []) ∷ ("Accept", "text/html" ∷ []) ∷ []

-- The address 10.0.0.2 is lost.
only_the_first :
    get (request_headers (λ s. s) names "10.0.0.9" "http" sent) "X-Forwarded-For"
    ≡ some ("10.0.0.1, 10.0.0.9" ∷ [])
unfolding request_headers get put remove
only_the_first = refl

get-request_headers_example :
    get (request_headers (λ s. s) names "10.0.0.9" "http" sent) "X-Forwarded-For" ≡ (
      if str_eq "X-Forwarded-Proto" "X-Forwarded-For"
      then some ("http" ∷ [])
      else if str_eq "X-Forwarded-For" "X-Forwarded-For"
      then some (
          chained (λ s. s) names (kept_value (λ s. s) names sent "X-Forwarded-For") "10.0.0.9" ∷ [])
      else kept_value (λ s. s) names sent "X-Forwarded-For")
unfolding get
get-request_headers_example =
    get-request_headers (λ s. s) names "10.0.0.9" "http" sent "X-Forwarded-For" (refl, (refl, tt))

-- Two requests to "a", which answers 503 each time.
abbrev circuit : Breaker
circuit = record {
  state = state_closed;
  consecutive_fails = pos 0;
  open_at = 0;
  failure_threshold = pos 2;
  cooldown = pos 30;
  has_logger = true;
  backend = "a";
}

abbrev registry : Registry
registry = record { breakers = ("a", circuit) ∷ []; logged = [] }

abbrev unavailable : List Exchanged
unavailable =
    record { method = "GET"; codes = λ n. 503; clock = λ n. n }
    ∷ record { method = "POST"; codes = λ n. 503; clock = λ n. 100 + n }
    ∷ []

circuit-CountingAt : CountingAt 0 2 "a" registry
unfolding get
circuit-CountingAt =
    (circuit, refl, record { is_closed = refl; counted = refl; limit = refl; fits = omega arith })

unavailable_never_opens_example : CountingAt 0 2 "a" (serve_all 1 "a" unavailable registry)
unavailable_never_opens_example =
    unavailable_never_opens "a" 2 1 unavailable registry (omega arith) circuit-CountingAt
