-- ===== src/Proxy/Observed.antt =====
-- What one request adds to the counters: incCounter of internal/proxy/handler.go, and the logger that
-- cli/main.go gives the handler (makeProxyLogger), which counts too. The gauge of the last duration
-- is left out.
use haribon.Prelude.{
  ℕ, zero, suc, ◌+◌, ◌≡◌, refl, String, Bool, false, ◌&&◌, Option, List, [], ◌∷◌, ◌++◌, str_eq,
  arith, ltb, leb, if◌then◌else◌, sym, subst, Option-cases, Bool-cases, inl, inr,
}
use haribon.Proxy.Answers.{exchange-cases}
use haribon.Proxy.Attempts.{
  Exchange, Answer, forwarded, all_failed, ProxyCall, requested, done, success, failure, retried,
  responded, gave_up, attempts, serve_http, idempotent_method, retryable_status,
}
use haribon.Proxy.Accounting.{requests_of}

-- What a counter of the registry is raised by; Inc is by one.
pub data Counted : Type 0 where
  requests_total : String → Counted
  retries_total : String → ℕ → Counted
  responses_total : String → ℕ → Counted
  errors_total : Counted

-- func makeProxyLogger, for an entry with this backend, status and number of retries
unfoldable pub log_counts : String → ℕ → ℕ → List Counted
log_counts backend code retries =
    let again : List Counted = if ltb 0 retries then retries_total backend retries ∷ [] else [] in
    if leb 200 code && ltb code 300 then requests_total backend ∷ again else again

-- func (h *Handler) incCounter and the call of the logger, at each call
unfoldable pub observe : ℕ → List ProxyCall → List Counted
unfolding log_counts
observe retries [] = []
observe retries (requested s ∷ cs) = requests_total s ∷ observe retries cs
observe retries (retried s ∷ cs) = retries_total s 1 ∷ observe retries cs
observe retries (responded s code ∷ cs) =
    responses_total s code ∷ (log_counts s code retries ++ observe retries cs)
observe retries (gave_up ∷ cs) = log_counts "" 503 retries ++ (errors_total ∷ observe retries cs)
observe retries (done s ∷ cs) = observe retries cs
observe retries (success s ∷ cs) = observe retries cs
observe retries (failure s ∷ cs) = observe retries cs

-- What the counter haribon_requests_total of a backend, and that of haribon_retries_total, is raised by.
abbrev pub requests_counted : String → List Counted → ℕ
requests_counted u [] = 0
requests_counted u (requests_total s ∷ cs) = (if str_eq s u then 1 else 0) + requests_counted u cs
requests_counted u (retries_total s n ∷ cs) = requests_counted u cs
requests_counted u (responses_total s code ∷ cs) = requests_counted u cs
requests_counted u (errors_total ∷ cs) = requests_counted u cs

abbrev pub retries_counted : String → List Counted → ℕ
retries_counted u [] = 0
retries_counted u (retries_total s n ∷ cs) = (if str_eq s u then n else 0) + retries_counted u cs
retries_counted u (requests_total s ∷ cs) = retries_counted u cs
retries_counted u (responses_total s code ∷ cs) = retries_counted u cs
retries_counted u (errors_total ∷ cs) = retries_counted u cs

-- The retries after a status of the backend.
abbrev pub retried_of : String → List ProxyCall → ℕ
retried_of u [] = 0
retried_of u (retried s ∷ cs) = (if str_eq s u then 1 else 0) + retried_of u cs
retried_of u (_ ∷ cs) = retried_of u cs

-- The number of retries that the answer reports.
abbrev pub reported : Answer → ℕ
reported (forwarded s code n) = n
reported (all_failed n) = n

-- The backend and the status of the entry that is logged.
abbrev pub logged_backend : Answer → String
logged_backend (forwarded s code n) = s
logged_backend (all_failed n) = ""

abbrev pub is_2xx : Answer → Bool
is_2xx (forwarded s code n) = leb 200 code && ltb code 300
is_2xx (all_failed n) = false

-- What the logger adds to the two counters of a backend.
abbrev pub Twice : String → ℕ → Answer × List ProxyCall → Type 0
Twice u n served =
    (requests_counted u (observe n served.1)
      ≡ requests_of u served.1
        + (if is_2xx served.0 && str_eq (logged_backend served.0) u then 1 else 0))
    × (retries_counted u (observe n served.1)
        ≡ retried_of u served.1 + (if str_eq (logged_backend served.0) u then n else 0))

counted-append :
    (u : String) (xs ys : List Counted)
    → (requests_counted u (xs ++ ys) ≡ requests_counted u xs + requests_counted u ys)
      × (retries_counted u (xs ++ ys) ≡ retries_counted u xs + retries_counted u ys)
counted-append u [] ys = omega arith
counted-append u (requests_total s ∷ xs) ys = omega (arith, counted-append u xs ys)
counted-append u (retries_total s n ∷ xs) ys = omega (arith, counted-append u xs ys)
counted-append u (responses_total s code ∷ xs) ys = counted-append u xs ys
counted-append u (errors_total ∷ xs) ys = counted-append u xs ys

counted-log_counts :
    (u s : String) (code n : ℕ)
    → (requests_counted u (log_counts s code n)
        ≡ (if (leb 200 code && ltb code 300) && str_eq s u then 1 else 0))
      × (retries_counted u (log_counts s code n) ≡ (if str_eq s u then n else 0))
unfolding log_counts
counted-log_counts u s code n = ground arith

Twice-forwarded :
    (u s : String) (code n tries : ℕ)
    → Twice u n (forwarded s code tries, requested s ∷ done s ∷ success s ∷ responded s code ∷ [])
unfolding observe
Twice-forwarded u s code n tries =
    omega (arith, counted-append u (log_counts s code n) [], counted-log_counts u s code n)

Twice-gave_up : (u : String) (n tries : ℕ) → Twice u n (all_failed tries, gave_up ∷ [])
unfolding observe
Twice-gave_up u n tries = omega (
  arith,
  counted-append u (log_counts "" 503 n) (errors_total ∷ []),
  counted-log_counts u "" 503 n,
)

Twice-unanswered :
    (u s : String) (n : ℕ) (served : Answer × List ProxyCall)
    → Twice u n served
    → Twice u n (served.0, requested s ∷ done s ∷ failure s ∷ served.1)
unfolding observe
Twice-unanswered u s n served h = grind arith

Twice-retried :
    (u s : String) (n : ℕ) (served : Answer × List ProxyCall)
    → Twice u n served
    → Twice u n (served.0, requested s ∷ done s ∷ failure s ∷ retried s ∷ served.1)
unfolding observe
Twice-retried u s n served h = grind arith

replaced :
    (u : String) (n : ℕ) (served other : Answer × List ProxyCall)
    → served ≡ other
    → Twice u n other
    → Twice u n served
replaced u n served other e h = subst (Twice u n) (sym e) h

module _ (method : String) (picks : ℕ → Option String) (exchange : ℕ → String → Exchange) where
  attempts-Twice :
      (u : String) (n left attempt retries : ℕ)
      → Twice u n (attempts method picks exchange left attempt retries)
  unfolding attempts
  attempts-Twice u n zero attempt retries = Twice-gave_up u n retries
  attempts-Twice u n (suc left) attempt retries =
      let tries : ℕ = if ltb 0 attempt then suc retries else retries in
      let rest = attempts method picks exchange left (suc attempt) tries in
      let ih = attempts-Twice u n left (suc attempt) tries in
      let served = attempts method picks exchange (suc left) attempt retries in
      elim (Option-cases (picks attempt)) [
        | inl e ↦
            replaced u n served (all_failed tries, gave_up ∷ []) (rw (e, attempts) refl)
              (Twice-gave_up u n tries)
        | inr (s, e) ↦ elim (exchange-cases (exchange attempt s)) [
          | inl (inl x) ↦
              replaced u n served (rest.0, requested s ∷ done s ∷ failure s ∷ rest.1)
                (rw (e, x, attempts) refl) (Twice-unanswered u s n rest ih)
          | inl (inr x) ↦
              replaced u n served (rest.0, requested s ∷ done s ∷ failure s ∷ rest.1)
                (rw (e, x, attempts) refl) (Twice-unanswered u s n rest ih)
          | inr (code, x) ↦
              elim (Bool-cases
                (retryable_status code && (idempotent_method method && ltb 0 left))) [
                  | inl again ↦
                      replaced u n served
                        (rest.0, requested s ∷ done s ∷ failure s ∷ retried s ∷ rest.1)
                        (rw (e, x, again, attempts) refl) (Twice-retried u s n rest ih)
                  | inr last ↦
                      replaced u n served
                        (
                          forwarded s code tries,
                          requested s ∷ done s ∷ success s ∷ responded s code ∷ [],
                        )
                        (rw (e, x, last, attempts) refl) (Twice-forwarded u s code n tries)
                ]
        ]
      ]

  -- For each backend, haribon_requests_total grows by the requests that were started to it, and by
  -- one more when it gave the forwarded answer with a status of 200 to 299: the logger counts that
  -- request again. haribon_retries_total grows by the retries that a status of the backend caused,
  -- and by all retries of the request again for the backend of the log entry, which is the empty
  -- name when every attempt failed.
  pub serve_http-Twice :
      (u : String) (max_retries : ℕ)
      → Twice u
          (reported (serve_http method picks exchange max_retries).0)
          (serve_http method picks exchange max_retries)
  unfolding serve_http
  serve_http-Twice u max_retries = attempts-Twice u _ _ 0 0
