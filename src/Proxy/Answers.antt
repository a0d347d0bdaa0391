-- ===== src/Proxy/Answers.antt =====
-- What the client is told.
use haribon.Prelude.{
  ℕ, zero, suc, ◌+◌, ◌<◌, ◌≡◌, refl, sym, subst, String, true, false, ◌&&◌, ◌⊎◌, inl, inr, Option,
  none, some, arith, ltb, contains, List, [], ◌∷◌, str_eq, eq_iff, ◌∙◌, if◌then◌else◌, Bool-cases,
  Option-cases,
}
use haribon.Proxy.Attempts.{
  Exchange, not_built, failed, status, Answer, forwarded, all_failed, attempts, max_attempts,
  serve_http, idempotent_method, retryable_status,
}

abbrev pub Unanswered : Exchange → Type 0
Unanswered x = (x ≡ not_built) ⊎ (x ≡ failed)

pub exchange-cases : (x : Exchange) → Unanswered x ⊎ ((code : ℕ) × (x ≡ status code))
exchange-cases not_built = inl (inl refl)
exchange-cases failed = inl (inr refl)
exchange-cases (status code) = inr (code, refl)

-- 502 Bad Gateway, 503 Service Unavailable and 504 Gateway Timeout.
abbrev pub SaysUnavailable : ℕ → Type 0
SaysUnavailable code = (code ≡ 502) ⊎ (code ≡ 503) ⊎ (code ≡ 504)

-- Methods that may be repeated.
abbrev pub repeatable : List String
repeatable = "GET" ∷ "HEAD" ∷ "OPTIONS" ∷ "PUT" ∷ "DELETE" ∷ []

-- The number of attempts that a request may take.
abbrev pub Limit : String → ℕ → ℕ → Type 0
Limit method max_retries limit =
    ((contains repeatable method ≡ true) × (limit ≡ suc max_retries))
    ⊎ ((contains repeatable method ≡ false) × (limit ≡ 1))

says_unavailable : (code : ℕ) → retryable_status code ≡ true → SaysUnavailable code
unfolding retryable_status
says_unavailable code h = ground arith

says_otherwise : (code : ℕ) → retryable_status code ≡ false → ¬ (SaysUnavailable code)
unfolding retryable_status
says_otherwise code h (inl e) = ground arith
says_otherwise code h (inr (inl e)) = ground arith
says_otherwise code h (inr (inr e)) = ground arith

str_eq_comm : (s t : String) → str_eq s t ≡ str_eq t s
str_eq_comm s t = ground (arith, eq_iff s t, eq_iff t s)

repeatable-eq : (method : String) → contains repeatable method ≡ idempotent_method method
unfolding idempotent_method
repeatable-eq method = ground (
  arith,
  str_eq_comm "GET" method,
  str_eq_comm "HEAD" method,
  str_eq_comm "OPTIONS" method,
  str_eq_comm "PUT" method,
  str_eq_comm "DELETE" method,
)

module _ (method : String) (picks : ℕ → Option String) (exchange : ℕ → String → Exchange) where
  -- An attempt that the handler follows with another: no status came back, or one that says that the
  -- backend is unavailable.
  abbrev pub InVain : ℕ → Type 0
  InVain i =
      (s : String) × (picks i ≡ some s)
      × (Unanswered (exchange i s)
          ⊎ ((code : ℕ) × (exchange i s ≡ status code) × SaysUnavailable code))

  abbrev pub AllInVain : ℕ → Type 0
  AllInVain zero = Unit {0}
  AllInVain (suc n) = AllInVain n × InVain n

  -- A forwarded status is the one that the backend picked at that attempt gave, and does not say that
  -- the backend is unavailable, but at the last attempt; the handler gives up where the balancer has
  -- no backend, or after a last attempt that no status came back from. The number is that of the
  -- attempts before, all of which were in vain.
  abbrev pub Answered : ℕ → Answer → Type 0
  Answered limit (forwarded s code n) =
      (n < limit)
      × AllInVain n
      × (picks n ≡ some s)
      × (exchange n s ≡ status code)
      × ((suc n ≡ limit) ⊎ (¬ (SaysUnavailable code)))
  Answered limit (all_failed n) =
      (n < limit)
      × AllInVain n
      × ((picks n ≡ none)
          ⊎ ((suc n ≡ limit) × ((s : String) × (picks n ≡ some s) × Unanswered (exchange n s))))

  abbrev tries : ℕ → ℕ → ℕ
  tries attempt retries = if ltb 0 attempt then suc retries else retries

  abbrev answer : ℕ → ℕ → ℕ → Answer
  answer left attempt retries = (attempts method picks exchange left attempt retries).0

  -- What the attempts after this one come to.
  abbrev Later : ℕ → ℕ → Type 0
  Later left attempt =
      (l : ℕ)
      → left ≡ suc l
      → AllInVain (suc attempt)
      → Answered (attempt + suc left) (attempts method picks exchange left (suc attempt) attempt).0

  -- What is left to do after an attempt that brought no status.
  continued :
      (left attempt : ℕ) (s : String)
      → AllInVain attempt
      → picks attempt ≡ some s
      → Unanswered (exchange attempt s)
      → Later left attempt
      → Answered (attempt + suc left) (attempts method picks exchange left (suc attempt) attempt).0
  unfolding attempts
  continued zero attempt s before e none_came ih =
      (omega arith, before, inr (omega arith, (s, e, none_came)))
  continued (suc l) attempt s before e none_came ih = ih l refl (before, (s, e, inl none_came))

  -- A status that is retried leaves an attempt to make.
  one_left :
      (code left : ℕ)
      → (retryable_status code && (idempotent_method method && ltb 0 left)) ≡ true
      → (l : ℕ) × (left ≡ suc l) × SaysUnavailable code
  one_left code zero h = ground arith
  one_left code (suc l) h = (l, refl, says_unavailable code (ground arith))

  -- A status that is not retried is not one of the three, but at the last attempt.
  final :
      (code left attempt : ℕ)
      → (retryable_status code && (idempotent_method method && ltb 0 left)) ≡ false
      → (idempotent_method method ≡ true) ⊎ (left ≡ 0)
      → (suc attempt ≡ attempt + suc left) ⊎ (¬ (SaysUnavailable code))
  final code zero attempt h allowed = inl (omega arith)
  final code (suc left) attempt h (inl repeats) = inr (says_otherwise code (ground arith))
  final code (suc left) attempt h (inr last) = absurd (omega arith)

  attempt-Answered :
      (left attempt retries : ℕ)
      → tries attempt retries ≡ attempt
      → (idempotent_method method ≡ true) ⊎ (left ≡ 0)
      → AllInVain attempt
      → Later left attempt
      → Answered (attempt + suc left) (attempts method picks exchange (suc left) attempt retries).0
  unfolding attempts
  attempt-Answered left attempt retries h allowed before ih =
      let limit : ℕ = attempt + suc left in
      elim (Option-cases (picks attempt)) [
        | inl e ↦
            let same : answer (suc left) attempt retries ≡ all_failed attempt =
              rw (e, answer, attempts, h) refl in
            subst (Answered limit) (sym same) (omega arith, before, inl e)
        | inr (s, e) ↦ elim (exchange-cases (exchange attempt s)) [
          | inl (inl x) ↦
              let same : answer (suc left) attempt retries ≡ answer left (suc attempt) attempt =
                rw (e, x, answer, attempts, h) refl in
              subst (Answered limit) (sym same) (continued left attempt s before e (inl x) ih)
          | inl (inr x) ↦
              let same : answer (suc left) attempt retries ≡ answer left (suc attempt) attempt =
                rw (e, x, answer, attempts, h) refl in
              subst (Answered limit) (sym same) (continued left attempt s before e (inr x) ih)
          | inr (code, x) ↦
              elim (Bool-cases
                (retryable_status code && (idempotent_method method && ltb 0 left))) [
                  | inl again ↦
                      let (l, eq, says) = one_left code left again in
                      let same : answer (suc left) attempt retries
                          ≡ answer left (suc attempt) attempt =
                        rw (e, x, again, answer, attempts, h) refl in
                      subst (Answered limit) (sym same)
                        (ih l eq (before, (s, e, inr (code, x, says))))
                  | inr last ↦
                      let same : answer (suc left) attempt retries ≡ forwarded s code attempt =
                        rw (e, x, last, answer, attempts, h) refl in
                      subst (Answered limit) (sym same)
                        (omega arith, before, e, x, final code left attempt last allowed)
                ]
        ]
      ]

  attempts-Answered :
      (left attempt retries : ℕ)
      → tries attempt retries ≡ attempt
      → (idempotent_method method ≡ true) ⊎ (left ≡ 0)
      → AllInVain attempt
      → Answered (attempt + suc left) (attempts method picks exchange (suc left) attempt retries).0
  attempts-Answered zero attempt retries h allowed before =
      attempt-Answered zero attempt retries h allowed before (λ l e b. absurd (omega arith))
  attempts-Answered (suc left) attempt retries h (inr last) before = absurd (omega arith)
  attempts-Answered (suc left) attempt retries h (inl repeats) before =
      attempt-Answered (suc left) attempt retries h (inl repeats) before (λ l e b.
        subst (λ n. Answered n (attempts method picks exchange (suc left) (suc attempt) attempt).0)
          (omega arith)
          (attempts-Answered left (suc attempt) attempt (ground arith) (inl repeats) b))

  -- Whatever the balancer picks and the network answers, at most one attempt is made for a method
  -- other than GET, HEAD, OPTIONS, PUT and DELETE, and at most one more than the retries allowed for
  -- these. The client is told, with the number of attempts that came before as the number of retries:
  -- the status that the picked backend gave at that attempt, which is not 502, 503 or 504 unless it
  -- was the last attempt allowed; or that all backends failed, only where the balancer had none to
  -- give or the last attempt allowed brought no status. And each attempt that came before brought no
  -- status or one of these three.
  pub serve_http-Answered :
      (max_retries : ℕ)
      → (limit : ℕ) × Limit method max_retries limit
        × Answered limit (serve_http method picks exchange max_retries).0
  unfolding serve_http max_attempts
  serve_http-Answered max_retries = elim (Bool-cases (idempotent_method method)) [
    | inl repeats ↦ rw repeats (
      suc max_retries,
      inl (repeatable-eq method ∙ repeats, refl),
      subst (λ n. Answered (suc max_retries) (attempts method picks exchange n 0 0).0)
          {x = suc max_retries} (omega arith)
          (subst (λ n. Answered n (attempts method picks exchange (suc max_retries) 0 0).0)
            (omega arith) (attempts-Answered max_retries 0 0 (ground arith) (inl repeats) tt)),
    )
    | inr once ↦ rw once (
      1,
      inr (repeatable-eq method ∙ once, refl),
      attempts-Answered 0 0 0 (ground arith) (inr refl) tt,
    )
  ]
