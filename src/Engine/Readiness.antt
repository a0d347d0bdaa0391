-- ===== src/Engine/Readiness.antt =====
-- A backend whose circuit is half-open gets no request until the outcome of its trial is reported;
-- and asking for readiness begins a trial without sending a request.
use haribon.Prelude.{
  ℕ, ◌≡◌, refl, sym, ap, subst, false≢true, String, Bool, true, false, not, none, some, List, [],
  ◌∷◌, Bool-cases, inl, inr,
}
use haribon.Health.Breaker.Defs.{Registry, state_open, state_half_open, is_available}
use haribon.Health.Breaker.Calls.{ask, succeed, fail, step}
use haribon.Health.Breaker.Trial.{InState, step-waits, half_open-refuses, open-admits}
use haribon.Cluster.Defs.{get_health}
use haribon.Balancer.Factory.{Balancer, balancer_next, balancer_next_for_ip}
use haribon.Balancer.Chosen.{Avoids}
use haribon.Balancer.Refused.{balancer_next-Avoids, balancer_next_for_ip-Avoids}
use haribon.Engine.Demands.{
  Demand, route, route_ip, readiness, question, done, success, failure, meet, NeverPicked, NoReport,
}
use haribon.Engine.Defs.{Checker, checker_available, any_available, is_healthy, Engine}
use haribon.Engine.Swappable.{
  Swappable, checker_of, leave, swappable_next, swappable_next_for_ip, swappable_done,
  swappable_available, swappable_success, swappable_failure, has_healthy_backend,
}

-- The checker's breaker waits for the outcome of a trial of `u`.
abbrev pub Waiting : String → Checker → Type 0
Waiting u c = (r : Registry) × (c.breaker ≡ some r) × InState state_half_open u r

-- What the two other gates of the checker say.
abbrev gates : ℕ → String → Checker → Bool × Bool
gates now v c = (
  is_healthy v c.backend_health,
  elim c.node [ none ↦ true | some n ↦ get_health now v (is_healthy v c.backend_health) n ],
)

keeps :
    (now : ℕ) (u v : String) (c : Checker) → Waiting u c → Waiting u (checker_available now v c).1
unfolding checker_available step
keeps now u v c (r, e, h) = elim (Bool-cases (not (gates now v c).0)) [
  | inl down ↦ rw (down, Waiting) (r, e, h)
  | inr up ↦ elim (Bool-cases (not (gates now v c).1)) [
    | inl shunned ↦ rw (up, shunned, Waiting) (r, e, h)
    | inr fine ↦
        rw (up, fine, Waiting)
          ((is_available now v r).1, rw e refl, step-waits r (ask now v) u tt h)
  ]
]

-- The answer yes for a backend with an open circuit begins the trial.
opens :
    (now : ℕ) (u : String) (r : Registry) (c : Checker)
    → c.breaker ≡ some r
    → InState state_open u r
    → (checker_available now u c).0 ≡ true
    → Waiting u (checker_available now u c).1
unfolding checker_available
opens now u r c e h free = elim (Bool-cases (not (gates now u c).0)) [
  | inl down ↦ absurd (false≢true (rw down at free))
  | inr up ↦ elim (Bool-cases (not (gates now u c).1)) [
    | inl shunned ↦ absurd (false≢true (rw (up, shunned) at free))
    | inr fine ↦
        rw (up, fine)
          ((is_available now u r).1, rw e refl, open-admits r now u h (rw (up, fine, e) at free))
  ]
]

refuses : (now : ℕ) (u : String) (c : Checker) → Waiting u c → (checker_available now u c).0 ≡ false
unfolding checker_available
refuses now u c (r, e, h) = elim (Bool-cases (not (gates now u c).0)) [
  | inl down ↦ rw down refl
  | inr up ↦ elim (Bool-cases (not (gates now u c).1)) [
    | inl shunned ↦ rw (up, shunned) refl
    | inr fine ↦ rw (up, fine) (rw e (half_open-refuses r now u h))
  ]
]

-- The current generation waits for the outcome of a trial of `u`.
abbrev pub Waits : String → Swappable → Type 0
Waits u s = (e : Engine) × (s.current ≡ some e) × InState state_half_open u e.breaker

leave-Waits :
    (u : String) (s : Swappable) (e : Engine) (bal : Balancer) (c : Checker)
    → Waiting u c
    → Waits u (leave s e bal c)
unfolding leave
leave-Waits u s e bal c (r, b, h) = (record e { bal = bal; breaker = r }, rw b refl, h)

any_available-Waiting :
    (now : ℕ) (u : String) (bs : List String) (c : Checker)
    → Waiting u c
    → Waiting u (any_available now bs c).1
unfolding any_available
any_available-Waiting now u [] c w = w
any_available-Waiting now u (b ∷ bs) c w = elim (Bool-cases (checker_available now b c).0) [
  | inl free ↦ rw (free, any_available) (keeps now u b c w)
  | inr refused ↦
      rw (refused, any_available)
        (any_available-Waiting now u bs (checker_available now b c).1 (keeps now u b c w))
]

split_report :
    (u : String) (d : Demand) (ds : List Demand)
    → NoReport u (d ∷ ds)
    → NoReport u (d ∷ []) × NoReport u ds
split_report u (success b) ds n = ((n.0, tt), n.1)
split_report u (failure now b) ds n = ((n.0, tt), n.1)
split_report u (route now) ds n = (tt, n)
split_report u (readiness now) ds n = (tt, n)
split_report u (route_ip now ip) ds n = (tt, n)
split_report u (question now b) ds n = (tt, n)
split_report u (done b) ds n = (tt, n)

first_available :
    (now : ℕ) (u : String) (us bs : List String) (c : Checker)
    → bs ≡ u ∷ us
    → (checker_available now u c).0 ≡ true
    → any_available now bs c ≡ (true, (checker_available now u c).1)
unfolding any_available
first_available now u us bs c e free = rw (e, free, any_available) refl

module _ (intn : ℕ → ℕ) (sum32 : String → ℕ) where
  meet-Avoids :
      (u : String) (d : Demand) (s : Swappable)
      → NoReport u (d ∷ [])
      → Waits u s
      → Avoids u (meet intn sum32 d s).0 × Waits u (meet intn sum32 d s).1
  unfolding meet swappable_next swappable_next_for_ip swappable_done swappable_available
      swappable_success swappable_failure has_healthy_backend checker_of step
  meet-Avoids u (route now) s n (e, cur, h) =
      let (avoids, left) =
        balancer_next-Avoids (checker_available now) (Waiting u) u (λ v c. keeps now u v c)
          (λ c. refuses now u c) intn sum32 e.bal (checker_of s e) (e.breaker, refl, h) in
      let asked = balancer_next (checker_available now) intn sum32 e.bal (checker_of s e) in
      rw cur (avoids, leave-Waits u s e asked.1.0 asked.1.1 left)
  meet-Avoids u (route_ip now ip) s n (e, cur, h) =
      let (avoids, left) =
        balancer_next_for_ip-Avoids (checker_available now) (Waiting u) u (λ v c. keeps now u v c)
          (λ c. refuses now u c) intn sum32 e.bal ip (checker_of s e) (e.breaker, refl, h) in
      let asked =
        balancer_next_for_ip (checker_available now) intn sum32 e.bal ip (checker_of s e) in
      rw cur (avoids, leave-Waits u s e asked.1.0 asked.1.1 left)
  meet-Avoids u (readiness now) s n (e, cur, h) = (
    tt,
    rw cur (
        leave-Waits u s e e.bal (any_available now e.backends (checker_of s e)).1
          (any_available-Waiting now u e.backends (checker_of s e) (e.breaker, refl, h))),
  )
  meet-Avoids u (question now b) s n (e, cur, h) = (
    tt,
    rw cur (
        leave-Waits u s e e.bal (checker_available now b (checker_of s e)).1
          (keeps now u b (checker_of s e) (e.breaker, refl, h))),
  )
  meet-Avoids u (done b) s n (e, cur, h) = (tt, rw cur (_, refl, h))
  meet-Avoids u (success b) s n (e, cur, h) =
      (tt, rw cur (_, refl, step-waits e.breaker (succeed b) u (n.0, tt) h))
  meet-Avoids u (failure now b) s n (e, cur, h) =
      (tt, rw cur (_, refl, step-waits e.breaker (fail now b) u (n.0, tt) h))

  never_picked :
      (u : String) (ds : List Demand) (s : Swappable)
      → NoReport u ds
      → Waits u s
      → NeverPicked intn sum32 u ds s
  never_picked u [] s n w = tt
  never_picked u (d ∷ ds) s n w =
      let (first, later) = split_report u d ds n in
      let (avoids, waits) = meet-Avoids u d s first w in
      (avoids, never_picked u ds (meet intn sum32 d s).1 later waits)

-- Where the first backend of the generation has an open circuit and the checker lets it pass, asking
-- for readiness answers yes, and from then on no route picks that backend, whatever the proxy, the
-- probe and the health questions ask, as long as no outcome is reported for it.
pub readiness_uses_trial :
    (intn : ℕ → ℕ) (sum32 : String → ℕ) (now : ℕ) (s : Swappable) (e : Engine) (u : String)
    (us : List String) (ds : List Demand)
    → s.current ≡ some e
    → e.backends ≡ u ∷ us
    → InState state_open u e.breaker
    → (checker_available now u (checker_of s e)).0 ≡ true
    → NoReport u ds
    → ((has_healthy_backend now s).0 ≡ true)
      × NeverPicked intn sum32 u ds (has_healthy_backend now s).1
unfolding has_healthy_backend any_available
readiness_uses_trial intn sum32 now s e u us ds cur first opened free quiet =
    let waits =
      subst (λ p. Waiting u p.1)
        (sym (first_available now u us e.backends (checker_of s e) first free))
        (opens now u e.breaker (checker_of s e) refl opened free) in
    (
      rw cur (ap (λ p. p.0) (first_available now u us e.backends (checker_of s e) first free)),
      never_picked intn sum32 u ds (has_healthy_backend now s).1 quiet (
          rw (cur, has_healthy_backend)
            (leave-Waits u s e e.bal (any_available now e.backends (checker_of s e)).1 waits)),
    )
