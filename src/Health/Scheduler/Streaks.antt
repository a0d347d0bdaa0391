-- ===== src/Health/Scheduler/Streaks.antt =====
-- What a probe writes about a backend that goes down and comes up again.
use haribon.Prelude.{
  ℕ, zero, suc, ◌+◌, ◌≤◌, ◌<◌, ◌≡◌, ◌⊎◌, refl, sym, subst, ap, ap₂, inl, inr, ◌∙◌, String, Bool,
  true, false, some, List, [], ◌∷◌, ◌++◌, pos, max_int64, arith,
}
use mathlib.Core.List.{append_assoc}
use haribon.Config.{Config}
use haribon.Health.Scheduler.{SchedulerConfig, Probe, StateWrite, new_probe, tick, probe_loop}
use haribon.Health.Scheduler.Pool.{
  Response, not_built, failed, status, check, Scheduler, start_scheduler, new_scheduler,
}
use haribon.Health.Scheduler.Hysteresis.{
  Passing, Failing, fail-Passing, pass-Failing, fail_turns, pass_turns,
}

-- An answer that counts against a backend: none at all, or a status below 200 or from 300 on.
abbrev pub IsBad : Response → Type 0
IsBad not_built = Unit {0}
IsBad failed = Unit {0}
IsBad (status code) = (code < 200) ⊎ (300 ≤ code)

abbrev pub IsGood : Response → Type 0
IsGood not_built = ⊥
IsGood failed = ⊥
IsGood (status code) = (200 ≤ code) × (code < 300)

-- A row of that many answers, each as `P` says.
abbrev pub Consecutive : (Response → Type 0) → ℕ → List Response → Type 0
Consecutive P zero [] = Unit {0}
Consecutive P zero (r ∷ rs) = ⊥
Consecutive P (suc n) [] = ⊥
Consecutive P (suc n) (r ∷ rs) = P r × Consecutive P n rs

bad-check : (r : Response) → IsBad r → check r ≡ false
unfolding check
bad-check not_built h = refl
bad-check failed h = refl
bad-check (status code) (inl h) = ground arith
bad-check (status code) (inr h) = ground arith

good-check : (r : Response) → IsGood r → check r ≡ true
unfolding check
good-check not_built h = absurd h
good-check failed h = absurd h
good-check (status code) h = ground arith

-- The results of the checks.
abbrev pub checks : List Response → List Bool
checks [] = []
checks (r ∷ rs) = check r ∷ checks rs

checks-append : (rs qs : List Response) → checks (rs ++ qs) ≡ checks rs ++ checks qs
checks-append [] qs = refl
checks-append (r ∷ rs) qs = ap (λ l. check r ∷ l) (checks-append rs qs)

module _ (cfg : SchedulerConfig) (backend : String) where
  abbrev looped : List Bool → Probe → Probe × List StateWrite
  looped oks p = probe_loop cfg backend oks p

  probe_loop-append :
      (xs ys : List Bool) (p : Probe)
      → ((looped (xs ++ ys) p).1 ≡ (looped xs p).1 ++ (looped ys (looped xs p).0).1)
        × ((looped (xs ++ ys) p).0 ≡ (looped ys (looped xs p).0).0)
  unfolding probe_loop
  probe_loop-append [] ys p = (refl, refl)
  probe_loop-append (x ∷ xs) ys p =
      let after = tick cfg backend x p in
      let (written, left) = probe_loop-append xs ys after.0 in
      (
        ap (λ ws. after.1 ++ ws) written
            ∙ sym (append_assoc after.1 (looped xs after.0).1 (looped ys (looped xs after.0).0).1),
        left,
      )

  goes_down :
      (t n f : ℕ) (rs : List Response) (p : Probe)
      → cfg.unhealthy_threshold ≡ pos t
      → t ≤ max_int64
      → f + suc n ≡ t
      → Consecutive IsBad (suc n) rs
      → Passing f p
      → ((looped (checks rs) p).1
          ≡ record { backend = backend; healthy = false; results = pos t } ∷ [])
        × Failing 0 (looped (checks rs) p).0
  unfolding probe_loop
  goes_down t n f [] p limit fits full row h = absurd row
  goes_down t zero f (r ∷ q ∷ rs) p limit fits full row h = absurd row.1
  goes_down t zero f (r ∷ []) p limit fits full row h = rw (bad-check r row.0) (
      let (written, down) = fail_turns cfg backend t f p limit fits (omega arith) h in
      (ap (λ ws. ws ++ []) written, down))
  goes_down t (suc n) f (r ∷ rs) p limit fits full row h = rw (bad-check r row.0) (
      let (now, quiet) = fail-Passing cfg backend t f p limit fits (omega arith) h in
      let (written, down) =
        goes_down t n (suc f) rs (tick cfg backend false p).0 limit fits (omega arith) row.1 now in
      (ap₂ (λ a b. a ++ b) quiet written, down))

  comes_up :
      (t n s : ℕ) (rs : List Response) (p : Probe)
      → cfg.healthy_threshold ≡ pos t
      → t ≤ max_int64
      → s + suc n ≡ t
      → Consecutive IsGood (suc n) rs
      → Failing s p
      → ((looped (checks rs) p).1
          ≡ record { backend = backend; healthy = true; results = pos t } ∷ [])
        × Passing 0 (looped (checks rs) p).0
  unfolding probe_loop
  comes_up t n s [] p limit fits full row h = absurd row
  comes_up t zero s (r ∷ q ∷ rs) p limit fits full row h = absurd row.1
  comes_up t zero s (r ∷ []) p limit fits full row h = rw (good-check r row.0) (
      let (written, up) = pass_turns cfg backend t s p limit fits (omega arith) h in
      (ap (λ ws. ws ++ []) written, up))
  comes_up t (suc n) s (r ∷ rs) p limit fits full row h = rw (good-check r row.0) (
      let (now, quiet) = pass-Failing cfg backend t s p limit fits (omega arith) h in
      let (written, up) =
        comes_up t n (suc s) rs (tick cfg backend true p).0 limit fits (omega arith) row.1 now in
      (ap₂ (λ a b. a ++ b) quiet written, up))

  down_and_up :
      (t n : ℕ) (bad good : List Response)
      → cfg.unhealthy_threshold ≡ pos (suc t)
      → cfg.healthy_threshold ≡ pos (suc n)
      → suc t ≤ max_int64
      → suc n ≤ max_int64
      → Consecutive IsBad (suc t) bad
      → Consecutive IsGood (suc n) good
      → ((looped (checks (bad ++ good)) new_probe).1
          ≡ record { backend = backend; healthy = false; results = pos (suc t) }
            ∷ record { backend = backend; healthy = true; results = pos (suc n) }
            ∷ [])
        × Passing 0 (looped (checks (bad ++ good)) new_probe).0
  unfolding new_probe
  down_and_up t n bad good lu lh fu fh rb rg =
      let start : Passing 0 new_probe = record { is_healthy = refl; counted = refl } in
      let (first, down) = goes_down (suc t) t 0 bad new_probe lu fu (omega arith) rb start in
      let (last, up) =
        comes_up (suc n) n 0 good (looped (checks bad) new_probe).0 lh fh (omega arith) rg down in
      let (written, left) = probe_loop-append (checks bad) (checks good) new_probe in
      rw (checks-append bad good)
        (written ∙ ap₂ (λ a b. a ++ b) first last, subst (Passing 0) (sym left) up)

scheduler_of :
    (cfg : Config) (urls : List String) (s : Scheduler)
    → start_scheduler cfg urls ≡ some s
    → (s.cfg.unhealthy_threshold ≡ cfg.health.unhealthy_threshold)
      × (s.cfg.healthy_threshold ≡ cfg.health.healthy_threshold)
unfolding start_scheduler new_scheduler
scheduler_of cfg urls s h = ground (arith, h)

-- Under the scheduler that a configuration with thresholds of at least one starts, a new probe whose
-- first checks fail as many times as the threshold says, and then succeed as many times as the other
-- one says, writes exactly two states, whatever the backend: unhealthy with the last failure and
-- healthy with the last success, each with the length of its row. A check fails exactly if the request
-- cannot be built or sent, or its status is not 200 to 299.
pub row_turns :
    (cfg : Config) (urls : List String) (s : Scheduler) (backend : String) (t n : ℕ)
    (bad good : List Response)
    → start_scheduler cfg urls ≡ some s
    → cfg.health.unhealthy_threshold ≡ pos (suc t)
    → cfg.health.healthy_threshold ≡ pos (suc n)
    → suc t ≤ max_int64
    → suc n ≤ max_int64
    → Consecutive IsBad (suc t) bad
    → Consecutive IsGood (suc n) good
    → ((probe_loop s.cfg backend (checks (bad ++ good)) new_probe).1
        ≡ record { backend = backend; healthy = false; results = pos (suc t) }
          ∷ record { backend = backend; healthy = true; results = pos (suc n) }
          ∷ [])
      × ((probe_loop s.cfg backend (checks (bad ++ good)) new_probe).0.current_healthy ≡ true)
row_turns cfg urls s backend t n bad good started lu lh fu fh rb rg =
    let (limit, other) = scheduler_of cfg urls s started in
    let (written, up) =
      down_and_up s.cfg backend t n bad good (limit ∙ lu) (other ∙ lh) fu fh rb rg in
    (written, up.is_healthy)
