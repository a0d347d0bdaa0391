-- ===== src/Health/Scheduler/Hysteresis.antt =====
-- When the probe of a backend changes its mind.
use haribon.Prelude.{
  ℕ, suc, ◌<◌, ◌≤◌, ◌≡◌, refl, ap₂, String, Bool, true, false, List, [], ◌∷◌, ◌++◌, pos, inc_int64,
  max_int64, arith,
}
use haribon.Health.Scheduler.{SchedulerConfig, Probe, tick, probe_loop}

-- After `f` failures in a row, no result of the list makes `t` in a row.
abbrev pub NoFailingStreak : ℕ → ℕ → List Bool → Type 0
NoFailingStreak t f [] = Unit {0}
NoFailingStreak t f (true ∷ oks) = NoFailingStreak t 0 oks
NoFailingStreak t f (false ∷ oks) = (suc f < t) × NoFailingStreak t (suc f) oks

-- After `s` successes in a row, no result of the list makes `t` in a row.
abbrev pub NoPassingStreak : ℕ → ℕ → List Bool → Type 0
NoPassingStreak t s [] = Unit {0}
NoPassingStreak t s (false ∷ oks) = NoPassingStreak t 0 oks
NoPassingStreak t s (true ∷ oks) = (suc s < t) × NoPassingStreak t (suc s) oks

-- A probe that holds its backend healthy, after `f` failures in a row.
pub record Passing (f : ℕ) (p : Probe) : Type 0 where
  pub is_healthy : p.current_healthy ≡ true
  pub counted : p.consecutive_fail ≡ pos f

-- A probe that holds its backend unhealthy, after `s` successes in a row.
pub record Failing (s : ℕ) (p : Probe) : Type 0 where
  pub is_unhealthy : p.current_healthy ≡ false
  pub counted : p.consecutive_ok ≡ pos s

module _ (cfg : SchedulerConfig) (backend : String) where
  pass-Passing :
      (f : ℕ) (p : Probe)
      → Passing f p
      → Passing 0 (tick cfg backend true p).0 × ((tick cfg backend true p).1 ≡ [])
  unfolding tick
  pass-Passing f p h = ground arith

  pub fail-Passing :
      (t f : ℕ) (p : Probe)
      → cfg.unhealthy_threshold ≡ pos t
      → t ≤ max_int64
      → suc f < t
      → Passing f p
      → Passing (suc f) (tick cfg backend false p).0 × ((tick cfg backend false p).1 ≡ [])
  unfolding tick inc_int64
  fail-Passing t f p limit fits lt h = ground arith

  fail-Failing :
      (s : ℕ) (p : Probe)
      → Failing s p
      → Failing 0 (tick cfg backend false p).0 × ((tick cfg backend false p).1 ≡ [])
  unfolding tick
  fail-Failing s p h = ground arith

  pub pass-Failing :
      (t s : ℕ) (p : Probe)
      → cfg.healthy_threshold ≡ pos t
      → t ≤ max_int64
      → suc s < t
      → Failing s p
      → Failing (suc s) (tick cfg backend true p).0 × ((tick cfg backend true p).1 ≡ [])
  unfolding tick inc_int64
  pass-Failing t s p limit fits lt h = ground arith

  -- As long as the failures in a row stay below the threshold, a probe that holds its backend healthy
  -- writes nothing and holds it healthy, whatever the results are otherwise.
  pub probe_loop-Passing :
      (t f : ℕ) (oks : List Bool) (p : Probe)
      → cfg.unhealthy_threshold ≡ pos t
      → t ≤ max_int64
      → NoFailingStreak t f oks
      → Passing f p
      → ((probe_loop cfg backend oks p).0.current_healthy ≡ true)
        × ((probe_loop cfg backend oks p).1 ≡ [])
  unfolding probe_loop
  probe_loop-Passing t f [] p limit fits few h = (h.is_healthy, refl)
  probe_loop-Passing t f (true ∷ oks) p limit fits few h =
      let (now, quiet) = pass-Passing f p h in
      let (left, rest) = probe_loop-Passing t 0 oks _ limit fits few now in
      (left, ap₂ (λ a b. a ++ b) quiet rest)
  probe_loop-Passing t f (false ∷ oks) p limit fits few h =
      let (now, quiet) = fail-Passing t f p limit fits few.0 h in
      let (left, rest) = probe_loop-Passing t (suc f) oks _ limit fits few.1 now in
      (left, ap₂ (λ a b. a ++ b) quiet rest)

  -- As long as the successes in a row stay below the threshold, a probe that holds its backend
  -- unhealthy writes nothing and holds it unhealthy, whatever the results are otherwise.
  pub probe_loop-Failing :
      (t s : ℕ) (oks : List Bool) (p : Probe)
      → cfg.healthy_threshold ≡ pos t
      → t ≤ max_int64
      → NoPassingStreak t s oks
      → Failing s p
      → ((probe_loop cfg backend oks p).0.current_healthy ≡ false)
        × ((probe_loop cfg backend oks p).1 ≡ [])
  unfolding probe_loop
  probe_loop-Failing t s [] p limit fits few h = (h.is_unhealthy, refl)
  probe_loop-Failing t s (false ∷ oks) p limit fits few h =
      let (now, quiet) = fail-Failing s p h in
      let (left, rest) = probe_loop-Failing t 0 oks _ limit fits few now in
      (left, ap₂ (λ a b. a ++ b) quiet rest)
  probe_loop-Failing t s (true ∷ oks) p limit fits few h =
      let (now, quiet) = pass-Failing t s p limit fits few.0 h in
      let (left, rest) = probe_loop-Failing t (suc s) oks _ limit fits few.1 now in
      (left, ap₂ (λ a b. a ++ b) quiet rest)

  -- The failure that completes a row of the threshold's length turns a probe that holds its backend
  -- healthy.
  pub fail_turns :
      (t f : ℕ) (p : Probe)
      → cfg.unhealthy_threshold ≡ pos t
      → t ≤ max_int64
      → suc f ≡ t
      → Passing f p
      → ((tick cfg backend false p).1
          ≡ record { backend = backend; healthy = false; results = pos t } ∷ [])
        × Failing 0 (tick cfg backend false p).0
  unfolding tick inc_int64
  fail_turns t f p limit fits full h = ground arith

  -- The success that completes a row of the threshold's length turns one that does not.
  pub pass_turns :
      (t s : ℕ) (p : Probe)
      → cfg.healthy_threshold ≡ pos t
      → t ≤ max_int64
      → suc s ≡ t
      → Failing s p
      → ((tick cfg backend true p).1
          ≡ record { backend = backend; healthy = true; results = pos t } ∷ [])
        × Passing 0 (tick cfg backend true p).0
  unfolding tick inc_int64
  pass_turns t s p limit fits full h = ground arith
