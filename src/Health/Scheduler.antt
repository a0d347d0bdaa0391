-- ===== src/Health/Scheduler.antt =====
-- internal/health/scheduler.go: the loop of probe for one backend. The result of a check is an input:
-- the network decides it. A tick gives the probe's new counters and what it writes.
pub mod Hysteresis
pub mod Pool
pub mod Streaks
mod Examples
use haribon.Prelude.{
  String, Bool, true, false, not, ◌&&◌, List, [], ◌∷◌, ◌++◌, ℤ, pos, leb_ℤ, inc_int64,
  if◌then◌else◌,
}

-- type SchedulerConfig struct, the thresholds
pub record SchedulerConfig : Type 0 where
  pub healthy_threshold : ℤ
  pub unhealthy_threshold : ℤ

-- the variables of probe
pub record Probe : Type 0 where
  pub consecutive_ok : ℤ
  pub consecutive_fail : ℤ
  pub current_healthy : Bool

-- A call of s.write, with the number that the log line after it gives.
pub record StateWrite : Type 0 where
  pub backend : String
  pub healthy : Bool
  pub results : ℤ

unfoldable pub new_probe : Probe
new_probe = record { consecutive_ok = pos 0; consecutive_fail = pos 0; current_healthy = true }

-- one pass of the loop: `ok` is what s.check returns
unfoldable pub tick : SchedulerConfig → String → Bool → Probe → Probe × List StateWrite
tick cfg backend true p =
    let n = inc_int64 p.consecutive_ok in
    let counted : Probe = record p { consecutive_ok = n; consecutive_fail = pos 0 } in
    if not counted.current_healthy && leb_ℤ cfg.healthy_threshold n
    then (
      record counted { current_healthy = true },
      record { backend = backend; healthy = true; results = n } ∷ [],
    )
    else (counted, [])
tick cfg backend false p =
    let n = inc_int64 p.consecutive_fail in
    let counted : Probe = record p { consecutive_fail = n; consecutive_ok = pos 0 } in
    if counted.current_healthy && leb_ℤ cfg.unhealthy_threshold n
    then (
      record counted { current_healthy = false },
      record { backend = backend; healthy = false; results = n } ∷ [],
    )
    else (counted, [])

-- the loop of probe over the results of its checks
unfoldable pub probe_loop : SchedulerConfig → String → List Bool → Probe → Probe × List StateWrite
unfolding tick
probe_loop cfg backend [] p = (p, [])
probe_loop cfg backend (ok ∷ oks) p =
    let after = tick cfg backend ok p in
    let rest = probe_loop cfg backend oks after.0 in (rest.0, after.1 ++ rest.1)
