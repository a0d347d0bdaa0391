-- ===== src/Health/Scheduler/Examples.antt =====
-- The probe's theorems at concrete results: three failures in a row turn the backend, and two
-- successes turn it back.
use haribon.Prelude.{inr, ◌++◌, some, ◌≡◌, refl, true, false, List, [], ◌∷◌, pos, arith, inc_int64}
use haribon.Health.Scheduler.{SchedulerConfig, new_probe, probe_loop, tick}
use haribon.Config.{Config, zero_config}
use haribon.Health.Scheduler.Pool.{
  Response, Scheduler, not_built, failed, status, start_scheduler, new_scheduler,
}
use haribon.Health.Scheduler.Streaks.{checks, row_turns}

abbrev config : SchedulerConfig
config = record { healthy_threshold = pos 2; unhealthy_threshold = pos 3 }

three_failures :
    (probe_loop config "a" (false ∷ false ∷ false ∷ []) new_probe).1
    ≡ record { backend = "a"; healthy = false; results = pos 3 } ∷ []
unfolding probe_loop new_probe tick inc_int64
three_failures = refl

abbrev loaded : Config
loaded = record zero_config {
  health = record zero_config.health {
    enabled = true;
    healthy_threshold = pos 2;
    unhealthy_threshold = pos 3;
  };
}

abbrev scheduler : Scheduler
scheduler = record { backends = "a" ∷ "b" ∷ []; cfg = config }

scheduler_is_started : start_scheduler loaded ("a" ∷ "b" ∷ []) ≡ some scheduler
unfolding start_scheduler new_scheduler
scheduler_is_started = refl

abbrev bad : List Response
bad = status 500 ∷ failed ∷ not_built ∷ []

abbrev good : List Response
good = status 204 ∷ status 200 ∷ []

row_turns_example :
    ((probe_loop config "a" (checks (bad ++ good)) new_probe).1
      ≡ record { backend = "a"; healthy = false; results = pos 3 }
        ∷ record { backend = "a"; healthy = true; results = pos 2 }
        ∷ [])
    × ((probe_loop config "a" (checks (bad ++ good)) new_probe).0.current_healthy ≡ true)
row_turns_example =
    row_turns loaded ("a" ∷ "b" ∷ []) scheduler "a" 2 1 bad good scheduler_is_started refl refl
      (omega arith) (omega arith) (inr (omega arith), (tt, (tt, tt)))
      ((omega arith, omega arith), ((omega arith, omega arith), tt))
