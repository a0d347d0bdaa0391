-- ===== src/Health/Scheduler/Pool.antt =====
-- internal/health/scheduler.go, cli/engine.go: the check that a probe makes, and the scheduler of a pool.
use haribon.Prelude.{
  ℕ, String, Bool, false, ◌&&◌, Option, none, some, List, leb, ltb, if◌then◌else◌,
}
use haribon.Config.{Config}
use haribon.Health.Scheduler.{SchedulerConfig}

-- What comes of a probe's request: it cannot be built, it fails, or a status comes back.
pub data Response : Type 0 where
  not_built failed : Response
  status : ℕ → Response

-- func (s *Scheduler) check
unfoldable pub check : Response → Bool
check not_built = false
check failed = false
check (status code) = leb 200 code && ltb code 300

-- type Scheduler struct
pub record Scheduler : Type 0 where
  pub backends : List String
  pub cfg : SchedulerConfig

-- func NewScheduler
unfoldable pub new_scheduler : List String → SchedulerConfig → Scheduler
new_scheduler backends cfg = record { backends = backends; cfg = cfg }

-- func (r *runtime) startScheduler: none where health checks are switched off
unfoldable pub start_scheduler : Config → List String → Option Scheduler
unfolding new_scheduler
start_scheduler cfg urls =
    if cfg.health.enabled
    then some (
        new_scheduler urls (record {
          healthy_threshold = cfg.health.healthy_threshold;
          unhealthy_threshold = cfg.health.unhealthy_threshold;
        }))
    else none
