-- ===== src/Scheduler/Runtime.antt =====
-- `SchedulerRuntime` of core/scheduler/runtime.py: what the runtime keeps besides the database. The
-- clock, the fresh tokens and the lifecycle's answer are arguments of the steps; the events that
-- are published are left out, since a failure to publish is only logged, and kept for Health. One step of the runtime
-- (a tick, a method) is taken to run without another one of the same runtime in between.
pub mod Tick
pub mod Run
pub mod Methods
pub mod Capacity
pub mod Secured
pub mod Leases
pub mod Delivery
pub mod Blocked
pub mod Health
use ai_lab_os.Prelude.{ℕ, Bool, true, false, List, [], ◌∷◌, String, ℤ}
use ai_lab_os.Scheduler.Models.{Job, JobRun, JobStatus, is_running}
use ai_lab_os.Scheduler.Registry.{Registry}
use ai_lab_os.Scheduler.Store.Database.{Database}

-- core/scheduler/config.py; the two times are in microseconds. `persisted` is
-- `self._persistence and self._config.persistence_enabled`.
pub record Config : Type 0 where
  pub max_concurrent_jobs : ℤ
  pub default_timeout : ℤ
  pub claim_ttl : ℕ
  pub retry_delay : ℕ
  pub persisted : Bool

-- A task of `_run_job`.
pub record Launch : Type 0 where
  pub job : Job
  pub run : JobRun
  pub claim_token : String

pub record Runtime : Type 0 where
  pub database : Database
  pub registry : Registry
  pub background_tasks : List Launch

-- A token and a run id.
pub record Fresh : Type 0 where
  pub claim_token : String
  pub run_id : String
