-- ===== src/Scheduler/Faults.antt =====
-- core/scheduler/exceptions.py: the exceptions that the scheduler raises. `overflow` is Python's
-- OverflowError, and `task_cancelled` the CancelledError of asyncio.
use ai_lab_os.Scheduler.Store.Database.{PersistenceError}

pub data SchedulerError : Type 0 where
  job_not_found job_already_exists job_state trigger_error : SchedulerError
  overflow task_cancelled : SchedulerError
  persistence : PersistenceError → SchedulerError
