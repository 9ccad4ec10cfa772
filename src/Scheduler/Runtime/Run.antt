-- ===== src/Scheduler/Runtime/Run.antt =====
-- `JobExecutor.execute` of core/scheduler/jobs.py, and `_run_job` of core/scheduler/runtime.py.
-- What the handler does is an argument. A failure that it raises comes as `failure_from_exception`
-- converts it; the result value and the latency of a run are left out. Without persistence a job
-- that is running is changed by no method, so the job of the launch is the one in the registry.
pub mod Settled
pub mod Reported
use mathlib.Core.Option
use ai_lab_os.Prelude.{
  ℕ, ◌+◌, Bool, true, false, ◌&&◌, Option, none, some, List, String, str_eq, at_least,
  if◌then◌else◌, Result, ok, err,
}
use ai_lab_os.Errors.{ErrorCategory, internal, dependency_failure, FailureInfo}
use ai_lab_os.Sql.{delete_where, update_where}
use ai_lab_os.Scheduler.Models.{
  Instant, JobStatus, JobRunStatus, Trigger, TriggerType, manual, one_shot, Job, JobRun,
  run_status_value, is_paused,
}
use ai_lab_os.Scheduler.Faults.{SchedulerError, job_state, persistence, task_cancelled}
use ai_lab_os.Scheduler.Trigger.{later, compute_next}
use ai_lab_os.Scheduler.Store.Database.{Database, PersistenceError}
use ai_lab_os.Scheduler.Store.Jobs.{get_job}
use ai_lab_os.Scheduler.Store.Claims.{finalize_claim}
use ai_lab_os.Scheduler.Registry.{Registry, replace}
use ai_lab_os.Scheduler.Runtime.{Config, Launch, Runtime}

-- What becomes of `asyncio.wait_for(handler.execute(job, run))`: the failure of a time-out comes with
-- the text of the run's error.
pub data HandlerOutcome : Type 0 where
  returned : HandlerOutcome
  timed_out : FailureInfo → String → HandlerOutcome
  raised : FailureInfo → HandlerOutcome

-- The await itself: it ends with an outcome, or with a CancelledError of the handler or of the task,
-- which no `except` of `execute` catches.
pub data Awaited : Type 0 where
  ended : HandlerOutcome → Awaited
  cancelled : Awaited

unfoldable pub dependency_error : FailureInfo → FailureInfo
dependency_error failure = elim failure.category [
  | internal ↦ record failure { category = dependency_failure; retryable = true }
  | _ ↦ failure
]

abbrev pub text_or_else : String → String → String
text_or_else a b = if str_eq a "" then b else a

unfoldable pub finished_run : HandlerOutcome → Instant → JobRun → JobRun
unfolding dependency_error
finished_run returned finished run = record run {
  status = JobRunStatus.success;
  finished_at = some finished;
}
finished_run (timed_out failure text) finished run = record run {
  status = JobRunStatus.timeout;
  failure = some failure;
  error = some text;
  finished_at = some finished;
}
finished_run (raised failure) finished run =
    let reported = dependency_error failure in
    record run {
      status = JobRunStatus.failed;
      failure = some reported;
      error = some reported.message;
      finished_at = some finished;
    }

unfoldable pub counted_job : JobRun → Job → Job
counted_job run job = record job {
  last_run_at = run.finished_at;
  last_result = run_status_value run.status;
  last_error = run.failure;
  run_count = job.run_count + 1;
}

unfoldable pub execute :
    Job → JobRun → HandlerOutcome → Instant → Result SchedulerError (Job × JobRun)
unfolding finished_run counted_job
execute job run outcome finished =
    let traced = record run {
      trace_id = text_or_else run.trace_id (text_or_else job.trace_id run.id);
    } in
    let done = finished_run outcome finished traced in
    if is_paused job.status then err job_state else ok (counted_job done job, done)

abbrev pub is_success : JobRunStatus → Bool
is_success JobRunStatus.success = true
is_success _ = false

abbrev pub is_one_shot : TriggerType → Bool
is_one_shot one_shot = true
is_one_shot _ = false

abbrev pub is_manual : TriggerType → Bool
is_manual manual = true
is_manual _ = false

-- The status of the job after a run.
unfoldable pub settled_status : JobRunStatus → Job → JobStatus
settled_status status job =
    if is_success status
    then if is_one_shot job.trigger.trigger_type then JobStatus.completed else JobStatus.active
    else if at_least (job.retry_count + 1) job.max_retries
    then JobStatus.failed
    else JobStatus.retrying

-- The next instant of a job with that status.
unfoldable pub settled_next :
    Config → Instant → JobStatus → Trigger → Result SchedulerError (Option Instant)
unfolding later compute_next
settled_next config now JobStatus.active trigger =
    if is_manual trigger.trigger_type then ok none else compute_next trigger now
settled_next config now JobStatus.retrying trigger = later now config.retry_delay
settled_next config now _ trigger = ok none

-- The job before its next instant is computed.
unfoldable pub judged_job : JobRun → Job → Job
unfolding settled_status
judged_job run job = record job {
  last_error = run.failure;
  retry_count = if is_success run.status then 0 else job.retry_count + 1;
  status = settled_status run.status job;
}

-- An unexpected exception of the executor.
unfoldable pub failed_run : FailureInfo → Instant → JobRun → JobRun
failed_run failure now run = record run {
  status = JobRunStatus.failed;
  failure = some failure;
  error = some "Scheduler runtime failed";
  finished_at = some now;
}

unfoldable pub failed_job : FailureInfo → Instant → Job → Job
failed_job failure now job = record job {
  status = JobStatus.failed;
  last_error = some failure;
  run_count = job.run_count + 1;
  last_run_at = some now;
  last_result = run_status_value JobRunStatus.failed;
}

-- The next instant, or its OverflowError, which is caught like an exception of the executor.
unfoldable pub after_next :
    Instant
    → String
    → FailureInfo
    → Job
    → JobRun
    → Result SchedulerError (Option Instant)
    → Job × JobRun
unfolding failed_run failed_job
after_next now token unexpected job run (err e) =
    (failed_job unexpected now job, failed_run unexpected now run)
after_next now token unexpected job run (ok next) = (
  record job {
    trigger = record job.trigger { next_run_at = next };
    updated_at = now;
    claim_token = some token;
  },
  run,
)

unfoldable pub settle : Config → Instant → String → FailureInfo → Job × JobRun → Job × JobRun
unfolding judged_job settled_next after_next
settle config now token unexpected (job, run) =
    let judged = judged_job run job in
    after_next now token unexpected judged run
      (settled_next config now judged.status judged.trigger)

-- The job and the run that are reported. `unexpected` is what `failure_from_exception` makes of an
-- exception of the executor or of the computation of the next instant.
unfoldable pub reported :
    Config
    → Instant
    → String
    → FailureInfo
    → Job
    → JobRun
    → Result SchedulerError (Job × JobRun)
    → Job × JobRun
unfolding settle failed_run failed_job
reported config now token unexpected job run (err e) =
    (failed_job unexpected now job, failed_run unexpected now run)
reported config now token unexpected job run (ok (done_job, done_run)) =
    settle config now token unexpected (done_job, done_run)

unfoldable pub run_result :
    Config → Launch → HandlerOutcome → FailureInfo → Instant → Instant → Job × JobRun
unfolding execute reported
run_result config launch outcome unexpected finished now =
    let job = record launch.job { status = JobStatus.running } in
    reported config now launch.claim_token unexpected job launch.run
      (execute job launch.run outcome finished)

-- self._registry.replace(persisted), unless the job is gone
unfoldable pub refresh_known : Option Job → Registry → Result SchedulerError Registry
unfolding replace
refresh_known none registry = ok registry
refresh_known (some job) registry = replace job registry

unfoldable pub with_known :
    Runtime → Result SchedulerError Registry → Result SchedulerError Unit × Runtime
with_known runtime (err e) = (err e, runtime)
with_known runtime (ok known) = (ok tt, record runtime { registry = known })

unfoldable pub after_finalize :
    String
    → Runtime
    → Result PersistenceError Unit × Database
    → Result SchedulerError Unit × Runtime
unfolding with_known refresh_known get_job
after_finalize job_id runtime (err e, db) = (err (persistence e), record runtime { database = db })
after_finalize job_id runtime (ok done, db) =
    with_known (record runtime { database = db })
      (refresh_known (get_job job_id db) runtime.registry)

-- The object of a job without persistence, which the registry holds, if it still does.
unfoldable pub released_known : Job → Runtime → Runtime
unfolding update_where
released_known job runtime = record runtime {
  registry =
      update_where (λ (known : Job). str_eq known.info.id job.info.id)
        (λ known. record job { claim_token = none; claim_expires_at = none }) runtime.registry;
}

-- except asyncio.CancelledError: a durable claim is left to expire.
unfoldable pub run_cancelled : Config → Launch → Runtime → Result SchedulerError Unit × Runtime
unfolding released_known
run_cancelled config launch runtime = (
  err task_cancelled,
  if config.persisted
      then runtime
      else released_known (record launch.job { status = JobStatus.active }) runtime,
)

-- What follows the `try`.
unfoldable pub report_result :
    Config → String → Runtime → Job × JobRun → Result SchedulerError Unit × Runtime
unfolding after_finalize finalize_claim released_known
report_result config token runtime (job, run) =
    if config.persisted
    then after_finalize job.info.id runtime (finalize_claim job run token runtime.database)
    else (ok tt, released_known job runtime)

-- `_run_job`, which finishes at `now`; the task is discarded whatever comes of it.
unfoldable pub run_job :
    Config
    → Launch
    → Awaited
    → FailureInfo
    → Instant
    → Instant
    → Runtime
    → Result SchedulerError Unit × Runtime
unfolding run_result report_result run_cancelled
run_job config launch awaited unexpected finished now before =
    let runtime = record before {
      background_tasks =
          delete_where (λ (task : Launch). str_eq task.claim_token launch.claim_token)
            before.background_tasks;
    } in
    elim awaited [
      | ended outcome ↦
          report_result config launch.claim_token runtime
            (run_result config launch outcome unexpected finished now)
      | cancelled ↦ run_cancelled config launch runtime
    ]
