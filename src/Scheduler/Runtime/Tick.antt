-- ===== src/Scheduler/Runtime/Tick.antt =====
-- `_tick` and `_dispatch_due_job` of core/scheduler/runtime.py.
use ai_lab_os.Prelude.{
  ℕ, suc, ◌+◌, Bool, true, false, ◌&&◌, Option, none, some, List, [], ◌∷◌, ◌++◌, String, str_eq,
  at_least, if◌then◌else◌, Result, ok, err,
}
use ai_lab_os.Scheduler.Models.{
  Instant, JobStatus, JobRunStatus, Job, JobRun, is_running, is_dispatchable,
}
use ai_lab_os.Scheduler.Faults.{SchedulerError, trigger_error, persistence}
use ai_lab_os.Scheduler.Trigger.{should_fire, validate}
use ai_lab_os.Scheduler.Store.Database.{Database, PersistenceError}
use ai_lab_os.Scheduler.Store.Claims.{claim_job, release_expired_claims}
use ai_lab_os.Scheduler.Store.Loading.{load_jobs}
use ai_lab_os.Scheduler.Registry.{Registry, replace}
use ai_lab_os.Scheduler.Registry.Sync.{sync}
use ai_lab_os.Scheduler.Runtime.{Config, Launch, Runtime, Fresh}

unfoldable pub count_running : Registry → ℕ
count_running [] = 0
count_running (job ∷ jobs) =
    let rest = count_running jobs in if is_running job.status then suc rest else rest

-- The JobRun of a dispatch.
abbrev pub dispatched_run : Fresh → Instant → Job → JobRun
dispatched_run fresh now job = record {
  id = fresh.run_id;
  job_id = job.info.id;
  job_name = job.info.name;
  status = JobRunStatus.running;
  started_at = now;
  finished_at = none;
  error = none;
  trace_id = if str_eq job.trace_id "" then fresh.run_id else job.trace_id;
  failure = none;
  attempt = job.run_count + 1;
  claim_token = fresh.claim_token;
}

abbrev pub launch : Fresh → Instant → Job → List Launch → List Launch
launch fresh now job tasks =
    tasks
    ++ record { job = job; run = dispatched_run fresh now job; claim_token = fresh.claim_token }
      ∷ []

-- self._registry.replace(job), and the spawn of the task
unfoldable pub launch_known :
    Fresh
    → Instant
    → Job
    → Result SchedulerError Registry
    → Runtime
    → Result SchedulerError Unit × Runtime
launch_known fresh now job (err e) runtime = (err e, runtime)
launch_known fresh now job (ok known) runtime = (
  ok tt,
  record runtime {
    registry = known;
    background_tasks = launch fresh now job runtime.background_tasks;
  },
)

-- What `_dispatch_due_job` does with the answer of `claim_job`.
unfoldable pub launch_claimed :
    Fresh
    → Instant
    → Result PersistenceError (Option Job) × Database
    → Runtime
    → Result SchedulerError Unit × Runtime
unfolding launch_known replace
launch_claimed fresh now (err e, db) runtime =
    (err (persistence e), record runtime { database = db })
launch_claimed fresh now (ok none, db) runtime = (ok tt, record runtime { database = db })
launch_claimed fresh now (ok (some job), db) runtime =
    launch_known fresh now job (replace job runtime.registry) (record runtime { database = db })

-- Without persistence the job in the registry is marked.
unfoldable pub marked : Config → Fresh → Instant → Job → Job
marked config fresh now job = record job {
  status = JobStatus.running;
  claim_token = some fresh.claim_token;
  claim_expires_at = some (now + config.claim_ttl);
}

unfoldable pub dispatch_due_job :
    Config → Fresh → Instant → Job → Runtime → Result SchedulerError Unit × Runtime
unfolding count_running launch_claimed launch_known marked claim_job replace
dispatch_due_job config fresh now job runtime =
    if at_least (count_running runtime.registry) config.max_concurrent_jobs
    then (ok tt, runtime)
    else if config.persisted
    then launch_claimed fresh now
        (claim_job job.info.id now fresh.claim_token (now + config.claim_ttl) fresh.run_id
          runtime.database)
        runtime
    else let running = marked config fresh now job in
      launch_known fresh now running (replace running runtime.registry) runtime

-- The rest of the loop, unless an exception ends it.
unfoldable pub after_dispatch :
    (Runtime → Result SchedulerError Unit × Runtime)
    → Result SchedulerError Unit × Runtime
    → Result SchedulerError Unit × Runtime
after_dispatch rest (err e, next) = (err e, next)
after_dispatch rest (ok done, next) = rest next

-- for job in active_jobs: the tokens of the dispatch of a job are those that `tokens` gives its id.
-- `accepting` is whether the lifecycle admits work; if not, the tick returns at the first due job.
unfoldable pub dispatch_all :
    Config
    → Bool
    → (String → Fresh)
    → Instant
    → List Job
    → Runtime
    → Result SchedulerError Unit × Runtime
unfolding after_dispatch dispatch_due_job
dispatch_all config accepting tokens now [] runtime = (ok tt, runtime)
dispatch_all config accepting tokens now (job ∷ jobs) runtime = elim (should_fire job.trigger now) [
  | false ↦ dispatch_all config accepting tokens now jobs runtime
  | true ↦ elim accepting [
    | false ↦ (ok tt, runtime)
    | true ↦
        after_dispatch (λ next. dispatch_all config accepting tokens now jobs next)
          (dispatch_due_job config (tokens job.info.id) now job runtime)
  ]
]

unfoldable pub active_jobs : Registry → List Job
active_jobs [] = []
active_jobs (job ∷ jobs) =
    let rest = active_jobs jobs in if is_dispatchable job.status then job ∷ rest else rest

-- Validate the complete set before any dispatch.
unfoldable pub all_valid : List Job → Bool
all_valid [] = true
all_valid (job ∷ jobs) = validate job.trigger && all_valid jobs

-- release_expired_claims and _sync_registry_from_persistence
unfoldable pub with_registry :
    Runtime → Result SchedulerError Unit × Registry → Result SchedulerError Unit × Runtime
with_registry runtime (result, known) = (result, record runtime { registry = known })

unfoldable pub refresh : Config → Instant → Runtime → Result SchedulerError Unit × Runtime
unfolding release_expired_claims with_registry sync load_jobs
refresh config now runtime =
    let released = (release_expired_claims now config.retry_delay runtime.database).1 in
    if config.persisted
    then with_registry (record runtime { database = released })
        (sync (load_jobs released) runtime.registry)
    else (ok tt, runtime)

unfoldable pub dispatch_active :
    Config → Bool → (String → Fresh) → Instant → Runtime → Result SchedulerError Unit × Runtime
unfolding active_jobs all_valid dispatch_all
dispatch_active config accepting tokens now runtime =
    let jobs = active_jobs runtime.registry in
    if all_valid jobs
    then dispatch_all config accepting tokens now jobs runtime
    else (err trigger_error, runtime)

unfoldable pub tick :
    Config → Bool → (String → Fresh) → Instant → Runtime → Result SchedulerError Unit × Runtime
unfolding refresh dispatch_active after_dispatch
tick config accepting tokens now runtime =
    after_dispatch (λ next. dispatch_active config accepting tokens now next)
      (refresh config now runtime)
