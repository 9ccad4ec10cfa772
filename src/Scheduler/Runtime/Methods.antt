-- ===== src/Scheduler/Runtime/Methods.antt =====
-- `schedule`, `get_job` and `pause_job` of `SchedulerRuntime`; the other methods on jobs are in
-- Changes. The job of the registry that a method changes without persistence is replaced there,
-- since the registry holds the object itself.
pub mod Atomic
pub mod Changes
use mathlib.Core.Option
use mathlib.Core.List.{map}
use ai_lab_os.Prelude.{
  ℕ, ◌+◌, Bool, true, false, not, ◌||◌, Option, none, some, List, [], ◌∷◌, String, str_eq, pos,
  is_some, if◌then◌else◌, Result, ok, err,
}
use ai_lab_os.Sql.{find_key, update_where}
use ai_lab_os.Scheduler.Models.{
  Instant, JsonObject, JobStatus, Trigger, TriggerType, Job, ScheduleRequest, is_running, is_paused,
  is_dispatchable,
}
use ai_lab_os.Scheduler.Faults.{
  SchedulerError, job_already_exists, job_state, trigger_error, persistence,
}
use ai_lab_os.Scheduler.Trigger.{compute_next, validate}
use ai_lab_os.Scheduler.Store.Database.{Database, PersistenceError}
use ai_lab_os.Scheduler.Store.Jobs as Jobs
use ai_lab_os.Scheduler.Store.Loading.{load_jobs}
use ai_lab_os.Scheduler.Registry.{
  Registry, id_of, exists, get_by_name, register, unregister, replace,
}
use ai_lab_os.Scheduler.Registry.Sync.{sync}
use ai_lab_os.Scheduler.Runtime.{Config, Runtime}
use ai_lab_os.Scheduler.Runtime.Run.{is_one_shot, is_manual}

-- trigger.next_run_at = TriggerEngine.compute_next(...)
unfoldable pub with_next :
    Trigger → Result SchedulerError (Option Instant) → Result SchedulerError Trigger
with_next trigger (err e) = err e
with_next trigger (ok next) = ok (record trigger { next_run_at = next })

-- The trigger with the first instant, unless it is manual.
unfoldable pub first_trigger : Instant → Trigger → Result SchedulerError Trigger
unfolding with_next compute_next
first_trigger now trigger =
    if is_manual trigger.trigger_type
    then ok trigger
    else with_next trigger (compute_next trigger now)

-- The job of a request, under a fresh id.
unfoldable pub job_of : Config → String → Instant → ScheduleRequest → Trigger → Job
job_of config job_id now request trigger = record {
  info = record {
    id = job_id;
    name = request.job_name;
    description = "";
    version = "1.0.0";
    tags = request.tags;
    metadata = [];
    created_at = now;
  };
  trigger = trigger;
  workflow_name = request.workflow_name;
  workflow_variables = request.variables;
  action_type = request.action_type;
  action_payload = request.action_payload;
  trace_id = request.trace_id;
  status = JobStatus.active;
  max_retries = pos 3;
  timeout = config.default_timeout;
  max_concurrent = 1;
  retry_count = 0;
  run_count = 0;
  last_run_at = none;
  last_result = "";
  last_error = none;
  claim_token = none;
  claim_expires_at = none;
  updated_at = now;
  revision = 1;
}

unfoldable pub job_with :
    Config
    → String
    → Instant
    → ScheduleRequest
    → Result SchedulerError Trigger
    → Result SchedulerError Job
unfolding job_of
job_with config job_id now request (err e) = err e
job_with config job_id now request (ok trigger) = ok (job_of config job_id now request trigger)

unfoldable pub new_job : Config → String → Instant → ScheduleRequest → Result SchedulerError Job
unfolding first_trigger job_with
new_job config job_id now request =
    job_with config job_id now request (first_trigger now request.trigger)

-- The answer of `save_job`: an exception unregisters the job.
unfoldable pub after_save :
    Job → Result PersistenceError Unit × Database → Runtime → Result SchedulerError Job × Runtime
unfolding unregister
after_save job (err e, db) runtime = (
  err (persistence e),
  record runtime { database = db; registry = (unregister job.info.id runtime.registry).1 },
)
after_save job (ok done, db) runtime = (ok job, record runtime { database = db })

unfoldable pub after_register :
    Config → Job → Result SchedulerError Registry → Runtime → Result SchedulerError Job × Runtime
unfolding after_save Jobs.save_job
after_register config job (err e) runtime = (err e, runtime)
after_register config job (ok known) runtime =
    let registered = record runtime { registry = known } in
    if config.persisted
    then after_save job (Jobs.save_job job runtime.database) registered
    else (ok job, registered)

-- An exception of the first instant comes before the job is registered.
unfoldable pub register_new :
    Config → Result SchedulerError Job → Runtime → Result SchedulerError Job × Runtime
unfolding after_register register
register_new config (err e) runtime = (err e, runtime)
register_new config (ok job) runtime =
    after_register config job (register job runtime.registry) runtime

unfoldable pub schedule :
    Config → String → Instant → ScheduleRequest → Runtime → Result SchedulerError Job × Runtime
unfolding new_job register_new
schedule config job_id now request runtime =
    if is_some (get_by_name request.job_name runtime.registry)
    then (err job_already_exists, runtime)
    else if validate request.trigger
    then register_new config (new_job config job_id now request) runtime
    else (err trigger_error, runtime)

-- The job of the database replaces the one of the registry, if the registry has it.
unfoldable pub known_job : Option Job → Registry → Registry
known_job none registry = registry
known_job (some job) registry =
    update_where (λ known. str_eq known.info.id job.info.id) (λ known. job) registry

unfoldable pub get_job : Config → String → Runtime → Option Job × Runtime
unfolding known_job Jobs.get_job
get_job config job_id runtime =
    let job = Jobs.get_job job_id runtime.database in
    if config.persisted
    then (job, record runtime { registry = known_job job runtime.registry })
    else (find_key id_of job_id runtime.registry, runtime)

-- _sync_registry_from_persistence, whose exception is raised in the place of the result
unfoldable pub synced : Result SchedulerError Bool → Runtime → Result SchedulerError Bool × Runtime
unfolding sync load_jobs
synced result runtime =
    let (done, known) = sync (load_jobs runtime.database) runtime.registry in
    (elim done [ err e ↦ err e | ok d ↦ result ], record runtime { registry = known })

-- The row that a CAS update has returned is put into the registry; if there is none, the registry is
-- synchronized and JobStateError raised.
unfoldable pub after_change : Option Job × Database → Runtime → Result SchedulerError Bool × Runtime
unfolding synced replace
after_change (none, db) runtime = synced (err job_state) (record runtime { database = db })
after_change (some job, db) runtime = elim (replace job runtime.registry) [
  | err e ↦ (err e, record runtime { database = db })
  | ok known ↦ (ok true, record runtime { database = db; registry = known })
]

-- Without persistence.
unfoldable pub changed_in_memory : Job → Runtime → Result SchedulerError Bool × Runtime
unfolding known_job
changed_in_memory job runtime =
    (ok true, record runtime { registry = known_job (some job) runtime.registry })

unfoldable pub pause_found :
    Config → Instant → Option Job → Runtime → Result SchedulerError Bool × Runtime
unfolding after_change changed_in_memory Jobs.pause_job
pause_found config now none runtime = (ok false, runtime)
pause_found config now (some job) runtime =
    if is_running job.status
    then (err job_state, runtime)
    else if config.persisted
    then after_change (Jobs.pause_job job.info.id job.revision now runtime.database) runtime
    else if is_dispatchable job.status
    then changed_in_memory (record job { status = JobStatus.paused }) runtime
    else (err job_state, runtime)

unfoldable pub pause_job :
    Config → Instant → String → Runtime → Result SchedulerError Bool × Runtime
unfolding get_job pause_found
pause_job config now job_id runtime =
    let (job, looked) = get_job config job_id runtime in pause_found config now job looked
