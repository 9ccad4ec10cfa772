-- ===== src/Scheduler/Runtime/Methods/Changes.antt =====
-- `resume_job`, `delete_job`, `cancel_job` and `reschedule_one_shot`.

use ai_lab_os.Prelude.{
  Bool, true, false, not, ◌||◌, Option, none, some, String, if◌then◌else◌, Result, ok, err,
}
use ai_lab_os.Scheduler.Models.{
  Instant, JsonObject, JobStatus, Trigger, Job, is_running, is_paused, is_dispatchable,
}
use ai_lab_os.Scheduler.Faults.{SchedulerError, job_state, trigger_error}
use ai_lab_os.Scheduler.Trigger.{compute_next, validate}
use ai_lab_os.Scheduler.Store.Database.{Database}
use ai_lab_os.Scheduler.Store.Jobs as Jobs
use ai_lab_os.Scheduler.Registry.{unregister}
use ai_lab_os.Scheduler.Runtime.{Config, Runtime}
use ai_lab_os.Scheduler.Runtime.Run.{is_one_shot, is_manual}
use ai_lab_os.Scheduler.Runtime.Methods.{get_job, synced, after_change, changed_in_memory}

unfoldable pub next_of : Instant → Trigger → Result SchedulerError (Option Instant)
unfolding compute_next
next_of now trigger =
    if is_manual trigger.trigger_type then ok trigger.next_run_at else compute_next trigger now

-- A job whose next instant could be computed.
unfoldable pub resume_at :
    Config
    → Instant
    → Job
    → Result SchedulerError (Option Instant)
    → Runtime
    → Result SchedulerError Bool × Runtime
unfolding after_change changed_in_memory Jobs.resume_job
resume_at config now job (err e) runtime = (err e, runtime)
resume_at config now job (ok next_run_at) runtime =
    if config.persisted
    then after_change (Jobs.resume_job job.info.id job.revision next_run_at now runtime.database)
        runtime
    else changed_in_memory
        (record job {
          status = JobStatus.active;
          trigger = record job.trigger { next_run_at = next_run_at };
        })
        runtime

unfoldable pub resume_found :
    Config → Instant → Option Job → Runtime → Result SchedulerError Bool × Runtime
unfolding next_of resume_at
resume_found config now none runtime = (ok false, runtime)
resume_found config now (some job) runtime =
    if is_paused job.status
    then if validate job.trigger
      then resume_at config now job (next_of now job.trigger) runtime
      else (err trigger_error, runtime)
    else (err job_state, runtime)

unfoldable pub resume_job :
    Config → Instant → String → Runtime → Result SchedulerError Bool × Runtime
unfolding get_job resume_found
resume_job config now job_id runtime =
    let (job, looked) = get_job config job_id runtime in resume_found config now job looked

unfoldable pub unregistered : String → Runtime → Result SchedulerError Bool × Runtime
unfolding unregister
unregistered job_id runtime =
    (ok true, record runtime { registry = (unregister job_id runtime.registry).1 })

unfoldable pub after_delete :
    String → Bool × Database → Runtime → Result SchedulerError Bool × Runtime
unfolding synced unregistered
after_delete job_id (false, db) runtime = synced (err job_state) (record runtime { database = db })
after_delete job_id (true, db) runtime = unregistered job_id (record runtime { database = db })

unfoldable pub delete_found : Config → Option Job → Runtime → Result SchedulerError Bool × Runtime
unfolding after_delete unregistered Jobs.delete_job
delete_found config none runtime = (ok false, runtime)
delete_found config (some job) runtime =
    if is_running job.status
    then (err job_state, runtime)
    else if config.persisted
    then after_delete job.info.id (Jobs.delete_job job.info.id (some job.revision) runtime.database)
        runtime
    else unregistered job.info.id runtime

unfoldable pub delete_job : Config → String → Runtime → Result SchedulerError Bool × Runtime
unfolding get_job delete_found
delete_job config job_id runtime =
    let (job, looked) = get_job config job_id runtime in delete_found config job looked

unfoldable pub after_update : Bool × Database → Runtime → Result SchedulerError Bool × Runtime
unfolding synced
after_update (changed, db) runtime = synced (ok changed) (record runtime { database = db })

-- status in (ACTIVE, RETRYING, PAUSED)
unfoldable pub can_cancel : JobStatus → Bool
can_cancel status = is_dispatchable status || is_paused status

unfoldable pub cancel_found :
    Config → Instant → Option Job → Runtime → Result SchedulerError Bool × Runtime
unfolding after_update can_cancel changed_in_memory Jobs.cancel_job
cancel_found config now none runtime = (ok false, runtime)
cancel_found config now (some job) runtime =
    if config.persisted
    then after_update (Jobs.cancel_job job.info.id now runtime.database) runtime
    else if can_cancel job.status
    then changed_in_memory
        (record job {
          status = JobStatus.cancelled;
          trigger = record job.trigger { next_run_at = none };
          claim_token = none;
          claim_expires_at = none;
        })
        runtime
    else (ok false, runtime)

unfoldable pub cancel_job :
    Config → Instant → String → Runtime → Result SchedulerError Bool × Runtime
unfolding get_job cancel_found
cancel_job config now job_id runtime =
    let (job, looked) = get_job config job_id runtime in cancel_found config now job looked

-- `now` is the system's clock, which `reschedule_job` reads.
unfoldable pub reschedule_found :
    Config
    → Instant
    → Instant
    → String
    → JsonObject
    → Option Job
    → Runtime
    → Result SchedulerError Bool × Runtime
unfolding after_update changed_in_memory Jobs.reschedule_job Jobs.can_reschedule
reschedule_found config now run_at timezone_name action_payload none runtime = (ok false, runtime)
reschedule_found config now run_at timezone_name action_payload (some job) runtime =
    if not (is_one_shot job.trigger.trigger_type)
    then (ok false, runtime)
    else if config.persisted
    then after_update
        (Jobs.reschedule_job job.info.id job.revision run_at timezone_name action_payload now
          runtime.database)
        runtime
    else if Jobs.can_reschedule job.status
    then changed_in_memory
        (record job {
          trigger = record job.trigger {
            run_at = some run_at;
            next_run_at = some run_at;
            timezone = timezone_name;
          };
          action_payload = action_payload;
          status = JobStatus.active;
          retry_count = 0;
          last_error = none;
        })
        runtime
    else (ok false, runtime)

unfoldable pub reschedule_one_shot :
    Config
    → Instant
    → String
    → Instant
    → String
    → JsonObject
    → Runtime
    → Result SchedulerError Bool × Runtime
unfolding get_job reschedule_found
reschedule_one_shot config now job_id run_at timezone_name action_payload runtime =
    let (job, looked) = get_job config job_id runtime in
    reschedule_found config now run_at timezone_name action_payload job looked
