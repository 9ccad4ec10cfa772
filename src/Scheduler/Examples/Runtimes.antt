-- ===== src/Scheduler/Examples/Runtimes.antt =====
-- The theorems on the runtime at concrete inputs: a persisted job is dispatched by a tick and reported.
use ai_lab_os.Prelude.{
  All, List, ◌++◌, false, ◌+◌, ◌*◌, ◌≡◌, ◌≤◌, refl, true, [], ◌∷◌, ◌⊎◌, arith, pos, String,
}
use ai_lab_os.Errors.{FailureInfo, ErrorCategory, ErrorSeverity}
use ai_lab_os.Sql.{find_key}
use ai_lab_os.Scheduler.Models.{JobRunStatus, ScheduleRequest, second}
use ai_lab_os.Scheduler.Samples.{midnight, report, report_run, every_minute}
use ai_lab_os.Scheduler.Rows.{job_values, row_to_job}
use ai_lab_os.Scheduler.Store.Claims.{claimed_row}
use ai_lab_os.Prelude.{err}
use ai_lab_os.Sql.{update_where}
use ai_lab_os.Sql.Order.{order_by}
use ai_lab_os.Scheduler.Faults.{job_already_exists}
use ai_lab_os.Scheduler.Store.Claims.{release_expired_claims}
use ai_lab_os.Scheduler.Store.Loading.{load_jobs}
use ai_lab_os.Scheduler.Store.Jobs.{save_job}
use ai_lab_os.Scheduler.Store.Steps.{apply, apply_all}
use ai_lab_os.Scheduler.Runtime.Blocked.{tick_blocked}
use ai_lab_os.Scheduler.Registry.{id_of}
use ai_lab_os.Scheduler.Registry.Sync.{sync}
use ai_lab_os.Scheduler.Registry.Mirror.{sync_mirrors}
use ai_lab_os.Scheduler.Runtime.{Config, Launch, Runtime, Fresh}
use ai_lab_os.Scheduler.Runtime.Tick.{count_running, tick, dispatched_run}
use ai_lab_os.Scheduler.Runtime.Capacity.{tick_capacity}
use ai_lab_os.Scheduler.Runtime.Secured.{IsHeld}
use ai_lab_os.Scheduler.Runtime.Leases.{Started, tick_leases}
use ai_lab_os.Scheduler.Runtime.Delivery.{IsDelivered, tick_delivers}
use ai_lab_os.Scheduler.Runtime.Health.{
  Vitals, RuntimeStatus, ticked, tick_failed, health, after_steps, health-after_steps,
}
use ai_lab_os.Scheduler.Runtime.Methods.{schedule}
use ai_lab_os.Scheduler.Runtime.Methods.Atomic.{Atomic, schedule-Atomic}
use ai_lab_os.Scheduler.Runtime.Run.{returned, ended, settle, run_job}
use ai_lab_os.Scheduler.Runtime.Run.Settled.{Settled, settle-Settled}
use ai_lab_os.Scheduler.Runtime.Run.Reported.{Ended, run_job_reports}
use ai_lab_os.Scheduler.Trigger.{validate}
use ai_lab_os.Scheduler.Store.Completion.{claimed-Kept}
use ai_lab_os.Scheduler.Examples.Stores.{saved, saved-IsValid, stored, claimed, claim_succeeds}
use ai_lab_os.Scheduler.Cron.Parse.{cron_steps}

abbrev config : Config
config = record {
  max_concurrent_jobs = pos 10;
  default_timeout = pos 300;
  claim_ttl = 30 * second;
  retry_delay = second;
  persisted = true;
}

abbrev idle : Runtime
idle = record { database = saved; registry = report ∷ []; background_tasks = [] }

abbrev tokens : String → Fresh
tokens job_id = record { claim_token = "a"; run_id = "r1" }

tick_capacity_example :
    ((tick config true tokens midnight idle).1.background_tasks ≡ [])
    ⊎ (count_running (tick config true tokens midnight idle).1.registry ≤ 10)
unfolding find_key
tick_capacity_example = tick_capacity config true tokens midnight idle saved-IsValid (refl, tt)

tick_leases_example :
    Started config tokens midnight refl idle (tick config true tokens midnight idle).1
tick_leases_example = tick_leases config tokens midnight refl true idle saved-IsValid

sync_mirrors_example :
    find_key id_of "j1" (sync (report ∷ []) []).1 ≡ find_key id_of "j1" (report ∷ [])
unfolding sync find_key
sync_mirrors_example = sync_mirrors (report ∷ []) [] "j1" (refl, tt) tt refl

abbrev request : ScheduleRequest
request = record {
  job_name = "digest";
  workflow_name = "digest";
  trigger = every_minute;
  variables = [];
  trace_id = "t2";
  tags = [];
  action_type = "workflow";
  action_payload = [];
}

schedule-Atomic_example :
    Atomic config "j2" midnight request idle (schedule config "j2" midnight request idle)
schedule-Atomic_example = schedule-Atomic config "j2" midnight request idle

every_minute_valid : validate every_minute ≡ true
unfolding validate cron_steps
every_minute_valid = refl

abbrev broken : FailureInfo
broken = record {
  code = "scheduler.job.runtime_failed";
  category = ErrorCategory.execution_failure;
  message = "broken";
  component = "scheduler.runtime";
  operation = "run_job";
  retryable = true;
  severity = ErrorSeverity.error;
  trace_id = "";
  cause_type = "";
  details = [];
}

settle-Settled_example :
    Settled config midnight "a" broken JobRunStatus.success report
      (settle config midnight "a" broken (report, report_run)).0
settle-Settled_example =
    settle-Settled config midnight "a" broken report report_run every_minute_valid (omega arith)

abbrev started : Launch
unfolding row_to_job
started = record {
  job = row_to_job claimed;
  run = dispatched_run (tokens "j1") midnight (row_to_job claimed);
  claim_token = "a";
}

started-IsHeld : IsHeld (midnight + 30 * second) stored started
unfolding started claimed row_to_job job_values claimed_row
started-IsHeld =
    claimed-Kept "j1" midnight "a" (midnight + 30 * second) "r1" saved (row_to_job claimed) stored
      (midnight + 30 * second) saved-IsValid claim_succeeds (omega arith)

abbrev running : Runtime
running = record {
  database = stored;
  registry = row_to_job claimed ∷ [];
  background_tasks = started ∷ [];
}

run_job_reports_example :
    Ended config started broken
      (midnight + second)
      (midnight + 2 * second)
      (midnight + 30 * second)
      (ended returned)
      running
      (run_job config started
        (ended returned)
        broken
        (midnight + second)
        (midnight + 2 * second)
        running)
unfolding started claimed row_to_job job_values claimed_row find_key
run_job_reports_example =
    run_job_reports config started broken (midnight + second) (midnight + 2 * second)
      (ended returned) (midnight + 30 * second) running (row_to_job claimed) refl started-IsHeld
      refl

tick_delivers_example :
    let end = (tick config true tokens midnight idle).1 in
    (new : List Launch) × (end.background_tasks ≡ [] ++ new)
    × All (IsDelivered config tokens midnight refl end.database) new
tick_delivers_example = tick_delivers config tokens midnight refl true idle saved-IsValid

abbrev vitals : Vitals
vitals = record {
  running = true;
  consecutive_failures = 0;
  observability_error = false;
  executor_degraded = false;
}

-- A failed tick whose event is lost, then a tick that ends well: the runtime is still degraded.
health-after_steps_example :
    health (pos 3) (after_steps (tick_failed false ∷ [] ++ ticked ∷ []) vitals)
    ≡ RuntimeStatus.degraded
unfolding ai_lab_os.Sql.count_where
health-after_steps_example = health-after_steps (pos 3) (tick_failed false ∷ []) [] vitals refl tt

-- Another process has deleted the job "j0" and scheduled one with its name.
abbrev stale : Runtime
stale = record {
  database = saved;
  registry = record report { info = record report.info { id = "j0" } } ∷ [];
  background_tasks = [];
}

saved_loaded :
    load_jobs (release_expired_claims midnight config.retry_delay saved).1
    ≡ row_to_job (job_values report) ∷ []
unfolding load_jobs release_expired_claims order_by update_where saved apply_all apply save_job
    find_key row_to_job job_values
saved_loaded = refl

tick_blocked_example : tick config true tokens midnight stale ≡ (
  err job_already_exists,
  record stale { database = (release_expired_claims midnight config.retry_delay saved).1 },
)
unfolding find_key row_to_job job_values
tick_blocked_example =
    tick_blocked config true tokens midnight stale (row_to_job (job_values report)) [] refl
      saved_loaded refl refl
