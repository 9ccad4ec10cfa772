-- ===== src/Scheduler/Runtime/Run/Reported.antt =====
-- A run that holds its claim is reported, or cancelled.

use mathlib.Core.Path.{subst}
use ai_lab_os.Prelude.{◌≡◌, refl, sym, ◌∙◌, Option, true, none, some, str_eq, Result, ok, err}
use ai_lab_os.Errors.{FailureInfo}
use ai_lab_os.Sql.{find_key, delete_where}
use ai_lab_os.Scheduler.Models.{Instant, JobStatus, Job, JobRun}
use ai_lab_os.Scheduler.Faults.{SchedulerError, task_cancelled}
use ai_lab_os.Scheduler.Rows.{JobRow, job_values, row_to_job}
use ai_lab_os.Scheduler.Store.Database.{Database, row_of}
use ai_lab_os.Scheduler.Store.Claims.{finalize_claim, finalized_row}
use ai_lab_os.Scheduler.Store.Opened.{finalized_database, finalized, row_finalized}
use ai_lab_os.Scheduler.Registry.{id_of, replace}
use ai_lab_os.Scheduler.Runtime.{Config, Launch, Runtime}
use ai_lab_os.Scheduler.Runtime.Secured.{IsHeld}
use ai_lab_os.Scheduler.Runtime.Run.{
  HandlerOutcome, returned, timed_out, raised, Awaited, ended, cancelled, run_result,
  after_finalize, run_cancelled, report_result, run_job, execute, reported, settle, judged_job,
  counted_job, finished_run, after_next, failed_job, failed_run, settled_next, text_or_else,
}

module _ (config : Config) (launch : Launch) (unexpected : FailureInfo)
    (finished now : Instant) where
  after_next_ids :
      (job : Job) (run : JobRun) (next : Result SchedulerError (Option Instant))
      → let outcome = after_next now launch.claim_token unexpected job run next in
        (outcome.0.info.id ≡ job.info.id) × (outcome.1.id ≡ run.id)
  unfolding after_next failed_job failed_run
  after_next_ids job run (err e) = (refl, refl)
  after_next_ids job run (ok next) = (refl, refl)

  finished_run_id :
      (outcome : HandlerOutcome) (run : JobRun) → (finished_run outcome finished run).id ≡ run.id
  unfolding finished_run
  finished_run_id returned run = refl
  finished_run_id (timed_out failure text) run = refl
  finished_run_id (raised failure) run = refl

  same_ids :
      (outcome : HandlerOutcome)
      → let result = run_result config launch outcome unexpected finished now in
        (result.0.info.id ≡ launch.job.info.id) × (result.1.id ≡ launch.run.id)
  unfolding run_result execute reported settle judged_job counted_job
  same_ids outcome =
      let traced : JobRun = record launch.run {
        trace_id =
            text_or_else launch.run.trace_id (text_or_else launch.job.trace_id launch.run.id);
      } in
      let run = finished_run outcome finished traced in
      let running : Job = record launch.job { status = JobStatus.running } in
      let judged = judged_job run (counted_job run running) in
      let (job_id, run_id) =
        after_next_ids judged run (settled_next config now judged.status judged.trigger) in
      (job_id, run_id ∙ finished_run_id outcome traced)

  -- What is in the store and said of the task at the end.
  abbrev pub Reported : JobStatus → Result SchedulerError Unit × Runtime → Type 0
  Reported status outcome =
      (outcome.0 ≡ ok tt)
      × ((row : JobRow) × (row_of outcome.1.database launch.job.info.id ≡ some row)
          × (row.status ≡ status)
          × (row.claim_token ≡ none))

  after_finalize-Reported :
      (before : Runtime) (db : Database) (job : Job) (row : JobRow) (known : Job)
      → row.id ≡ launch.job.info.id
      → row_of db launch.job.info.id ≡ some (finalized_row (job_values job) row)
      → find_key id_of launch.job.info.id before.registry ≡ some known
      → Reported job.status (after_finalize launch.job.info.id before (ok tt, db))
  unfolding after_finalize finalized_row job_values row_to_job replace
  after_finalize-Reported before db job row known same there registered =
      rw there
        (rw same (rw registered (refl, (finalized_row (job_values job) row, there, refl, refl))))

  report_result-Reported :
      (job : Job) (run : JobRun) (deadline : Instant) (before : Runtime) (known : Job)
      → job.info.id ≡ launch.job.info.id
      → run.id ≡ launch.run.id
      → config.persisted ≡ true
      → IsHeld deadline before.database launch
      → find_key id_of launch.job.info.id before.registry ≡ some known
      → Reported job.status (report_result config launch.claim_token before (job, run))
  unfolding report_result
  report_result-Reported job run deadline before known job_id run_id stored (v, own, has)
        registered =
      let (row, same, there) =
        row_finalized launch.run.id launch.claim_token launch.job.info.id deadline before.database v
          own has job run job_id in
      let done =
        finalized launch.run.id launch.claim_token launch.job.info.id deadline before.database v own
          has job run job_id run_id in
      rw stored (
        subst
          (λ id.
            Reported job.status (
              after_finalize id before (finalize_claim job run launch.claim_token before.database)))
          (sym job_id)
          (subst (λ o. Reported job.status (after_finalize launch.job.info.id before o)) (sym done)
            (after_finalize-Reported before
              (finalized_database launch.run.id launch.claim_token launch.job.info.id deadline
                before.database v own has job run)
              job row known same there registered)))

  -- What comes of a task: a report, or, when it is cancelled, a CancelledError with the store and the
  -- registry as they were and the claim still held.
  abbrev pub Ended : Instant → Awaited → Runtime → Result SchedulerError Unit × Runtime → Type 0
  Ended deadline (ended outcome) before end =
      Reported (run_result config launch outcome unexpected finished now).0.status end
  Ended deadline cancelled before end =
      (end.0 ≡ err task_cancelled)
      × (end.1.database ≡ before.database)
      × (end.1.registry ≡ before.registry)
      × IsHeld deadline end.1.database launch

  -- A task that holds its claim of a job in the registry, in a runtime with persistence: if the handler
  -- returns, times out or raises an Exception, the task is reported, that is, it ends without an
  -- exception, the job in the store gets the status that the run leads to, and its claim is gone. If the
  -- await is cancelled, the task ends with the CancelledError, the store and the registry are as they
  -- were, and the claim is left, to be recovered when it expires.
  pub run_job_reports :
      (awaited : Awaited) (deadline : Instant) (before : Runtime) (known : Job)
      → config.persisted ≡ true
      → IsHeld deadline before.database launch
      → find_key id_of launch.job.info.id before.registry ≡ some known
      → Ended deadline awaited before (run_job config launch awaited unexpected finished now before)
  unfolding run_job run_cancelled
  run_job_reports (ended outcome) deadline before known stored held registered =
      let (job, run) = run_result config launch outcome unexpected finished now in
      let (job_id, run_id) = same_ids outcome in
      report_result-Reported job run deadline
        (record before {
          background_tasks =
              delete_where (λ (task : Launch). str_eq task.claim_token launch.claim_token)
                before.background_tasks;
        })
        known job_id run_id stored held registered
  run_job_reports cancelled deadline before known stored held registered =
      rw stored (refl, refl, refl, held)
