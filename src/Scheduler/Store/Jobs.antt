-- ===== src/Scheduler/Store/Jobs.antt =====
-- `save_job`, `get_job`, `pause_job`, `resume_job`, `delete_job`, `cancel_job` and `reschedule_job`.
use mathlib.Core.Option
use ai_lab_os.Prelude.{
  ℕ, ◌+◌, Bool, true, false, not, ◌&&◌, Option, none, some, [], ◌∷◌, ◌++◌, String, str_eq, ◌==◌,
  is_none, is_some, if◌then◌else◌, Result, ok, err,
}
use ai_lab_os.Sql.{update_where, delete_where, count_where}
use ai_lab_os.Scheduler.Models.{
  Instant, JsonObject, JobStatus, Job, is_running, is_paused, is_dispatchable,
}
use ai_lab_os.Scheduler.Rows.{JobRow, RunRow, job_values, row_to_job}
use ai_lab_os.Scheduler.Store.Database.{
  Database, PersistenceError, persistence_failed, with_id, row_of,
}

-- INSERT: an id that is taken violates the primary key.
unfoldable pub save_job : Job → Database → Result PersistenceError Unit × Database
save_job job db =
    if is_some (row_of db job.info.id)
    then (err persistence_failed, db)
    else (ok tt, record db { jobs = db.jobs ++ job_values job ∷ [] })

unfoldable pub get_job : String → Database → Option Job
get_job job_id db = Option.map row_to_job (row_of db job_id)

-- UPDATE jobs SET … WHERE id=? AND guard, its rowcount compared with 1, and the row read back.
unfoldable pub update_one :
    String → (JobRow → Bool) → (JobRow → JobRow) → Database → Bool × Database
update_one job_id guard change db = (
  count_where (with_id job_id guard) db.jobs == 1,
  record db { jobs = update_where (with_id job_id guard) change db.jobs },
)

unfoldable pub read_back : Bool × Database → String → Option Job × Database
unfolding get_job
read_back (changed, db) job_id = if changed then (get_job job_id db, db) else (none, db)

-- status IN ('active', 'retrying') AND claim_token IS NULL, at the expected revision
unfoldable pub pause_guard : ℕ → JobRow → Bool
pause_guard expected_revision row =
    row.revision == expected_revision && is_dispatchable row.status && is_none row.claim_token

unfoldable pub paused_row : Instant → JobRow → JobRow
paused_row now row = record row {
  status = JobStatus.paused;
  updated_at = now;
  revision = row.revision + 1;
}

unfoldable pub pause_job : String → ℕ → Instant → Database → Option Job × Database
unfolding update_one read_back pause_guard paused_row
pause_job job_id expected_revision now db =
    read_back (update_one job_id (pause_guard expected_revision) (paused_row now) db) job_id

unfoldable pub resume_guard : ℕ → JobRow → Bool
resume_guard expected_revision row =
    row.revision == expected_revision && is_paused row.status && is_none row.claim_token

unfoldable pub resumed_row : Option Instant → Instant → JobRow → JobRow
resumed_row next_run_at now row = record row {
  status = JobStatus.active;
  next_run_at = next_run_at;
  updated_at = now;
  revision = row.revision + 1;
}

unfoldable pub resume_job : String → ℕ → Option Instant → Instant → Database → Option Job × Database
unfolding update_one read_back resume_guard resumed_row
resume_job job_id expected_revision next_run_at now db =
    read_back (update_one job_id (resume_guard expected_revision) (resumed_row next_run_at now) db)
      job_id

unfoldable pub delete_guard : ℕ → JobRow → Bool
delete_guard expected_revision row =
    row.revision == expected_revision && not (is_running row.status) && is_none row.claim_token

unfoldable pub delete_at : String → ℕ → Database → Bool × Database
unfolding delete_guard
delete_at job_id expected_revision db =
    let selects = with_id job_id (delete_guard expected_revision) in
    let deleted = count_where selects db.jobs == 1 in
    (
      deleted,
      record {
        jobs = delete_where selects db.jobs;
        job_runs =
            if deleted
            then delete_where (λ (run : RunRow). str_eq run.job_id job_id) db.job_runs
            else db.job_runs;
      },
    )

-- With no expected revision, the revision that is read in the same transaction.
unfoldable pub delete_read : String → Option JobRow → Database → Bool × Database
unfolding delete_at
delete_read job_id none db = (false, db)
delete_read job_id (some row) db = delete_at job_id row.revision db

unfoldable pub delete_job : String → Option ℕ → Database → Bool × Database
unfolding delete_read delete_at
delete_job job_id none db = delete_read job_id (row_of db job_id) db
delete_job job_id (some expected_revision) db = delete_at job_id expected_revision db

-- status IN ('active', 'retrying', 'paused')
unfoldable pub cancel_guard : JobRow → Bool
cancel_guard row = elim row.status [
  | JobStatus.active ↦ true
  | JobStatus.retrying ↦ true
  | JobStatus.paused ↦ true
  | _ ↦ false
]

unfoldable pub cancelled_row : Instant → JobRow → JobRow
cancelled_row now row = record row {
  status = JobStatus.cancelled;
  next_run_at = none;
  claim_token = none;
  claim_expires_at = none;
  updated_at = now;
  revision = row.revision + 1;
}

unfoldable pub cancel_job : String → Instant → Database → Bool × Database
unfolding update_one cancel_guard cancelled_row
cancel_job job_id now db = update_one job_id cancel_guard (cancelled_row now) db

-- status IN ('active', 'retrying', 'paused', 'failed', 'cancelled')
unfoldable pub can_reschedule : JobStatus → Bool
can_reschedule JobStatus.running = false
can_reschedule JobStatus.completed = false
can_reschedule _ = true

unfoldable pub reschedule_guard : ℕ → JobRow → Bool
unfolding can_reschedule
reschedule_guard expected_revision row =
    row.revision == expected_revision && is_none row.claim_token && can_reschedule row.status

unfoldable pub rescheduled_row : Instant → String → JsonObject → Instant → JobRow → JobRow
rescheduled_row run_at timezone_name action_payload now row = record row {
  run_at = some run_at;
  next_run_at = some run_at;
  trigger_timezone = timezone_name;
  action_payload = action_payload;
  status = JobStatus.active;
  retry_count = 0;
  last_error = none;
  updated_at = now;
  revision = row.revision + 1;
}

-- `now` is the system's clock.
unfoldable pub reschedule_job :
    String → ℕ → Instant → String → JsonObject → Instant → Database → Bool × Database
unfolding update_one reschedule_guard rescheduled_row
reschedule_job job_id expected_revision run_at timezone_name action_payload now db =
    update_one job_id (reschedule_guard expected_revision)
      (rescheduled_row run_at timezone_name action_payload now) db
