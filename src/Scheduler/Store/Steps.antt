-- ===== src/Scheduler/Store/Steps.antt =====
-- Any number of runtimes work on one database. Each method of `SchedulerPersistence` is atomic, so
-- what they do together is a sequence of operations, in the order of the transactions.
use ai_lab_os.Prelude.{ℕ, ◌≤◌, ◌≡◌, false, Option, none, List, [], ◌∷◌, String, is_some}
use ai_lab_os.Sql.{IsKeyed}
use ai_lab_os.Prelude.{All}
use ai_lab_os.Scheduler.Models.{Instant, JsonObject, Job, JobRun, is_running}
use ai_lab_os.Scheduler.Rows.{JobRow}
use ai_lab_os.Scheduler.Store.Database.{Database, job_key, run_key}
use ai_lab_os.Scheduler.Store.Jobs.{
  save_job, pause_job, resume_job, delete_job, cancel_job, reschedule_job,
}
use ai_lab_os.Scheduler.Store.Claims.{
  claim_job, finalize_claim, renew_claim, release_expired_claims,
}

-- A call of one of the methods that write.
pub data Operation : Type 0 where
  save : Job → Operation
  pause : String → ℕ → Instant → Operation
  resume : String → ℕ → Option Instant → Instant → Operation
  delete : String → Option ℕ → Operation
  cancel : String → Instant → Operation
  reschedule : String → ℕ → Instant → String → JsonObject → Instant → Operation
  claim : String → Instant → String → Instant → String → Operation
  finalize : Job → JobRun → String → Operation
  renew : String → String → Instant → Instant → Operation
  release : Instant → ℕ → Operation

-- The database after the call.
unfoldable pub apply : Operation → Database → Database
apply (save job) db = (save_job job db).1
apply (pause job_id revision now) db = (pause_job job_id revision now db).1
apply (resume job_id revision next now) db = (resume_job job_id revision next now db).1
apply (delete job_id revision) db = (delete_job job_id revision db).1
apply (cancel job_id now) db = (cancel_job job_id now db).1
apply (reschedule job_id revision run_at zone payload now) db =
    (reschedule_job job_id revision run_at zone payload now db).1
apply (claim job_id now token expires run_id) db = (claim_job job_id now token expires run_id db).1
apply (finalize job run token) db = (finalize_claim job run token db).1
apply (renew job_id token expires now) db = (renew_claim job_id token expires now db).1
apply (release now delay) db = (release_expired_claims now delay db).1

unfoldable pub apply_all : List Operation → Database → Database
apply_all [] db = db
apply_all (op ∷ ops) db = apply_all ops (apply op db)

-- What the runtime hands to the store: a new job is not claimed, and a job that is finalized is no
-- longer running.
abbrev pub IsProper : Operation → Type 0
IsProper (save job) =
    (is_running job.status ≡ false)
    × (job.claim_token ≡ none)
    × (job.claim_expires_at ≡ none)
    × (1 ≤ job.revision)
IsProper (finalize job run token) = is_running job.status ≡ false
IsProper _ = Unit

-- A row is running exactly while it has a claim, and a claim has an expiry.
pub record IsLeased (row : JobRow) : Type 0 where
  pub claimed : is_running row.status ≡ is_some row.claim_token
  pub expiring : is_some row.claim_token ≡ is_some row.claim_expires_at
  pub revised : 1 ≤ row.revision

pub record IsValid (db : Database) : Type 0 where
  pub jobs_keyed : IsKeyed job_key db.jobs
  pub runs_keyed : IsKeyed run_key db.job_runs
  pub leased : All IsLeased db.jobs
