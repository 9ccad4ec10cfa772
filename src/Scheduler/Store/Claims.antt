-- ===== src/Scheduler/Store/Claims.antt =====
-- `claim_job`, `finalize_claim`, `renew_claim` and `release_expired_claims`: the lease of a job.
use mathlib.Core.Option
use ai_lab_os.Prelude.{
  ℕ, ◌+◌, Bool, true, false, ◌&&◌, ◌||◌, Option, none, some, List, [], ◌∷◌, ◌++◌, String, str_eq,
  ◌==◌, ltb, leb, at_least, is_none, is_some, if◌then◌else◌, Result, ok, err,
}
use ai_lab_os.Errors.{execution_failure}
use ai_lab_os.Sql.{update_where, count_where, find_key}
use ai_lab_os.Scheduler.Models.{
  Instant, JobStatus, JobRunStatus, Job, JobRun, is_running, is_dispatchable,
}
use ai_lab_os.Scheduler.Rows.{StoredFailure, JobRow, RunRow, failure_json, job_values, row_to_job}
use ai_lab_os.Scheduler.Store.Database.{
  Database, PersistenceError, persistence_failed, claim_lost, run_key, with_id, row_of,
}

-- column IS NOT NULL AND column <= now
abbrev pub reached : Option Instant → Instant → Bool
reached none now = false
reached (some t) now = leb t now

-- column < now, false where the column is null
abbrev pub before : Option Instant → Instant → Bool
before none now = false
before (some t) now = ltb t now

-- column IS NOT NULL AND column > now
abbrev pub after : Option Instant → Instant → Bool
after none now = false
after (some t) now = ltb now t

-- column = value, false where the column is null
abbrev pub holds : Option String → String → Bool
holds none value = false
holds (some t) value = str_eq t value

unfoldable pub claim_guard : Instant → JobRow → Bool
claim_guard now row =
    is_dispatchable row.status
    && reached row.next_run_at now
    && (is_none row.claim_token || before row.claim_expires_at now)

unfoldable pub claimed_row : String → Instant → Instant → JobRow → JobRow
claimed_row token expires now row = record row {
  status = JobStatus.running;
  claim_token = some token;
  claim_expires_at = some expires;
  updated_at = now;
  revision = row.revision + 1;
}

-- The run that a claim opens: `row["trace_id"] or run_id`.
unfoldable pub opened_run : String → String → Instant → JobRow → RunRow
opened_run run_id token now row = record {
  run_id = run_id;
  job_id = row.id;
  attempt = row.run_count + 1;
  started_at = now;
  finished_at = none;
  status = JobRunStatus.running;
  claim_token = token;
  failure = none;
  trace_id = if str_eq row.trace_id "" then run_id else row.trace_id;
}

-- The INSERT of the run and the commit; a run id that is taken rolls the claim back.
unfoldable pub open_run :
    String
    → String
    → Instant
    → Option JobRow
    → Database
    → Database
    → Result PersistenceError (Option Job) × Database
unfolding opened_run
open_run run_id token now none updated db = (err persistence_failed, db)
open_run run_id token now (some row) updated db =
    if is_some (find_key run_key run_id updated.job_runs) then (err persistence_failed, db) else (
      ok (some (row_to_job row)),
      record updated { job_runs = updated.job_runs ++ opened_run run_id token now row ∷ [] },
    )

unfoldable pub claim_job :
    String
    → Instant
    → String
    → Instant
    → String
    → Database
    → Result PersistenceError (Option Job) × Database
unfolding claim_guard claimed_row open_run
claim_job job_id now token expires run_id db =
    let selects = with_id job_id (claim_guard now) in
    let updated = record db {
      jobs = update_where selects (claimed_row token expires now) db.jobs;
    } in
    if count_where selects db.jobs == 1
    then open_run run_id token now (row_of updated job_id) updated db
    else (ok none, db)

unfoldable pub finalized_row : JobRow → JobRow → JobRow
finalized_row values row = record row {
  status = values.status;
  next_run_at = values.next_run_at;
  retry_count = values.retry_count;
  run_count = values.run_count;
  last_run_at = values.last_run_at;
  last_result = values.last_result;
  last_error = values.last_error;
  claim_token = none;
  claim_expires_at = none;
  updated_at = values.updated_at;
  revision = row.revision + 1;
}

unfoldable pub run_guard : String → String → RunRow → Bool
run_guard run_id token row = str_eq row.run_id run_id && str_eq row.claim_token token

unfoldable pub closed_run : JobRun → RunRow → RunRow
closed_run run row = record row {
  finished_at = run.finished_at;
  status = run.status;
  failure = Option.map failure_json run.failure;
  trace_id = run.trace_id;
}

abbrev pub finalize_guard : String → JobRow → Bool
finalize_guard token row = holds row.claim_token token

unfoldable pub finalize_claim :
    Job → JobRun → String → Database → Result PersistenceError Unit × Database
unfolding finalized_row run_guard closed_run
finalize_claim job run token db =
    let values = job_values job in
    let selects = with_id job.info.id (finalize_guard token) in
    if count_where selects db.jobs == 1
    then if count_where (run_guard run.id token) db.job_runs == 1
      then (
        ok tt,
        record {
          jobs = update_where selects (finalized_row values) db.jobs;
          job_runs = update_where (run_guard run.id token) (closed_run run) db.job_runs;
        },
      )
      else (err claim_lost, db)
    else (err claim_lost, db)

unfoldable pub renew_guard : String → Instant → JobRow → Bool
renew_guard token now row =
    is_running row.status && holds row.claim_token token && after row.claim_expires_at now

unfoldable pub renewed_row : Instant → Instant → JobRow → JobRow
renewed_row expires now row = record row {
  claim_expires_at = some expires;
  updated_at = now;
  revision = row.revision + 1;
}

unfoldable pub renew_claim : String → String → Instant → Instant → Database → Bool × Database
unfolding renew_guard renewed_row
renew_claim job_id token expires now db =
    let selects = with_id job_id (renew_guard token now) in
    (
      count_where selects db.jobs == 1,
      record db { jobs = update_where selects (renewed_row expires now) db.jobs },
    )

abbrev pub expired_failure : StoredFailure
expired_failure = record {
  code = "scheduler.job.claim_expired";
  category = execution_failure;
  component = "scheduler.persistence";
  operation = "recover_claim";
  retryable = true;
  trace_id = "";
  details = [];
}

unfoldable pub is_expired : Instant → JobRow → Bool
is_expired now row = is_running row.status && reached row.claim_expires_at now

-- claim_token IN (SELECT claim_token FROM jobs WHERE the claim is expired)
unfoldable pub expired_token : Instant → List JobRow → String → Bool
unfolding is_expired
expired_token now [] token = false
expired_token now (row ∷ rows) token =
    (is_expired now row && holds row.claim_token token) || expired_token now rows token

unfoldable pub abandoned_run : Instant → RunRow → RunRow
abandoned_run now run = record run {
  status = JobRunStatus.failed;
  finished_at = some now;
  failure = some expired_failure;
}

abbrev pub is_open : JobRunStatus → Bool
is_open JobRunStatus.running = true
is_open _ = false

abbrev pub is_abandoned : Instant → List JobRow → RunRow → Bool
is_abandoned now jobs run = is_open run.status && expired_token now jobs run.claim_token

-- retry_count + 1 >= max_retries
abbrev pub exhausted : JobRow → Bool
exhausted row = at_least (row.retry_count + 1) row.max_retries

unfoldable pub released_row : Instant → Instant → JobRow → JobRow
released_row retry_at now row = record row {
  status = if exhausted row then JobStatus.failed else JobStatus.retrying;
  retry_count = row.retry_count + 1;
  run_count = row.run_count + 1;
  next_run_at = if exhausted row then none else some retry_at;
  last_result = "failed";
  last_error = some expired_failure;
  claim_token = none;
  claim_expires_at = none;
  updated_at = now;
  revision = row.revision + 1;
}

-- `retry_delay` in microseconds.
unfoldable pub release_expired_claims : Instant → ℕ → Database → ℕ × Database
unfolding is_expired expired_token abandoned_run released_row
release_expired_claims now retry_delay db = (
  count_where (is_expired now) db.jobs,
  record {
    jobs = update_where (is_expired now) (released_row (now + retry_delay) now) db.jobs;
    job_runs = update_where (is_abandoned now db.jobs) (abandoned_run now) db.job_runs;
  },
)
