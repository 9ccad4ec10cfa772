-- ===== src/Scheduler/Store/Database.antt =====
-- The tables of the scheduler's database, the errors of its operations, and what its statements
-- have in common.
use ai_lab_os.Prelude.{Bool, ◌&&◌, Option, List, [], String, str_eq}
use ai_lab_os.Sql.{find_key}
use ai_lab_os.Scheduler.Rows.{JobRow, RunRow}

pub record Database : Type 0 where
  pub jobs : List JobRow
  pub job_runs : List RunRow

abbrev pub empty : Database
empty = record { jobs = []; job_runs = [] }

-- SchedulerPersistenceError and JobClaimLostError
pub data PersistenceError : Type 0 where
  persistence_failed claim_lost : PersistenceError

-- The primary keys.
abbrev pub job_key : JobRow → String
job_key row = row.id

abbrev pub run_key : RunRow → String
run_key row = row.run_id

-- WHERE id=? AND guard
abbrev pub with_id : String → (JobRow → Bool) → JobRow → Bool
with_id job_id guard row = str_eq row.id job_id && guard row

-- SELECT * FROM jobs WHERE id=?
abbrev pub row_of : Database → String → Option JobRow
row_of db job_id = find_key job_key job_id db.jobs
