-- ===== src/Scheduler/Store/Loading.antt =====
-- `load_jobs` and `list_job_runs`.
use mathlib.Core.Option
use mathlib.Core.List.{map}
use ai_lab_os.Prelude.{
  Bool, Bool-cases, inl, inr, ◌||◌, ◌&&◌, List, [], ◌∷◌, ◌≡◌, refl, ap, ◌∙◌, String, str_eq,
  str_ltb, ltb, ◌==◌,
}
use ai_lab_os.Sql.{IsKeyed, find_key, select_where}
use ai_lab_os.Sql.Order.{order_by, find_key-order_by, IsKeyed-order_by}
use ai_lab_os.Scheduler.Models.{Job, JobRun}
use ai_lab_os.Scheduler.Rows.{JobRow, RunRow, row_to_job, row_to_run}
use ai_lab_os.Scheduler.Store.Database.{Database, job_key}
use ai_lab_os.Scheduler.Store.Jobs.{get_job}
use ai_lab_os.Scheduler.Store.Steps.{IsValid}

-- ORDER BY created_at, id
abbrev pub job_precedes : JobRow → JobRow → Bool
job_precedes a b =
    ltb a.created_at b.created_at || (a.created_at == b.created_at && str_ltb a.id b.id)

unfoldable pub load_jobs : Database → List Job
load_jobs db = map row_to_job (order_by job_precedes db.jobs)

-- ORDER BY attempt, started_at
abbrev pub run_precedes : RunRow → RunRow → Bool
run_precedes a b =
    ltb a.attempt b.attempt || (a.attempt == b.attempt && ltb a.started_at b.started_at)

pub list_job_runs : String → Database → List JobRun
list_job_runs job_id db =
    map row_to_run (
      order_by run_precedes (select_where (λ (run : RunRow). str_eq run.job_id job_id) db.job_runs))

abbrev pub loaded_id : Job → String
loaded_id job = job.info.id

find_key-loaded :
    (k : String) (rows : List JobRow)
    → find_key loaded_id k (map row_to_job rows) ≡ Option.map row_to_job (find_key job_key k rows)
unfolding find_key row_to_job
find_key-loaded k [] = refl
find_key-loaded k (row ∷ rows) = elim (Bool-cases (str_eq row.id k)) [
  | inl hit ↦ rw hit
  | inr miss ↦ rw miss (find_key-loaded k rows)
]

IsKeyed-loaded :
    (rows : List JobRow) → IsKeyed job_key rows → IsKeyed loaded_id (map row_to_job rows)
unfolding row_to_job
IsKeyed-loaded [] keyed = tt
IsKeyed-loaded (row ∷ rows) keyed =
    (find_key-loaded row.id rows ∙ ap (Option.map row_to_job) keyed.0, IsKeyed-loaded rows keyed.1)

pub load_jobs-IsKeyed : (db : Database) → IsValid db → IsKeyed loaded_id (load_jobs db)
unfolding load_jobs
load_jobs-IsKeyed db v =
    IsKeyed-loaded (order_by job_precedes db.jobs)
      (IsKeyed-order_by job_precedes job_key db.jobs v.jobs_keyed)

pub load_jobs-get_job :
    (db : Database) (k : String) → IsValid db → find_key loaded_id k (load_jobs db) ≡ get_job k db
unfolding load_jobs get_job
load_jobs-get_job db k v =
    find_key-loaded k (order_by job_precedes db.jobs)
    ∙ ap (Option.map row_to_job) (find_key-order_by job_precedes job_key k db.jobs v.jobs_keyed)
