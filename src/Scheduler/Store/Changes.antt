-- ===== src/Scheduler/Store/Changes.antt =====
-- The changes of jobs without a claim keep the well-formedness of the database.
use ai_lab_os.Prelude.{
  ℕ, ◌≡◌, refl, Bool, true, false, Option, none, some, List, [], ◌∷◌, String, str_eq, arith,
  All-append, Bool-cases, if_holds, Option-cases, inl, inr,
}
use ai_lab_os.Sql.{IsKeyed, update_where}
use ai_lab_os.Sql.Laws.{
  All-update_where, All-delete_where, IsKeyed-update_where, IsKeyed-delete_where, IsKeyed-append,
}
use ai_lab_os.Scheduler.Models.{Instant, Job}
use ai_lab_os.Scheduler.Rows.{JobRow, RunRow, job_values}
use ai_lab_os.Scheduler.Store.Database.{Database, job_key, run_key, with_id, row_of}
use ai_lab_os.Scheduler.Store.Jobs.{
  save_job, read_back, pause_job, resume_job, delete_at, delete_job, cancel_job, reschedule_job,
  pause_guard, paused_row, resume_guard, resumed_row, cancel_guard, cancelled_row, reschedule_guard,
  rescheduled_row,
}
use ai_lab_os.Scheduler.Store.Claims.{renew_guard, renewed_row, renew_claim}
use ai_lab_os.Scheduler.Store.Steps.{save, IsProper, IsLeased, IsValid}

-- An UPDATE that keeps the keys, and the leases of the rows that it selects.
pub jobs_updated :
    (db : Database) (p : JobRow → Bool) (f : JobRow → JobRow)
    → ((row : JobRow) → (f row).id ≡ row.id)
    → ((row : JobRow) → p row ≡ true → IsLeased row → IsLeased (f row))
    → IsValid db
    → IsValid (record db { jobs = update_where p f db.jobs })
jobs_updated db p f same keep h = record {
  jobs_keyed = IsKeyed-update_where job_key p f db.jobs same h.jobs_keyed;
  runs_keyed = h.runs_keyed;
  leased =
      All-update_where IsLeased p f db.jobs
        (λ row ok. elim (Bool-cases (p row)) [ inl e ↦ rw e (keep row e ok) | inr e ↦ rw e ok ])
        h.leased;
}

pub runs_updated :
    (db : Database) (p : RunRow → Bool) (f : RunRow → RunRow)
    → ((run : RunRow) → (f run).run_id ≡ run.run_id)
    → IsValid db
    → IsValid (record db { job_runs = update_where p f db.job_runs })
runs_updated db p f same h = record {
  jobs_keyed = h.jobs_keyed;
  runs_keyed = IsKeyed-update_where run_key p f db.job_runs same h.runs_keyed;
  leased = h.leased;
}

pub save-IsValid :
    (job : Job) (db : Database) → IsProper (save job) → IsValid db → IsValid (save_job job db).1
unfolding save_job job_values
save-IsValid job db proper h = elim (Option-cases (row_of db job.info.id)) [
  | inr (row, e) ↦ rw e h
  | inl e ↦ rw e (record {
    jobs_keyed = IsKeyed-append job_key db.jobs (job_values job) e h.jobs_keyed;
    runs_keyed = h.runs_keyed;
    leased = All-append IsLeased db.jobs (job_values job ∷ []) h.leased (ground arith, tt);
  })
]

read_back_lem :
    (changed : Bool) (db : Database) (job_id : String) → (read_back (changed, db) job_id).1 ≡ db
unfolding read_back
read_back_lem true db job_id = refl
read_back_lem false db job_id = refl

pub pause-IsValid :
    (job_id : String) (revision : ℕ) (now : Instant) (db : Database)
    → IsValid db
    → IsValid (pause_job job_id revision now db).1
unfolding pause_job
pause-IsValid job_id revision now db h = rw read_back_lem (
    jobs_updated db (with_id job_id (pause_guard revision)) (paused_row now) (λ row. refl)
      (λ row e ok. ground arith) h)

pub resume-IsValid :
    (job_id : String) (revision : ℕ) (next : Option Instant) (now : Instant) (db : Database)
    → IsValid db
    → IsValid (resume_job job_id revision next now db).1
unfolding resume_job
resume-IsValid job_id revision next now db h = rw read_back_lem (
    jobs_updated db (with_id job_id (resume_guard revision)) (resumed_row next now) (λ row. refl)
      (λ row e ok. ground arith) h)

pub cancel-IsValid :
    (job_id : String) (now : Instant) (db : Database)
    → IsValid db
    → IsValid (cancel_job job_id now db).1
unfolding cancel_job
cancel-IsValid job_id now db h =
    jobs_updated db (with_id job_id cancel_guard) (cancelled_row now) (λ row. refl)
      (λ row e ok. ground arith) h

pub reschedule-IsValid :
    (job_id : String) (revision : ℕ) (run_at : Instant) (zone : String)
    (payload : List (String × String)) (now : Instant) (db : Database)
    → IsValid db
    → IsValid (reschedule_job job_id revision run_at zone payload now db).1
unfolding reschedule_job
reschedule-IsValid job_id revision run_at zone payload now db h =
    jobs_updated db (with_id job_id (reschedule_guard revision))
      (rescheduled_row run_at zone payload now) (λ row. refl) (λ row e ok. ground arith) h

pub renew-IsValid :
    (job_id token : String) (expires now : Instant) (db : Database)
    → IsValid db
    → IsValid (renew_claim job_id token expires now db).1
unfolding renew_claim
renew-IsValid job_id token expires now db h =
    jobs_updated db (with_id job_id (renew_guard token now)) (renewed_row expires now) (λ row. refl)
      (λ row e ok. ground arith) h

delete_at-IsValid :
    (job_id : String) (revision : ℕ) (db : Database)
    → IsValid db
    → IsValid (delete_at job_id revision db).1
unfolding delete_at
delete_at-IsValid job_id revision db h = record {
  jobs_keyed = IsKeyed-delete_where job_key _ db.jobs h.jobs_keyed;
  runs_keyed =
      if_holds (IsKeyed run_key) _
        (λ _.
          IsKeyed-delete_where run_key (λ run. str_eq run.job_id job_id) db.job_runs h.runs_keyed)
        (λ _. h.runs_keyed);
  leased = All-delete_where IsLeased _ db.jobs h.leased;
}

pub delete-IsValid :
    (job_id : String) (revision : Option ℕ) (db : Database)
    → IsValid db
    → IsValid (delete_job job_id revision db).1
unfolding delete_job
delete-IsValid job_id (some revision) db h = delete_at-IsValid job_id revision db h
delete-IsValid job_id none db h = elim (Option-cases (row_of db job_id)) [
  | inl e ↦ rw e h
  | inr (row, e) ↦ rw e (delete_at-IsValid job_id row.revision db h)
]
