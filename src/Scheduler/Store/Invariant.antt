-- ===== src/Scheduler/Store/Invariant.antt =====
-- Every operation of the store keeps the well-formedness of the database.
use ai_lab_os.Prelude.{
  ℕ, ◌+◌, ◌≡◌, refl, false, Option, none, some, List, [], ◌∷◌, String, arith, All, Bool-cases,
  Option-cases, inl, inr, ◌==◌,
}
use ai_lab_os.Sql.{find_key, count_where}
use ai_lab_os.Sql.Laws.{IsKeyed-append}
use ai_lab_os.Scheduler.Models.{Instant, Job, JobRun, is_running}
use ai_lab_os.Scheduler.Rows.{JobRow, job_values}
use ai_lab_os.Scheduler.Store.Database.{Database, empty, run_key, with_id}
use ai_lab_os.Scheduler.Store.Claims.{
  claim_guard, claimed_row, open_run, opened_run, claim_job, finalized_row, finalize_claim,
  run_guard, closed_run, is_expired, released_row, abandoned_run, release_expired_claims,
  finalize_guard,
}
use ai_lab_os.Scheduler.Store.Steps.{
  Operation, save, pause, resume, delete, cancel, reschedule, claim, finalize, renew, release,
  apply, apply_all, IsProper, IsValid,
}
use ai_lab_os.Scheduler.Store.Changes.{
  jobs_updated, runs_updated, save-IsValid, pause-IsValid, resume-IsValid, cancel-IsValid,
  reschedule-IsValid, renew-IsValid, delete-IsValid,
}

finalize-IsValid :
    (job : Job) (run : JobRun) (token : String) (db : Database)
    → is_running job.status ≡ false
    → IsValid db
    → IsValid (finalize_claim job run token db).1
unfolding finalize_claim job_values
finalize-IsValid job run token db idle h =
    let both =
      runs_updated _ (run_guard run.id token) (closed_run run) (λ r. refl)
        (jobs_updated db (with_id job.info.id (finalize_guard token))
          (finalized_row (job_values job)) (λ row. refl) (λ row e ok. ground arith) h) in
    elim (Bool-cases (count_where (with_id job.info.id (finalize_guard token)) db.jobs == 1)) [
      | inr e ↦ rw e h
      | inl e ↦ elim (Bool-cases (count_where (run_guard run.id token) db.job_runs == 1)) [
        | inr lost ↦ rw (e, lost) h
        | inl kept ↦ rw (e, kept) both
      ]
    ]

release-IsValid :
    (now : Instant) (delay : ℕ) (db : Database)
    → IsValid db
    → IsValid (release_expired_claims now delay db).1
unfolding release_expired_claims
release-IsValid now delay db h =
    runs_updated _ _ (abandoned_run now) (λ r. refl)
      (jobs_updated db (is_expired now) (released_row (now + delay) now) (λ row. refl)
        (λ row e ok. ground arith) h)

open_run-IsValid :
    (run_id token : String) (now : Instant) (row : Option JobRow) (new db : Database)
    → IsValid new
    → IsValid db
    → IsValid (open_run run_id token now row new db).1
unfolding open_run opened_run
open_run-IsValid run_id token now none new db hn h = h
open_run-IsValid run_id token now (some row) new db hn h =
    elim (Option-cases (find_key run_key run_id new.job_runs)) [
      | inr (r, e) ↦ rw e h
      | inl e ↦ rw e (record {
        jobs_keyed = hn.jobs_keyed;
        runs_keyed =
            IsKeyed-append run_key new.job_runs (opened_run run_id token now row) e hn.runs_keyed;
        leased = hn.leased;
      })
    ]

claim-IsValid :
    (job_id : String) (now : Instant) (token : String) (expires : Instant) (run_id : String)
    (db : Database)
    → IsValid db
    → IsValid (claim_job job_id now token expires run_id db).1
unfolding claim_job
claim-IsValid job_id now token expires run_id db h =
    elim (Bool-cases (count_where (with_id job_id (claim_guard now)) db.jobs == 1)) [
      | inr e ↦ rw e h
      | inl e ↦ rw e (
          open_run-IsValid run_id token now _ _ db
            (jobs_updated db (with_id job_id (claim_guard now)) (claimed_row token expires now)
              (λ row. refl) (λ row e ok. ground arith) h)
            h)
    ]

-- Every operation that the runtime may ask for keeps the primary keys, and keeps every row running
-- exactly while it holds a claim with an expiry.
pub apply-IsValid :
    (op : Operation) (db : Database) → IsProper op → IsValid db → IsValid (apply op db)
unfolding apply
apply-IsValid (save job) db proper h = save-IsValid job db proper h
apply-IsValid (pause job_id revision now) db proper h = pause-IsValid job_id revision now db h
apply-IsValid (resume job_id revision next now) db proper h =
    resume-IsValid job_id revision next now db h
apply-IsValid (delete job_id revision) db proper h = delete-IsValid job_id revision db h
apply-IsValid (cancel job_id now) db proper h = cancel-IsValid job_id now db h
apply-IsValid (reschedule job_id revision run_at zone payload now) db proper h =
    reschedule-IsValid job_id revision run_at zone payload now db h
apply-IsValid (claim job_id now token expires run_id) db proper h =
    claim-IsValid job_id now token expires run_id db h
apply-IsValid (finalize job run token) db proper h = finalize-IsValid job run token db proper h
apply-IsValid (renew job_id token expires now) db proper h =
    renew-IsValid job_id token expires now db h
apply-IsValid (release now delay) db proper h = release-IsValid now delay db h

empty-IsValid : IsValid empty
empty-IsValid = record { jobs_keyed = tt; runs_keyed = tt; leased = tt }

pub apply_all-IsValid :
    (ops : List Operation) (db : Database)
    → All IsProper ops
    → IsValid db
    → IsValid (apply_all ops db)
unfolding apply_all
apply_all-IsValid [] db proper h = h
apply_all-IsValid (op ∷ ops) db proper h =
    apply_all-IsValid ops (apply op db) proper.1 (apply-IsValid op db proper.0 h)

-- From the empty database, whatever runtimes do in whatever order, the primary keys hold and a job
-- is running exactly while it holds a claim with an expiry.
pub store-IsValid : (ops : List Operation) → All IsProper ops → IsValid (apply_all ops empty)
store-IsValid ops proper = apply_all-IsValid ops empty proper empty-IsValid
