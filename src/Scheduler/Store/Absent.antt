-- ===== src/Scheduler/Store/Absent.antt =====
-- A job that is not in the table comes there by its save only.

use ai_lab_os.Prelude.{
  ℕ, ◌+◌, ◌≡◌, ◌≢◌, refl, Bool, true, false, Option, none, some, String, eq_iff, arith, Bool-cases,
  Option-cases, inl, inr, ◌==◌,
}
use ai_lab_os.Sql.{IsKeyed, find_key, update_where, count_where}
use ai_lab_os.Sql.Laws.{find_key-update_where, find_key-delete_where, find_key-insert}
use ai_lab_os.Scheduler.Models.{Instant, Job, JobRun}
use ai_lab_os.Scheduler.Rows.{JobRow, job_values}
use ai_lab_os.Scheduler.Store.Database.{Database, job_key, with_id, row_of}
use ai_lab_os.Scheduler.Store.Jobs.{
  save_job, read_back, pause_job, resume_job, delete_at, delete_job, cancel_job, reschedule_job,
  pause_guard, paused_row, resume_guard, resumed_row, delete_guard, cancel_guard, cancelled_row,
  reschedule_guard, rescheduled_row,
}
use ai_lab_os.Scheduler.Store.Claims.{
  claim_guard, claimed_row, open_run, claim_job, finalized_row, finalize_claim, finalize_guard,
  renew_guard, renewed_row, renew_claim, is_expired, released_row, release_expired_claims,
}
use ai_lab_os.Scheduler.Store.Steps.{
  Operation, save, pause, resume, delete, cancel, reschedule, claim, finalize, renew, release,
  apply,
}

-- A save under another id, or any other operation.
abbrev pub IsNotSaving : String → Operation → Type 0
IsNotSaving job_id (save job) = job.info.id ≢ job_id
IsNotSaving job_id _ = Unit

module _ (job_id : String) (db : Database) (keyed : IsKeyed job_key db.jobs)
    (e : row_of db job_id ≡ none) where
  update_absent :
      (p : JobRow → Bool) (f : JobRow → JobRow)
      → ((row : JobRow) → (f row).id ≡ row.id)
      → find_key job_key job_id (update_where p f db.jobs) ≡ none
  update_absent p f same = rw (find_key-update_where job_key p f job_id db.jobs same, e)

  delete_at_absent :
      (id : String) (revision : ℕ) → row_of (delete_at id revision db).1 job_id ≡ none
  unfolding delete_at
  delete_at_absent id revision =
      rw
        (find_key-delete_where job_key (with_id id (delete_guard revision)) job_id db.jobs keyed, e)

  open_run_absent :
      (run_id token : String) (now : Instant) (row : Option JobRow) (new : Database)
      → row_of new job_id ≡ none
      → row_of (open_run run_id token now row new db).1 job_id ≡ none
  unfolding open_run
  open_run_absent run_id token now none new h = e
  open_run_absent run_id token now (some row) new h = ground (arith, e)

  save_absent : (job : Job) → job.info.id ≢ job_id → row_of (save_job job db).1 job_id ≡ none
  unfolding save_job job_values
  save_absent job other = elim (Option-cases (row_of db job.info.id)) [
    | inr (taken, there) ↦ rw there e
    | inl free ↦ rw free (
        ground (
          arith,
          eq_iff job.info.id job_id,
          find_key-insert job_key job_id db.jobs (job_values job) free,
        ))
  ]

  claim_absent :
      (id : String) (now : Instant) (token : String) (expires : Instant) (run_id : String)
      → row_of (claim_job id now token expires run_id db).1 job_id ≡ none
  unfolding claim_job
  claim_absent id now token expires run_id =
      elim (Bool-cases (count_where (with_id id (claim_guard now)) db.jobs == 1)) [
        | inr refused ↦ rw refused e
        | inl hit ↦ rw hit (
            open_run_absent run_id token now _ _ (
              update_absent (with_id id (claim_guard now)) (claimed_row token expires now)
                (λ row. refl)))
      ]

  finalize_absent :
      (job : Job) (run : JobRun) (token : String)
      → row_of (finalize_claim job run token db).1 job_id ≡ none
  unfolding finalize_claim
  finalize_absent job run token = ground (
    arith,
    e,
    update_absent (with_id job.info.id (finalize_guard token)) (finalized_row (job_values job))
        (λ row. refl),
  )

  delete_job_absent :
      (id : String) (revision : Option ℕ) → row_of (delete_job id revision db).1 job_id ≡ none
  unfolding delete_job
  delete_job_absent id (some revision) = delete_at_absent id revision
  delete_job_absent id none = elim (Option-cases (row_of db id)) [
    | inl absent ↦ rw absent e
    | inr (row, there) ↦ rw there (delete_at_absent id row.revision)
  ]

  read_back_absent :
      (changed : Bool) (new : Database) (id : String)
      → row_of new job_id ≡ none
      → row_of (read_back (changed, new) id).1 job_id ≡ none
  unfolding read_back
  read_back_absent true new id h = h
  read_back_absent false new id h = h

  -- A job that is not there is not there after any operation but its own save.
  pub apply_absent : (op : Operation) → IsNotSaving job_id op → row_of (apply op db) job_id ≡ none
  unfolding apply
  apply_absent (save job) other = save_absent job other
  apply_absent (pause id revision now) _ =
      unfold pause_job in
      read_back_absent _ _ id
        (update_absent (with_id id (pause_guard revision)) (paused_row now) (λ row. refl))
  apply_absent (resume id revision next now) _ =
      unfold resume_job in
      read_back_absent _ _ id
        (update_absent (with_id id (resume_guard revision)) (resumed_row next now) (λ row. refl))
  apply_absent (delete id revision) _ = delete_job_absent id revision
  apply_absent (cancel id now) _ =
      unfold cancel_job in update_absent (with_id id cancel_guard) (cancelled_row now) (λ row. refl)
  apply_absent (reschedule id revision run_at zone payload now) _ =
      unfold reschedule_job in
      update_absent (with_id id (reschedule_guard revision))
        (rescheduled_row run_at zone payload now) (λ row. refl)
  apply_absent (claim id now token expires run_id) _ = claim_absent id now token expires run_id
  apply_absent (finalize job run token) _ = finalize_absent job run token
  apply_absent (renew id token expires now) _ =
      unfold renew_claim in
      update_absent (with_id id (renew_guard token now)) (renewed_row expires now) (λ row. refl)
  apply_absent (release now delay) _ =
      unfold release_expired_claims in
      update_absent (is_expired now) (released_row (now + delay) now) (λ row. refl)
