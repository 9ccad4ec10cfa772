-- ===== src/Scheduler/Store/Revisions.antt =====
-- Revisions: how the operations of the store change a row that is there.

use ai_lab_os.Prelude.{
  ℕ, ◌+◌, ◌≡◌, refl, Bool, true, false, Option, none, some, List, String, eq_iff, arith, Bool-cases,
  Option-cases, inl, inr, ◌⊎◌, ◌==◌,
}
use ai_lab_os.Sql.{IsKeyed, find_key, update_where, count_where, delete_where}
use ai_lab_os.Sql.Laws.{find_key-update_where, find_key-delete_where, find_key-insert}
use ai_lab_os.Scheduler.Models.{Instant, Job, JobRun}
use ai_lab_os.Scheduler.Rows.{JobRow, job_values}
use ai_lab_os.Scheduler.Store.Database.{Database, job_key, run_key, with_id, row_of}
use ai_lab_os.Scheduler.Store.Jobs.{
  save_job, read_back, pause_job, resume_job, delete_at, delete_job, cancel_job, reschedule_job,
  pause_guard, paused_row, resume_guard, resumed_row, delete_guard, cancel_guard, cancelled_row,
  reschedule_guard, rescheduled_row,
}
use ai_lab_os.Scheduler.Store.Claims.{
  claim_guard, claimed_row, open_run, claim_job, finalized_row, finalize_claim, finalize_guard,
  run_guard, renew_guard, renewed_row, renew_claim, is_expired, released_row,
  release_expired_claims,
}
use ai_lab_os.Scheduler.Store.Steps.{
  Operation, save, pause, resume, delete, cancel, reschedule, claim, finalize, renew, release,
  apply,
}

-- What may have become of the row `r`: it is deleted, it is as it was, or its revision is the next.
abbrev pub Evolved : JobRow → Option JobRow → Type 0
Evolved r new =
    (new ≡ none)
    ⊎ (new ≡ some r)
    ⊎ ((r' : JobRow) × (new ≡ some r') × (r'.revision ≡ r.revision + 1))

module _ (job_id : String) (r : JobRow) where
  update-Evolved :
      (jobs : List JobRow) (p : JobRow → Bool) (f : JobRow → JobRow)
      → ((row : JobRow) → (f row).id ≡ row.id)
      → ((row : JobRow) → (f row).revision ≡ row.revision + 1)
      → find_key job_key job_id jobs ≡ some r
      → Evolved r (find_key job_key job_id (update_where p f jobs))
  update-Evolved jobs p f same next e =
      rw (find_key-update_where job_key p f job_id jobs same, e)
        (elim (Bool-cases (p r)) [
          | inl hit ↦ rw hit (inr (inr (f r, refl, next r)))
          | inr miss ↦ rw miss (inr (inl refl))
        ])

  same-Evolved :
      (jobs : List JobRow)
      → find_key job_key job_id jobs ≡ some r
      → Evolved r (find_key job_key job_id jobs)
  same-Evolved jobs e = inr (inl e)

  delete-Evolved :
      (jobs : List JobRow) (p : JobRow → Bool)
      → IsKeyed job_key jobs
      → find_key job_key job_id jobs ≡ some r
      → Evolved r (find_key job_key job_id (delete_where p jobs))
  delete-Evolved jobs p keyed e =
      rw (find_key-delete_where job_key p job_id jobs keyed, e)
        (elim (Bool-cases (p r)) [
          | inl hit ↦ rw hit (inl refl)
          | inr miss ↦ rw miss (inr (inl refl))
        ])

save-Evolved :
    (job_id : String) (r : JobRow) (job : Job) (db : Database)
    → row_of db job_id ≡ some r
    → Evolved r (row_of (save_job job db).1 job_id)
unfolding save_job job_values
save-Evolved job_id r job db e = elim (Option-cases (row_of db job.info.id)) [
  | inr (taken, there) ↦ rw (there, e) (inr (inl refl))
  | inl free ↦ rw free (
      inr (
        inl (
          ground (
            arith,
            eq_iff job.info.id job_id,
            find_key-insert job_key job_id db.jobs (job_values job) free,
          ))))
]

module _ (job_id : String) (r : JobRow) (db : Database) (keyed : IsKeyed job_key db.jobs)
    (e : row_of db job_id ≡ some r) where
  read_back-Evolved :
      (changed : Bool) (new : Database) (id : String)
      → Evolved r (row_of new job_id)
      → Evolved r (row_of (read_back (changed, new) id).1 job_id)
  unfolding read_back
  read_back-Evolved true new id h = h
  read_back-Evolved false new id h = h

  delete_at-Evolved :
      (id : String) (revision : ℕ) → Evolved r (row_of (delete_at id revision db).1 job_id)
  unfolding delete_at
  delete_at-Evolved id revision =
      delete-Evolved job_id r db.jobs (with_id id (delete_guard revision)) keyed e

  delete_job-Evolved :
      (id : String) (revision : Option ℕ) → Evolved r (row_of (delete_job id revision db).1 job_id)
  unfolding delete_job
  delete_job-Evolved id (some revision) = delete_at-Evolved id revision
  delete_job-Evolved id none = elim (Option-cases (row_of db id)) [
    | inl absent ↦ rw (absent, e) (inr (inl refl))
    | inr (row, there) ↦ rw there (delete_at-Evolved id row.revision)
  ]

  open_run-Evolved :
      (run_id token : String) (now : Instant) (row : Option JobRow) (new : Database)
      → Evolved r (row_of new job_id)
      → Evolved r (row_of (open_run run_id token now row new db).1 job_id)
  unfolding open_run
  open_run-Evolved run_id token now none new h = inr (inl e)
  open_run-Evolved run_id token now (some row) new h =
      elim (Option-cases (find_key run_key run_id new.job_runs)) [
        | inr (run, taken) ↦ rw (taken, e) (inr (inl refl))
        | inl free ↦ rw free h
      ]

  claim-Evolved :
      (id : String) (now : Instant) (token : String) (expires : Instant) (run_id : String)
      → Evolved r (row_of (claim_job id now token expires run_id db).1 job_id)
  unfolding claim_job
  claim-Evolved id now token expires run_id =
      elim (Bool-cases (count_where (with_id id (claim_guard now)) db.jobs == 1)) [
        | inr refused ↦ rw (refused, e) (inr (inl refl))
        | inl hit ↦ rw hit (
            open_run-Evolved run_id token now _ _ (
              update-Evolved job_id r db.jobs (with_id id (claim_guard now))
                (claimed_row token expires now) (λ row. refl) (λ row. refl) e))
      ]

  finalize-Evolved :
      (job : Job) (run : JobRun) (token : String)
      → Evolved r (row_of (finalize_claim job run token db).1 job_id)
  unfolding finalize_claim
  finalize-Evolved job run token =
      elim (Bool-cases (count_where (with_id job.info.id (finalize_guard token)) db.jobs == 1)) [
        | inr lost ↦ rw (lost, e) (inr (inl refl))
        | inl owned ↦ elim (Bool-cases (count_where (run_guard run.id token) db.job_runs == 1)) [
          | inr lost ↦ rw (owned, lost, e) (inr (inl refl))
          | inl kept ↦
              rw (owned, kept)
                (update-Evolved job_id r db.jobs (with_id job.info.id (finalize_guard token))
                  (finalized_row (job_values job)) (λ row. refl) (λ row. refl) e)
        ]
      ]

  -- Every operation leaves a row as it was, deletes it, or gives it the next revision.
  pub apply-Evolved : (op : Operation) → Evolved r (row_of (apply op db) job_id)
  unfolding apply
  apply-Evolved (save job) = save-Evolved job_id r job db e
  apply-Evolved (pause id revision now) =
      unfold pause_job in
      read_back-Evolved _ _ id (
        update-Evolved job_id r db.jobs (with_id id (pause_guard revision)) (paused_row now)
          (λ row. refl) (λ row. refl) e)
  apply-Evolved (resume id revision next now) =
      unfold resume_job in
      read_back-Evolved _ _ id (
        update-Evolved job_id r db.jobs (with_id id (resume_guard revision)) (resumed_row next now)
          (λ row. refl) (λ row. refl) e)
  apply-Evolved (delete id revision) = delete_job-Evolved id revision
  apply-Evolved (cancel id now) =
      unfold cancel_job in
      update-Evolved job_id r db.jobs (with_id id cancel_guard) (cancelled_row now) (λ row. refl)
        (λ row. refl) e
  apply-Evolved (reschedule id revision run_at zone payload now) =
      unfold reschedule_job in
      update-Evolved job_id r db.jobs (with_id id (reschedule_guard revision))
        (rescheduled_row run_at zone payload now) (λ row. refl) (λ row. refl) e
  apply-Evolved (claim id now token expires run_id) = claim-Evolved id now token expires run_id
  apply-Evolved (finalize job run token) = finalize-Evolved job run token
  apply-Evolved (renew id token expires now) =
      unfold renew_claim in
      update-Evolved job_id r db.jobs (with_id id (renew_guard token now)) (renewed_row expires now)
        (λ row. refl) (λ row. refl) e
  apply-Evolved (release now delay) =
      unfold release_expired_claims in
      update-Evolved job_id r db.jobs (is_expired now) (released_row (now + delay) now)
        (λ row. refl) (λ row. refl) e
