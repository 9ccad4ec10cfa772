-- ===== src/Scheduler/Store/Ownership.antt =====
-- The owner of a claim that has not expired keeps the job to itself, and can finalize it.

use ai_lab_os.Prelude.{
  ℕ, ◌+◌, ◌≤◌, ◌<◌, ◌≡◌, ◌≢◌, refl, Bool, true, false, Option, none, some, List, String, eq_iff,
  arith, Bool-cases, Option-cases, inl, inr, ◌⊎◌, ◌==◌,
}
use ai_lab_os.Sql.{IsKeyed, find_key, update_where, count_where, delete_where}
use ai_lab_os.Sql.Laws.{find_key-update_where, find_key-delete_where, find_key_kept}
use ai_lab_os.Scheduler.Models.{Instant, Job, JobRun, is_running}
use ai_lab_os.Scheduler.Rows.{JobRow, job_values}
use ai_lab_os.Scheduler.Store.Database.{Database, job_key, run_key, with_id, row_of}
use ai_lab_os.Scheduler.Store.Jobs.{
  save_job, read_back, pause_job, resume_job, delete_at, delete_job, cancel_job, reschedule_job,
  pause_guard, paused_row, resume_guard, resumed_row, delete_guard, cancel_guard, cancelled_row,
  reschedule_guard, rescheduled_row,
}
use ai_lab_os.Scheduler.Store.Claims.{
  claim_guard, claimed_row, open_run, claim_job, finalized_row, finalize_claim, finalize_guard,
  run_guard, renew_guard, renewed_row, renew_claim, is_expired, released_row,
  release_expired_claims,
}
use ai_lab_os.Scheduler.Store.Steps.{
  Operation, save, pause, resume, delete, cancel, reschedule, claim, finalize, renew, release,
  apply, IsValid,
}

-- The row is running under the token, at least up to the deadline.
abbrev pub IsOwned : String → Instant → JobRow → Type 0
IsOwned token deadline row =
    (is_running row.status ≡ true)
    × (row.claim_token ≡ some token)
    × ((expires : Instant) × (row.claim_expires_at ≡ some expires) × (deadline ≤ expires))

abbrev pub Owned : String → Instant → Option JobRow → Type 0
Owned token deadline o = (row : JobRow) × (o ≡ some row) × IsOwned token deadline row

-- What the others and the clock have to leave alone: nobody else finalizes with the token, claims
-- are only released before the deadline, and a renewal with the token does not shorten the lease.
abbrev pub Spares : String → Instant → Operation → Type 0
Spares token deadline (finalize job run tok) = tok ≢ token
Spares token deadline (release now delay) = now < deadline
Spares token deadline (renew job_id tok expires now) = (tok ≢ token) ⊎ (deadline ≤ expires)
Spares token deadline _ = Unit

module _ (token : String) (deadline : Instant) (job_id : String) where
  -- An UPDATE that keeps every owned row that it selects owned.
  update-Owned :
      (jobs : List JobRow) (p : JobRow → Bool) (f : JobRow → JobRow)
      → ((row : JobRow) → (f row).id ≡ row.id)
      → ((row : JobRow)
          → p row ≡ true
          → IsOwned token deadline row
          → IsOwned token deadline (f row))
      → Owned token deadline (find_key job_key job_id jobs)
      → Owned token deadline (find_key job_key job_id (update_where p f jobs))
  update-Owned jobs p f same keep (row, e, owned) =
      rw (find_key-update_where job_key p f job_id jobs same, e)
        (elim (Bool-cases (p row)) [
          | inl hit ↦ rw hit (f row, refl, keep row hit owned)
          | inr miss ↦ rw miss (row, refl, owned)
        ])

  delete-Owned :
      (jobs : List JobRow) (p : JobRow → Bool)
      → IsKeyed job_key jobs
      → ((row : JobRow) → IsOwned token deadline row → p row ≡ false)
      → Owned token deadline (find_key job_key job_id jobs)
      → Owned token deadline (find_key job_key job_id (delete_where p jobs))
  delete-Owned jobs p keyed miss (row, e, owned) =
      rw (find_key-delete_where job_key p job_id jobs keyed, e, miss row owned) (row, refl, owned)

  module _ (db : Database) (v : IsValid db) (own : Owned token deadline (row_of db job_id)) where
    save-Owned : (job : Job) → Owned token deadline (row_of (save_job job db).1 job_id)
    unfolding save_job
    save-Owned job = elim (Option-cases (row_of db job.info.id)) [
      | inr (taken, there) ↦ rw there own
      | inl free ↦
          rw free (own.0, find_key_kept job_key job_id db.jobs (job_values job) own.0 own.1, own.2)
    ]

    open_run-Owned :
        (run_id tok : String) (now : Instant) (row : Option JobRow) (new : Database)
        → Owned token deadline (row_of new job_id)
        → Owned token deadline (row_of (open_run run_id tok now row new db).1 job_id)
    unfolding open_run
    open_run-Owned run_id tok now none new hn = own
    open_run-Owned run_id tok now (some row) new hn =
        elim (Option-cases (find_key run_key run_id new.job_runs)) [
          | inr (run, taken) ↦ rw taken own
          | inl free ↦ rw free hn
        ]

    claim-Owned :
        (id : String) (now : Instant) (tok : String) (expires : Instant) (run_id : String)
        → Owned token deadline (row_of (claim_job id now tok expires run_id db).1 job_id)
    unfolding claim_job
    claim-Owned id now tok expires run_id =
        elim (Bool-cases (count_where (with_id id (claim_guard now)) db.jobs == 1)) [
          | inr refused ↦ rw refused own
          | inl hit ↦ rw hit (
              open_run-Owned run_id tok now _ _ (
                update-Owned db.jobs (with_id id (claim_guard now)) (claimed_row tok expires now)
                  (λ row. refl) (λ row selected owned. ground arith) own))
        ]

    read_back-Owned :
        (changed : Bool) (new : Database) (id : String)
        → Owned token deadline (row_of new job_id)
        → Owned token deadline (row_of (read_back (changed, new) id).1 job_id)
    unfolding read_back
    read_back-Owned true new id hn = hn
    read_back-Owned false new id hn = hn

    delete_at-Owned :
        (id : String) (revision : ℕ)
        → Owned token deadline (row_of (delete_at id revision db).1 job_id)
    unfolding delete_at
    delete_at-Owned id revision =
        delete-Owned db.jobs (with_id id (delete_guard revision)) v.jobs_keyed
          (λ row owned. ground arith) own

    delete_job-Owned :
        (id : String) (revision : Option ℕ)
        → Owned token deadline (row_of (delete_job id revision db).1 job_id)
    unfolding delete_job
    delete_job-Owned id (some revision) = delete_at-Owned id revision
    delete_job-Owned id none = elim (Option-cases (row_of db id)) [
      | inl absent ↦ rw absent own
      | inr (row, there) ↦ rw there (delete_at-Owned id row.revision)
    ]

    finalize-Owned :
        (job : Job) (run : JobRun) (tok : String)
        → tok ≢ token
        → Owned token deadline (row_of (finalize_claim job run tok db).1 job_id)
    unfolding finalize_claim
    finalize-Owned job run tok other =
        elim (Bool-cases (count_where (with_id job.info.id (finalize_guard tok)) db.jobs == 1)) [
          | inr lost ↦ rw lost own
          | inl owned ↦ elim (Bool-cases (count_where (run_guard run.id tok) db.job_runs == 1)) [
            | inr lost ↦ rw (owned, lost) own
            | inl kept ↦
                rw (owned, kept)
                  (update-Owned db.jobs (with_id job.info.id (finalize_guard tok))
                    (finalized_row (job_values job)) (λ row. refl)
                    (λ row selected mine. absurd (ground (arith, eq_iff token tok))) own)
          ]
        ]

    -- An operation that spares the claim leaves the job with its owner.
    pub apply-Owned :
        (op : Operation)
        → Spares token deadline op
        → Owned token deadline (row_of (apply op db) job_id)
    unfolding apply
    apply-Owned (save job) _ = save-Owned job
    apply-Owned (pause id revision now) _ =
        unfold pause_job in
        read_back-Owned _ _ id (
          update-Owned db.jobs (with_id id (pause_guard revision)) (paused_row now) (λ row. refl)
            (λ row selected owned. ground arith) own)
    apply-Owned (resume id revision next now) _ =
        unfold resume_job in
        read_back-Owned _ _ id (
          update-Owned db.jobs (with_id id (resume_guard revision)) (resumed_row next now)
            (λ row. refl) (λ row selected owned. ground arith) own)
    apply-Owned (delete id revision) _ = delete_job-Owned id revision
    apply-Owned (cancel id now) _ =
        unfold cancel_job in
        update-Owned db.jobs (with_id id cancel_guard) (cancelled_row now) (λ row. refl)
          (λ row selected owned. ground arith) own
    apply-Owned (reschedule id revision run_at zone payload now) _ =
        unfold reschedule_job in
        update-Owned db.jobs (with_id id (reschedule_guard revision))
          (rescheduled_row run_at zone payload now) (λ row. refl)
          (λ row selected owned. ground arith) own
    apply-Owned (claim id now tok expires run_id) _ = claim-Owned id now tok expires run_id
    apply-Owned (finalize job run tok) other = finalize-Owned job run tok other
    apply-Owned (renew id tok expires now) longer =
        unfold renew_claim in
        update-Owned db.jobs (with_id id (renew_guard tok now)) (renewed_row expires now)
          (λ row. refl)
          (λ row selected owned.
            (owned.0, owned.1, (expires, refl, ground (arith, eq_iff token tok))))
          own
    apply-Owned (release now delay) early =
        unfold release_expired_claims in
        update-Owned db.jobs (is_expired now) (released_row (now + delay) now) (λ row. refl)
          (λ row selected owned. absurd (ground arith)) own
