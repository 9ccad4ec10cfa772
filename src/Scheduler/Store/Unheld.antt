-- ===== src/Scheduler/Store/Unheld.antt =====
-- A token that no row holds stays so: no operation but a claim gives it out.
use mathlib.Core.Option
use ai_lab_os.Prelude.{
  ℕ, ◌+◌, ◌≡◌, ◌≢◌, refl, ap, Bool, true, false, Option, none, some, List, [], ◌∷◌, ◌++◌, String,
  str_eq, eq_iff, arith, Bool-cases, Option-cases, inl, inr, ◌==◌,
}
use ai_lab_os.Sql.{IsKeyed, find_key, update_where, count_where, delete_where}
use ai_lab_os.Sql.Laws.{
  updated, remaining, find_key-update_where, find_key-delete_where, find_key-insert,
}
use ai_lab_os.Scheduler.Models.{Instant, Job, JobRun}
use ai_lab_os.Scheduler.Rows.{JobRow, job_values}
use ai_lab_os.Scheduler.Store.Database.{Database, job_key, run_key, with_id, row_of}
use ai_lab_os.Scheduler.Store.Jobs.{
  save_job, read_back, pause_job, resume_job, delete_at, delete_job, cancel_job, reschedule_job,
  pause_guard, paused_row, resume_guard, resumed_row, delete_guard, cancel_guard, cancelled_row,
  reschedule_guard, rescheduled_row,
}
use ai_lab_os.Scheduler.Store.Claims.{
  holds, claim_guard, claimed_row, open_run, claim_job, finalized_row, finalize_claim,
  finalize_guard, run_guard, renew_guard, renewed_row, renew_claim, is_expired, released_row,
  release_expired_claims,
}
use ai_lab_os.Scheduler.Store.Steps.{
  Operation, save, pause, resume, delete, cancel, reschedule, claim, finalize, renew, release,
  apply, IsProper,
}

-- The row does not hold the token.
abbrev pub NotHeld : String → Option JobRow → Type 0
NotHeld token none = Unit
NotHeld token (some row) = holds row.claim_token token ≡ false

-- Every claim has a fresh token: no other claim uses this one.
abbrev pub IsNotClaimingWith : String → Operation → Type 0
IsNotClaimingWith token (claim job_id now token' expires run_id) = token' ≢ token
IsNotClaimingWith token _ = Unit

module _ (token job_id : String) where
  update-NotHeld :
      (jobs : List JobRow) (p : JobRow → Bool) (f : JobRow → JobRow)
      → ((row : JobRow) → (f row).id ≡ row.id)
      → ((row : JobRow)
          → holds row.claim_token token ≡ false
          → holds (f row).claim_token token ≡ false)
      → NotHeld token (find_key job_key job_id jobs)
      → NotHeld token (find_key job_key job_id (update_where p f jobs))
  update-NotHeld jobs p f same keep h =
      rw (find_key-update_where job_key p f job_id jobs same)
        (mapped (find_key job_key job_id jobs) h)
    where
      mapped : (o : Option JobRow) → NotHeld token o → NotHeld token (Option.map (updated p f) o)
      mapped none u = tt
      mapped (some row) u = elim (Bool-cases (p row)) [ inl e ↦ rw e (keep row u) | inr e ↦ rw e u ]

  delete-NotHeld :
      (jobs : List JobRow) (p : JobRow → Bool)
      → IsKeyed job_key jobs
      → NotHeld token (find_key job_key job_id jobs)
      → NotHeld token (find_key job_key job_id (delete_where p jobs))
  delete-NotHeld jobs p keyed h =
      rw (find_key-delete_where job_key p job_id jobs keyed) (left (find_key job_key job_id jobs) h)
    where
      left : (o : Option JobRow) → NotHeld token o → NotHeld token (remaining job_key p o)
      left none u = tt
      left (some row) u = elim (Bool-cases (p row)) [ inl e ↦ rw e tt | inr e ↦ rw e u ]

  insert-NotHeld :
      (jobs : List JobRow) (row : JobRow)
      → find_key job_key row.id jobs ≡ none
      → row.claim_token ≡ none
      → NotHeld token (find_key job_key job_id jobs)
      → NotHeld token (find_key job_key job_id (jobs ++ row ∷ []))
  insert-NotHeld jobs row free unclaimed h =
      rw (find_key-insert job_key job_id jobs row free) (elim (Bool-cases (str_eq row.id job_id)) [
        | inl e ↦ rw e (ap (λ c. holds c token) unclaimed)
        | inr e ↦ rw e h
      ])

  module _ (db : Database) (h : NotHeld token (row_of db job_id)) where
    save-NotHeld :
        (job : Job) → job.claim_token ≡ none → NotHeld token (row_of (save_job job db).1 job_id)
    unfolding save_job
    save-NotHeld job unclaimed = elim (Option-cases (row_of db job.info.id)) [
      | inr (taken, there) ↦ rw there h
      | inl free ↦
          rw free (unfold job_values in insert-NotHeld db.jobs (job_values job) free unclaimed h)
    ]

    open_run-NotHeld :
        (run_id tok : String) (now : Instant) (row : Option JobRow) (new : Database)
        → NotHeld token (row_of new job_id)
        → NotHeld token (row_of (open_run run_id tok now row new db).1 job_id)
    unfolding open_run
    open_run-NotHeld run_id tok now none new hn = h
    open_run-NotHeld run_id tok now (some row) new hn =
        elim (Option-cases (find_key run_key run_id new.job_runs)) [
          | inr (run, taken) ↦ rw taken h
          | inl free ↦ rw free hn
        ]

    claim-NotHeld :
        (id : String) (now : Instant) (tok : String) (expires : Instant) (run_id : String)
        → tok ≢ token
        → NotHeld token (row_of (claim_job id now tok expires run_id db).1 job_id)
    unfolding claim_job
    claim-NotHeld id now tok expires run_id other =
        elim (Bool-cases (count_where (with_id id (claim_guard now)) db.jobs == 1)) [
          | inr refused ↦ rw refused h
          | inl hit ↦ rw hit (
              open_run-NotHeld run_id tok now _ _ (
                update-NotHeld db.jobs (with_id id (claim_guard now)) (claimed_row tok expires now)
                  (λ row. refl) (λ row u. ground (arith, eq_iff tok token)) h))
        ]

    finalize-NotHeld :
        (job : Job) (run : JobRun) (tok : String)
        → NotHeld token (row_of (finalize_claim job run tok db).1 job_id)
    unfolding finalize_claim
    finalize-NotHeld job run tok =
        elim (Bool-cases (count_where (with_id job.info.id (finalize_guard tok)) db.jobs == 1)) [
          | inr lost ↦ rw lost h
          | inl owned ↦ elim (Bool-cases (count_where (run_guard run.id tok) db.job_runs == 1)) [
            | inr lost ↦ rw (owned, lost) h
            | inl kept ↦
                rw (owned, kept)
                  (update-NotHeld db.jobs (with_id job.info.id (finalize_guard tok))
                    (finalized_row (job_values job)) (λ row. refl) (λ row u. refl) h)
          ]
        ]

    read_back-NotHeld :
        (changed : Bool) (new : Database) (id : String)
        → NotHeld token (row_of new job_id)
        → NotHeld token (row_of (read_back (changed, new) id).1 job_id)
    unfolding read_back
    read_back-NotHeld true new id hn = hn
    read_back-NotHeld false new id hn = hn

    delete_at-NotHeld :
        (id : String) (revision : ℕ)
        → IsKeyed job_key db.jobs
        → NotHeld token (row_of (delete_at id revision db).1 job_id)
    unfolding delete_at
    delete_at-NotHeld id revision keyed =
        delete-NotHeld db.jobs (with_id id (delete_guard revision)) keyed h

    delete_job-NotHeld :
        (id : String) (revision : Option ℕ)
        → IsKeyed job_key db.jobs
        → NotHeld token (row_of (delete_job id revision db).1 job_id)
    unfolding delete_job
    delete_job-NotHeld id (some revision) keyed = delete_at-NotHeld id revision keyed
    delete_job-NotHeld id none keyed = elim (Option-cases (row_of db id)) [
      | inl absent ↦ rw absent h
      | inr (row, there) ↦ rw there (delete_at-NotHeld id row.revision keyed)
    ]

    -- An operation that is no claim with the token does not give the token to the job.
    pub apply-NotHeld :
        (op : Operation)
        → IsKeyed job_key db.jobs
        → IsProper op
        → IsNotClaimingWith token op
        → NotHeld token (row_of (apply op db) job_id)
    unfolding apply
    apply-NotHeld (save job) keyed proper _ = save-NotHeld job proper.1
    apply-NotHeld (pause id revision now) keyed _ _ =
        unfold pause_job in
        read_back-NotHeld _ _ id (
          update-NotHeld db.jobs (with_id id (pause_guard revision)) (paused_row now) (λ row. refl)
            (λ row u. u) h)
    apply-NotHeld (resume id revision next now) keyed _ _ =
        unfold resume_job in
        read_back-NotHeld _ _ id (
          update-NotHeld db.jobs (with_id id (resume_guard revision)) (resumed_row next now)
            (λ row. refl) (λ row u. u) h)
    apply-NotHeld (delete id revision) keyed _ _ = delete_job-NotHeld id revision keyed
    apply-NotHeld (cancel id now) keyed _ _ =
        unfold cancel_job in
        update-NotHeld db.jobs (with_id id cancel_guard) (cancelled_row now) (λ row. refl)
          (λ row u. refl) h
    apply-NotHeld (reschedule id revision run_at zone payload now) keyed _ _ =
        unfold reschedule_job in
        update-NotHeld db.jobs (with_id id (reschedule_guard revision))
          (rescheduled_row run_at zone payload now) (λ row. refl) (λ row u. u) h
    apply-NotHeld (claim id now tok expires run_id) keyed _ other =
        claim-NotHeld id now tok expires run_id other
    apply-NotHeld (finalize job run tok) keyed _ _ = finalize-NotHeld job run tok
    apply-NotHeld (renew id tok expires now) keyed _ _ =
        unfold renew_claim in
        update-NotHeld db.jobs (with_id id (renew_guard tok now)) (renewed_row expires now)
          (λ row. refl) (λ row u. u) h
    apply-NotHeld (release now delay) keyed _ _ =
        unfold release_expired_claims in
        update-NotHeld db.jobs (is_expired now) (released_row (now + delay) now) (λ row. refl)
          (λ row u. refl) h
