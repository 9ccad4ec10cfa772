-- ===== src/Scheduler/Store/Fencing.antt =====
-- A worker that has lost its claim cannot write: tokens that no row holds stay powerless.

use ai_lab_os.Prelude.{
  ℕ, ◌+◌, ◌≡◌, refl, ◌∙◌, Bool, true, false, Option, none, some, List, [], ◌∷◌, String, arith, All,
  err,
}
use ai_lab_os.Sql.{IsKeyed, count_where}
use ai_lab_os.Sql.Laws.{matches, find_key-update_where, count_where_keyed, update_where_none}
use ai_lab_os.Scheduler.Models.{Instant, Job, JobRun}
use ai_lab_os.Scheduler.Rows.{JobRow}
use ai_lab_os.Scheduler.Store.Database.{Database, job_key, with_id, row_of, claim_lost}
use ai_lab_os.Scheduler.Store.Claims.{
  holds, finalize_claim, finalize_guard, renew_guard, renewed_row, renew_claim, is_expired,
  released_row, release_expired_claims,
}
use ai_lab_os.Scheduler.Store.Steps.{Operation, release, apply, apply_all, IsProper, IsValid}
use ai_lab_os.Scheduler.Store.Invariant.{apply-IsValid, apply_all-IsValid}
use ai_lab_os.Scheduler.Store.Unheld.{NotHeld, IsNotClaimingWith, apply-NotHeld}

module _ (token job_id : String) where
  apply_all-NotHeld :
      (ops : List Operation) (db : Database)
      → IsValid db
      → All IsProper ops
      → All (IsNotClaimingWith token) ops
      → NotHeld token (row_of db job_id)
      → NotHeld token (row_of (apply_all ops db) job_id)
  unfolding apply_all
  apply_all-NotHeld [] db v proper other h = h
  apply_all-NotHeld (op ∷ ops) db v proper other h =
      apply_all-NotHeld ops (apply op db) (apply-IsValid op db proper.0 v) proper.1 other.1
        (apply-NotHeld token job_id db h op v.jobs_keyed proper.0 other.0)

  -- The token is powerless: no row of the job is selected by it.
  count-NotHeld :
      (db : Database) (g : JobRow → Bool)
      → IsKeyed job_key db.jobs
      → NotHeld token (row_of db job_id)
      → ((row : JobRow) → holds row.claim_token token ≡ false → g row ≡ false)
      → count_where (with_id job_id g) db.jobs ≡ 0
  count-NotHeld db g keyed h miss =
      count_where_keyed job_key g job_id db.jobs keyed ∙ none_matches (row_of db job_id) h
    where
      none_matches : (o : Option JobRow) → NotHeld token o → matches job_key g o ≡ 0
      none_matches none u = refl
      none_matches (some row) u = rw (miss row u)

  released-NotHeld :
      (db : Database) (now : Instant) (delay : ℕ) (r : JobRow)
      → row_of db job_id ≡ some r
      → is_expired now r ≡ true
      → NotHeld token (row_of (release_expired_claims now delay db).1 job_id)
  unfolding release_expired_claims
  released-NotHeld db now delay r e expired =
      rw
        (
          find_key-update_where job_key (is_expired now) (released_row (now + delay) now) job_id
              db.jobs (λ row. refl),
          e,
        )
        (unfold released_row in rw expired refl)

powerless :
    (token : String) (db : Database) (job : Job) (run : JobRun) (expires later : Instant)
    → IsKeyed job_key db.jobs
    → NotHeld token (row_of db job.info.id)
    → (finalize_claim job run token db ≡ (err claim_lost, db))
      × (renew_claim job.info.id token expires later db ≡ (false, db))
unfolding finalize_claim renew_claim
powerless token db job run expires later keyed h =
    let lost : count_where (with_id job.info.id (finalize_guard token)) db.jobs ≡ 0 =
      count-NotHeld token job.info.id db (finalize_guard token) keyed h (λ row u. u) in
    let none_renewed : count_where (with_id job.info.id (renew_guard token later)) db.jobs ≡ 0 =
      count-NotHeld token job.info.id db (renew_guard token later) keyed h
        (λ row u. ground arith) in
    (
      rw lost,
      rw (
        none_renewed,
        update_where_none (with_id job.info.id (renew_guard token later))
            (renewed_row expires later) db.jobs none_renewed,
      ),
    )

-- The claim of a job has expired at `now` and is released. From then on, whatever the runtimes do,
-- as long as no new claim uses the old token: the old owner's finalization fails with
-- JobClaimLostError, its renewal fails, and neither changes the database.
pub stale_owner_fenced :
    (db : Database) (job : Job) (run : JobRun) (token : String) (r : JobRow) (now : Instant)
    (delay : ℕ) (ops : List Operation) (expires later : Instant)
    → IsValid db
    → row_of db job.info.id ≡ some r
    → is_expired now r ≡ true
    → All IsProper ops
    → All (IsNotClaimingWith token) ops
    → let end = apply_all ops (apply (release now delay) db) in
      (finalize_claim job run token end ≡ (err claim_lost, end))
      × (renew_claim job.info.id token expires later end ≡ (false, end))
stale_owner_fenced db job run token r now delay ops expires later v e expired proper other =
    let valid = apply-IsValid (release now delay) db tt v in
    powerless token _ job run expires later (apply_all-IsValid ops _ proper valid).jobs_keyed (
      apply_all-NotHeld token job.info.id ops (apply (release now delay) db) valid proper other
        (unfold apply in released-NotHeld token job.info.id db now delay r e expired))
