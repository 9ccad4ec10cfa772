-- ===== src/Scheduler/Store/Claiming.antt =====
-- `claim_job` on every branch: what a claim that succeeds has found and left, and when it is refused.

use ai_lab_os.Prelude.{
  ◌≡◌, refl, ap, ◌∙◌, Bool, true, false, Option, none, some, [], ◌∷◌, ◌++◌, String, eq_iff, is_some,
  Bool-cases, Option-cases, inl, inr, ◌⊎◌, Result, ok, err,
}
use ai_lab_os.Sql.{IsKeyed, find_key, update_where, count_where}
use ai_lab_os.Sql.Laws.{matches, find_key-update_where, count_where_keyed, key-find_key}
use ai_lab_os.Scheduler.Models.{Instant, Job}
use ai_lab_os.Scheduler.Rows.{JobRow, row_to_job}
use ai_lab_os.Scheduler.Store.Database.{
  Database, PersistenceError, persistence_failed, job_key, run_key, with_id, row_of,
}
use ai_lab_os.Scheduler.Store.Claims.{claim_guard, claimed_row, opened_run, open_run, claim_job}
use ai_lab_os.Scheduler.Store.Steps.{IsValid}

module _ (job_id : String) (now : Instant) (token : String) (expires : Instant) (run_id : String)
    (db : Database) where
  abbrev pub after_update : Database
  after_update = record db {
    jobs = update_where (with_id job_id (claim_guard now)) (claimed_row token expires now) db.jobs;
  }

  -- The database behind a successful claim of the row `r`.
  abbrev pub claimed_database : JobRow → Database
  claimed_database r = record {
    jobs = update_where (with_id job_id (claim_guard now)) (claimed_row token expires now) db.jobs;
    job_runs = db.job_runs ++ opened_run run_id token now (claimed_row token expires now r) ∷ [];
  }

  -- Whether the row may be claimed.
  abbrev pub claimable : Option JobRow → Bool
  claimable none = false
  claimable (some r) = claim_guard now r

  with_id_found :
      (g : JobRow → Bool) (r : JobRow) → row_of db job_id ≡ some r → with_id job_id g r ≡ g r
  with_id_found g r e = rw ((eq_iff r.id job_id).1 (key-find_key job_key job_id db.jobs r e))

  pub row_claimed :
      (r : JobRow)
      → row_of db job_id ≡ some r
      → claim_guard now r ≡ true
      → row_of after_update job_id ≡ some (claimed_row token expires now r)
  row_claimed r e free =
      find_key-update_where job_key (with_id job_id (claim_guard now))
        (claimed_row token expires now) job_id db.jobs (λ row. unfold claimed_row in refl)
      ∙ rw e (rw (with_id_found (claim_guard now) r e ∙ free))

  -- The three outcomes of `claim_job`.
  abbrev pub ClaimOutcome : Result PersistenceError (Option Job) × Database → Type 0
  ClaimOutcome outcome =
      ((claimable (row_of db job_id) ≡ false) × (outcome ≡ (ok none, db)))
      ⊎ (r : JobRow) × (row_of db job_id ≡ some r)
        × (claim_guard now r ≡ true)
        × (((is_some (find_key run_key run_id db.job_runs) ≡ true)
              × (outcome ≡ (err persistence_failed, db)))
            ⊎ ((find_key run_key run_id db.job_runs ≡ none)
                × (outcome ≡ (
                  ok (some (row_to_job (claimed_row token expires now r))),
                  claimed_database r,
                ))))

  claim_opens :
      (r : JobRow)
      → IsKeyed job_key db.jobs
      → row_of db job_id ≡ some r
      → claim_guard now r ≡ true
      → claim_job job_id now token expires run_id db
        ≡ open_run run_id token now (some (claimed_row token expires now r)) after_update db
  claim_opens r keyed e free =
      let one : count_where (with_id job_id (claim_guard now)) db.jobs ≡ 1 =
        count_where_keyed job_key (claim_guard now) job_id db.jobs keyed ∙ rw e (rw free) in
      let opens : claim_job job_id now token expires run_id db
          ≡ open_run run_id token now (row_of after_update job_id) after_update db =
        unfold claim_job in rw one in
      opens ∙ ap (λ row. open_run run_id token now row after_update db) (row_claimed r e free)

  claim_found :
      (r : JobRow)
      → IsKeyed job_key db.jobs
      → row_of db job_id ≡ some r
      → claim_guard now r ≡ true
      → ClaimOutcome (claim_job job_id now token expires run_id db)
  claim_found r keyed e free = inr (
    r,
    e,
    free,
    elim (Option-cases (find_key run_key run_id db.job_runs)) [
      | inr (run, taken) ↦
          inl (ap is_some taken, claim_opens r keyed e free ∙ (unfold open_run in rw taken))
      | inl unused ↦ inr (unused, claim_opens r keyed e free ∙ (unfold open_run in rw unused))
    ],
  )

  claim_refused :
      IsKeyed job_key db.jobs
      → claimable (row_of db job_id) ≡ false
      → claim_job job_id now token expires run_id db ≡ (ok none, db)
  claim_refused keyed refused =
      let zero_rows : count_where (with_id job_id (claim_guard now)) db.jobs ≡ 0 =
        count_where_keyed job_key (claim_guard now) job_id db.jobs keyed
        ∙ unmatched (row_of db job_id) refused in
      unfold claim_job in rw zero_rows
    where
      unmatched :
          (o : Option JobRow) → claimable o ≡ false → matches job_key (claim_guard now) o ≡ 0
      unmatched none u = refl
      unmatched (some row) u = rw u

  -- `claim_job` returns None and changes nothing unless the job is there, is active or retrying, is
  -- due, and is not under a claim that still runs. Else, if the run id is unused, the job is marked
  -- running under the new claim, a run is opened, and the job is returned; if the run id is taken,
  -- the transaction is rolled back with an error.
  pub claim_job_outcome : IsValid db → ClaimOutcome (claim_job job_id now token expires run_id db)
  claim_job_outcome v = by_row (row_of db job_id) refl
    where
      by_row :
          (o : Option JobRow)
          → row_of db job_id ≡ o
          → ClaimOutcome (claim_job job_id now token expires run_id db)
      by_row none e = inl (ap claimable e, claim_refused v.jobs_keyed (ap claimable e))
      by_row (some r) e = elim (Bool-cases (claim_guard now r)) [
        | inl free ↦ claim_found r v.jobs_keyed e free
        | inr busy ↦ inl (ap claimable e ∙ busy, claim_refused v.jobs_keyed (ap claimable e ∙ busy))
      ]
