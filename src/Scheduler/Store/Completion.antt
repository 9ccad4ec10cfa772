-- ===== src/Scheduler/Store/Completion.antt =====
-- A claim that has not expired can be finalized, and nobody else can claim the job before.
use mathlib.Core.Path.{subst}
use ai_lab_os.Prelude.{
  Result, ◌≤◌, ◌≡◌, refl, ap, ◌∙◌, sym, true, Option, none, some, List, [], ◌∷◌, String,
  str_eq_refl, arith, inl, inr, All, ok,
}
use ai_lab_os.Sql.{find_key}
use ai_lab_os.Sql.Laws.{find_key-insert, key-find_key}
use ai_lab_os.Scheduler.Models.{Instant, Job, JobRun}
use ai_lab_os.Scheduler.Rows.{row_to_job, JobRow, RunRow}
use ai_lab_os.Scheduler.Store.Database.{PersistenceError, Database, job_key, run_key, row_of}
use ai_lab_os.Scheduler.Store.Claims.{
  claim_guard, claimed_row, opened_run, claim_job, finalize_claim,
}
use ai_lab_os.Scheduler.Store.Steps.{Operation, claim, apply, apply_all, IsProper, IsValid}
use ai_lab_os.Scheduler.Store.Invariant.{apply-IsValid}
use ai_lab_os.Scheduler.Store.Claiming.{claimed_database, row_claimed, claim_job_outcome}
use ai_lab_os.Scheduler.Store.Ownership.{Owned, Spares, apply-Owned}
use ai_lab_os.Scheduler.Store.Opened.{HasRun, apply-HasRun, finalizes, refuses}

-- Whatever happens in between, as long as it spares the claim.
module _ (run_id token job_id : String) (deadline : Instant) where
  abbrev pub Kept : Database → Type 0
  Kept db =
      IsValid db × Owned token deadline (row_of db job_id) × HasRun run_id token job_id db.job_runs

  pub apply_all-Kept :
      (ops : List Operation) (db : Database)
      → All IsProper ops
      → All (Spares token deadline) ops
      → Kept db
      → Kept (apply_all ops db)
  unfolding apply_all
  apply_all-Kept [] db proper spare kept = kept
  apply_all-Kept (op ∷ ops) db proper spare (v, own, has) =
      apply_all-Kept ops (apply op db) proper.1 spare.1 (
        apply-IsValid op db proper.0 v,
        apply-Owned token deadline job_id db v own op spare.0,
        apply-HasRun run_id token job_id deadline db v own has op,
      )

module _ (job_id : String) (now : Instant) (token : String) (expires : Instant) (run_id : String)
    (db : Database) where
  claimed_database-HasRun :
      (r : JobRow)
      → row_of db job_id ≡ some r
      → find_key run_key run_id db.job_runs ≡ none
      → HasRun run_id token job_id (claimed_database job_id now token expires run_id db r).job_runs
  unfolding opened_run claimed_row
  claimed_database-HasRun r there unused =
      let run : RunRow = opened_run run_id token now (claimed_row token expires now r) in
      (
        run,
        find_key-insert run_key run_id db.job_runs run unused ∙ rw (str_eq_refl run_id),
        refl,
        key-find_key job_key job_id db.jobs r there,
      )

  claimed_database-Owned :
      (r : JobRow) (deadline : Instant)
      → row_of db job_id ≡ some r
      → claim_guard now r ≡ true
      → deadline ≤ expires
      → Owned token deadline (row_of (claimed_database job_id now token expires run_id db r) job_id)
  unfolding claimed_row
  claimed_database-Owned r deadline there free early = (
    claimed_row token expires now r,
    row_claimed job_id now token expires run_id db r there free,
    (refl, refl, (expires, refl, early)),
  )

  pub claimed-Kept :
      (job : Job) (claimed : Database) (deadline : Instant)
      → IsValid db
      → claim_job job_id now token expires run_id db ≡ (ok (some job), claimed)
      → deadline ≤ expires
      → Kept run_id token job_id deadline claimed
  unfolding apply
  claimed-Kept job claimed deadline v e early =
      elim (claim_job_outcome job_id now token expires run_id db v) [
        | inl (busy, refused) ↦ let clash = ap (λ p. p.0) (sym refused ∙ e) in absurd (ground arith)
        | inr (r, there, free, inl (taken, failed)) ↦
            let clash = ap (λ p. p.0) (sym failed ∙ e) in absurd (ground arith)
        | inr (r, there, free, inr (unused, done)) ↦
            let same : claimed_database job_id now token expires run_id db r ≡ claimed =
              ap (λ p. p.1) (sym done ∙ e) in
            (
              subst IsValid (ap (λ p. p.1) e)
                  (apply-IsValid (claim job_id now token expires run_id) db tt v),
              subst (λ d. Owned token deadline (row_of d job_id)) same
                  (claimed_database-Owned r deadline there free early),
              subst (λ d. HasRun run_id token job_id d.job_runs) same
                  (claimed_database-HasRun r there unused),
            )
      ]

  abbrev answered_id : Result PersistenceError (Option Job) → String
  answered_id (ok (some job)) = job.info.id
  answered_id _ = ""

  pub claimed_id :
      (job : Job) (claimed : Database)
      → IsValid db
      → claim_job job_id now token expires run_id db ≡ (ok (some job), claimed)
      → job.info.id ≡ job_id
  unfolding claimed_row row_to_job
  claimed_id job claimed v e = elim (claim_job_outcome job_id now token expires run_id db v) [
    | inl (busy, refused) ↦ let clash = ap (λ p. p.0) (sym refused ∙ e) in absurd (ground arith)
    | inr (r, there, free, inl (taken, failed)) ↦
        let clash = ap (λ p. p.0) (sym failed ∙ e) in absurd (ground arith)
    | inr (r, there, free, inr (unused, done)) ↦
        sym (ap (λ p. answered_id p.0) (sym done ∙ e)) ∙ key-find_key job_key job_id db.jobs r there
  ]

  -- Somebody whose claim of a job succeeded can report the result, whatever other processes do with
  -- the store in the meantime, as long as expired claims are released only before a deadline that
  -- the lease covers, nobody else uses the token to finalize, and no renewal with the token sets an
  -- earlier end; and up to then every other claim of the job is refused and changes nothing.
  pub owner_finalizes :
      (job : Job) (claimed : Database) (deadline : Instant) (ops : List Operation)
      → IsValid db
      → claim_job job_id now token expires run_id db ≡ (ok (some job), claimed)
      → deadline ≤ expires
      → All IsProper ops
      → All (Spares token deadline) ops
      → ((done : Job) (run : JobRun)
          → done.info.id ≡ job_id
          → run.id ≡ run_id
          → (finalize_claim done run token (apply_all ops claimed)).0 ≡ ok tt)
        × ((later : Instant) (tok : String) (until : Instant) (other : String)
            → claim_job job_id later tok until other (apply_all ops claimed)
              ≡ (ok none, apply_all ops claimed))
  owner_finalizes job claimed deadline ops v e early proper spare =
      let (valid, own, has) =
        apply_all-Kept run_id token job_id deadline ops claimed proper spare
          (claimed-Kept job claimed deadline v e early) in
      (
        finalizes run_id token job_id deadline (apply_all ops claimed) valid own has,
        refuses run_id token job_id deadline (apply_all ops claimed) valid own has,
      )
