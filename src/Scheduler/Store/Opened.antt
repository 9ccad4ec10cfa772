-- ===== src/Scheduler/Store/Opened.antt =====
-- The run that a claim has opened stays in the table, and what the owner of the claim can do then.
use ai_lab_os.Prelude.{
  ℕ, ◌≡◌, refl, ap, ◌∙◌, Bool, true, false, Option, none, some, List, String, str_eq, str_eq_refl,
  eq_iff, arith, Bool-cases, Option-cases, inl, inr, ◌==◌, ok,
}
use ai_lab_os.Sql.{IsKeyed, find_key, update_where, count_where, delete_where}
use ai_lab_os.Sql.Laws.{
  find_key-update_where, find_key-delete_where, find_key_kept, count_where_keyed, key-find_key,
}
use ai_lab_os.Scheduler.Models.{Instant, Job, JobRun}
use ai_lab_os.Scheduler.Rows.{job_values, JobRow, RunRow}
use ai_lab_os.Scheduler.Store.Database.{Database, job_key, run_key, with_id, row_of}
use ai_lab_os.Scheduler.Store.Jobs.{
  save_job, read_back, pause_job, resume_job, delete_at, delete_job, delete_guard, cancel_job,
  reschedule_job,
}
use ai_lab_os.Scheduler.Store.Claims.{
  finalized_row, claim_guard, open_run, opened_run, claim_job, finalize_claim, finalize_guard,
  run_guard, closed_run, renew_claim, is_abandoned, abandoned_run, release_expired_claims,
}
use ai_lab_os.Scheduler.Store.Steps.{
  Operation, save, pause, resume, delete, cancel, reschedule, claim, finalize, renew, release,
  apply, IsValid,
}
use ai_lab_os.Scheduler.Store.Claiming.{claim_job_outcome}
use ai_lab_os.Scheduler.Store.Ownership.{Owned}

-- The run that the claim opened is in the table.
abbrev pub HasRun : String → String → String → List RunRow → Type 0
HasRun run_id token job_id runs =
    (run : RunRow) × (find_key run_key run_id runs ≡ some run)
    × (run.claim_token ≡ token)
    × (run.job_id ≡ job_id)

module _ (run_id token job_id : String) where
  pub update-HasRun :
      (runs : List RunRow) (p : RunRow → Bool) (f : RunRow → RunRow)
      → ((run : RunRow) → (f run).run_id ≡ run.run_id)
      → ((run : RunRow) → (f run).claim_token ≡ run.claim_token)
      → ((run : RunRow) → (f run).job_id ≡ run.job_id)
      → HasRun run_id token job_id runs
      → HasRun run_id token job_id (update_where p f runs)
  update-HasRun runs p f same same_token same_job (run, e, t, j) =
      rw (find_key-update_where run_key p f run_id runs same, e)
        (elim (Bool-cases (p run)) [
          | inl hit ↦ rw hit (f run, refl, same_token run ∙ t, same_job run ∙ j)
          | inr miss ↦ rw miss (run, refl, t, j)
        ])

  delete-HasRun :
      (runs : List RunRow) (p : RunRow → Bool)
      → IsKeyed run_key runs
      → ((run : RunRow) → run.job_id ≡ job_id → p run ≡ false)
      → HasRun run_id token job_id runs
      → HasRun run_id token job_id (delete_where p runs)
  delete-HasRun runs p keyed miss (run, e, t, j) =
      rw (find_key-delete_where run_key p run_id runs keyed, e, miss run j) (run, refl, t, j)

  module _ (deadline : Instant) (db : Database) (v : IsValid db)
      (own : Owned token deadline (row_of db job_id))
      (has : HasRun run_id token job_id db.job_runs) where
    no_delete :
        (id : String) (revision : ℕ)
        → id ≡ job_id
        → count_where (with_id id (delete_guard revision)) db.jobs ≡ 0
    unfolding delete_guard
    no_delete id revision same =
        let (row, e, owned) = own in
        let found : row_of db id ≡ some row = ap (row_of db) same ∙ e in
        let refused : delete_guard revision row ≡ false = ground arith in
        count_where_keyed job_key (delete_guard revision) id db.jobs v.jobs_keyed
        ∙ rw found (rw refused)

    delete_at-HasRun :
        (id : String) (revision : ℕ)
        → HasRun run_id token job_id (delete_at id revision db).1.job_runs
    unfolding delete_at
    delete_at-HasRun id revision =
        elim (Bool-cases (count_where (with_id id (delete_guard revision)) db.jobs == 1)) [
          | inr kept ↦ rw kept has
          | inl deleted ↦ rw deleted (
              delete-HasRun db.job_runs (λ run. str_eq run.job_id id) v.runs_keyed
                (λ run mine. ground (arith, eq_iff run.job_id id, no_delete id revision)) has)
        ]

    delete_job-HasRun :
        (id : String) (revision : Option ℕ)
        → HasRun run_id token job_id (delete_job id revision db).1.job_runs
    unfolding delete_job
    delete_job-HasRun id (some revision) = delete_at-HasRun id revision
    delete_job-HasRun id none = elim (Option-cases (row_of db id)) [
      | inl absent ↦ rw absent has
      | inr (row, there) ↦ rw there (delete_at-HasRun id row.revision)
    ]

    save-HasRun : (job : Job) → HasRun run_id token job_id (save_job job db).1.job_runs
    unfolding save_job
    save-HasRun job = elim (Option-cases (row_of db job.info.id)) [
      | inr (taken, there) ↦ rw there has
      | inl free ↦ rw free has
    ]

    read_back-HasRun :
        (changed : Bool) (new : Database) (id : String)
        → HasRun run_id token job_id new.job_runs
        → HasRun run_id token job_id (read_back (changed, new) id).1.job_runs
    unfolding read_back
    read_back-HasRun true new id h = h
    read_back-HasRun false new id h = h

    open_run-HasRun :
        (id tok : String) (now : Instant) (row : Option JobRow) (new : Database)
        → HasRun run_id token job_id new.job_runs
        → HasRun run_id token job_id (open_run id tok now row new db).1.job_runs
    unfolding open_run
    open_run-HasRun id tok now none new h = has
    open_run-HasRun id tok now (some row) new (run, e, t, j) =
        elim (Option-cases (find_key run_key id new.job_runs)) [
          | inr (other, taken) ↦ rw taken has
          | inl free ↦ rw free (
            run,
            find_key_kept run_key run_id new.job_runs (opened_run id tok now row) run e,
            t,
            j,
          )
        ]

    claim-HasRun :
        (id : String) (now : Instant) (tok : String) (expires : Instant) (other : String)
        → HasRun run_id token job_id (claim_job id now tok expires other db).1.job_runs
    unfolding claim_job
    claim-HasRun id now tok expires other =
        elim (Bool-cases (count_where (with_id id (claim_guard now)) db.jobs == 1)) [
          | inr refused ↦ rw refused has
          | inl hit ↦ rw hit (open_run-HasRun other tok now _ _ has)
        ]

    finalize-HasRun :
        (job : Job) (run : JobRun) (tok : String)
        → HasRun run_id token job_id (finalize_claim job run tok db).1.job_runs
    unfolding finalize_claim
    finalize-HasRun job run tok =
        elim (Bool-cases (count_where (with_id job.info.id (finalize_guard tok)) db.jobs == 1)) [
          | inr lost ↦ rw lost has
          | inl owned ↦ elim (Bool-cases (count_where (run_guard run.id tok) db.job_runs == 1)) [
            | inr lost ↦ rw (owned, lost) has
            | inl kept ↦
                rw (owned, kept)
                  (update-HasRun db.job_runs (run_guard run.id tok) (closed_run run) (λ r. refl)
                    (λ r. refl) (λ r. refl) has)
          ]
        ]

    pub apply-HasRun : (op : Operation) → HasRun run_id token job_id (apply op db).job_runs
    unfolding apply
    apply-HasRun (save job) = save-HasRun job
    apply-HasRun (pause id revision now) = unfold pause_job in read_back-HasRun _ _ id has
    apply-HasRun (resume id revision next now) = unfold resume_job in read_back-HasRun _ _ id has
    apply-HasRun (delete id revision) = delete_job-HasRun id revision
    apply-HasRun (cancel id now) = unfold cancel_job in has
    apply-HasRun (reschedule id revision run_at zone payload now) = unfold reschedule_job in has
    apply-HasRun (claim id now tok expires other) = claim-HasRun id now tok expires other
    apply-HasRun (finalize job run tok) = finalize-HasRun job run tok
    apply-HasRun (renew id tok expires now) = unfold renew_claim in has
    apply-HasRun (release now delay) =
        unfold release_expired_claims in
        update-HasRun db.job_runs (is_abandoned now db.jobs) (abandoned_run now)
          (λ r. unfold abandoned_run in refl) (λ r. unfold abandoned_run in refl)
          (λ r. unfold abandoned_run in refl) has

    owned_count :
        (id : String) → id ≡ job_id → count_where (with_id id (finalize_guard token)) db.jobs ≡ 1
    owned_count id same =
        let (row, e, owned) = own in
        let found : row_of db id ≡ some row = ap (row_of db) same ∙ e in
        let mine : finalize_guard token row ≡ true = ground (arith, str_eq_refl token) in
        count_where_keyed job_key (finalize_guard token) id db.jobs v.jobs_keyed
        ∙ rw found (rw mine)

    run_count : (id : String) → id ≡ run_id → count_where (run_guard id token) db.job_runs ≡ 1
    unfolding run_guard
    run_count id same =
        let (run, e, t, j) = has in
        let found : find_key run_key id db.job_runs ≡ some run =
          ap (λ k. find_key run_key k db.job_runs) same ∙ e in
        let mine : str_eq run.claim_token token ≡ true = (eq_iff run.claim_token token).1 t in
        count_where_keyed run_key (λ r. str_eq r.claim_token token) id db.job_runs v.runs_keyed
        ∙ rw found (rw mine)

    -- The database behind the finalization.
    abbrev pub finalized_database : Job → JobRun → Database
    finalized_database job run = record {
      jobs =
          update_where (with_id job.info.id (finalize_guard token)) (finalized_row (job_values job))
            db.jobs;
      job_runs = update_where (run_guard run.id token) (closed_run run) db.job_runs;
    }

    pub finalized :
        (job : Job) (run : JobRun)
        → job.info.id ≡ job_id
        → run.id ≡ run_id
        → finalize_claim job run token db ≡ (ok tt, finalized_database job run)
    unfolding finalize_claim
    finalized job run same same_run = rw (owned_count job.info.id same, run_count run.id same_run)

    -- The row that the owner has written.
    pub row_finalized :
        (job : Job) (run : JobRun)
        → job.info.id ≡ job_id
        → (row : JobRow) × (row.id ≡ job_id)
          × (row_of (finalized_database job run) job_id ≡ some (finalized_row (job_values job) row))
    unfolding finalized_row
    row_finalized job run same =
        let (row, e, owned) = own in
        let id_same : row.id ≡ job_id = key-find_key job_key job_id db.jobs row e in
        let mine : with_id job.info.id (finalize_guard token) row ≡ true =
          ground (arith, str_eq_refl token, eq_iff row.id job.info.id) in
        (
          row,
          id_same,
          find_key-update_where job_key (with_id job.info.id (finalize_guard token))
                (finalized_row (job_values job)) job_id db.jobs (λ r. refl)
              ∙ rw e (rw mine),
        )

    pub finalizes :
        (job : Job) (run : JobRun)
        → job.info.id ≡ job_id
        → run.id ≡ run_id
        → (finalize_claim job run token db).0 ≡ ok tt
    finalizes job run same same_run = ap (λ p. p.0) (finalized job run same same_run)

    pub refuses :
        (now : Instant) (tok : String) (expires : Instant) (other : String)
        → claim_job job_id now tok expires other db ≡ (ok none, db)
    unfolding claim_guard
    refuses now tok expires other =
        let (row, e, owned) = own in
        let busy : claim_guard now row ≡ false = ground arith in
        elim (claim_job_outcome job_id now tok expires other db v) [
          | inl (free, refused) ↦ refused
          | inr (found, there, free, rest) ↦ absurd (ground arith)
        ]
