-- ===== src/Scheduler/Store/Written.antt =====
-- What `claim_job` does to the tables: which rows it takes, and what it writes.
use mathlib.Core.Path.{subst}
use mathlib.Core.Option
use mathlib.Core.Option.{some_inj}
use ai_lab_os.Prelude.{
  ◌+◌, ◌≤◌, ◌<◌, ◌≡◌, refl, sym, ap, ◌∙◌, ◌↔◌, Bool, true, false, ◌&&◌, ◌||◌, Bool-cases, Option,
  none, some, ◌⊎◌, inl, inr, [], ◌∷◌, ◌++◌, String, str_eq, eq_iff, is_none, arith, if◌then◌else◌,
  is_some,
}
use ai_lab_os.Sql.{find_key}
use ai_lab_os.Sql.Laws.{updated, find_key-update_where, key-find_key}
use ai_lab_os.Scheduler.Models.{Instant, JobStatus, JobRunStatus, is_dispatchable}
use ai_lab_os.Scheduler.Rows.{JobRow, RunRow}
use ai_lab_os.Scheduler.Store.Database.{Database, job_key, run_key, with_id, row_of}
use ai_lab_os.Scheduler.Store.Claims.{
  reached, before, claim_guard, claimed_row, opened_run, claim_job,
}
use ai_lab_os.Scheduler.Store.Claiming.{claimable, claim_job_outcome, claimed_database}
use ai_lab_os.Scheduler.Store.Steps.{IsValid}

-- A job that may be claimed: active or retrying, due, and not under a claim that still runs.
pub record IsClaimable (now : Instant) (row : JobRow) : Type 0 where
  pub waits : (row.status ≡ JobStatus.active) ⊎ (row.status ≡ JobStatus.retrying)
  pub due : (t : Instant) × (row.next_run_at ≡ some t) × (t ≤ now)
  pub free :
      (row.claim_token ≡ none) ⊎ ((t : Instant) × (row.claim_expires_at ≡ some t) × (t < now))

waits_iff :
    (status : JobStatus)
    → (is_dispatchable status ≡ true)
      ↔ ((status ≡ JobStatus.active) ⊎ (status ≡ JobStatus.retrying))
waits_iff JobStatus.active = ((λ e. inl refl), (λ e. refl))
waits_iff JobStatus.retrying = ((λ e. inr refl), (λ e. refl))
waits_iff status = ((λ e. ground arith), (λ e. ground arith))

due_iff :
    (next : Option Instant) (now : Instant)
    → (reached next now ≡ true) ↔ ((t : Instant) × (next ≡ some t) × (t ≤ now))
due_iff none now = ((λ e. cc), (λ (t, e, l). cc))
due_iff (some u) now =
    ((λ e. (u, refl, ground arith)), (λ (t, e, l). let same = some_inj.0 e in ground arith))

expired_iff :
    (expires : Option Instant) (now : Instant)
    → (before expires now ≡ true) ↔ ((t : Instant) × (expires ≡ some t) × (t < now))
expired_iff none now = ((λ e. cc), (λ (t, e, l). cc))
expired_iff (some u) now =
    ((λ e. (u, refl, ground arith)), (λ (t, e, l). let same = some_inj.0 e in ground arith))

unclaimed_iff : (token : Option String) → (is_none token ≡ true) ↔ (token ≡ none)
unclaimed_iff none = ((λ e. refl), (λ e. refl))
unclaimed_iff (some t) = ((λ e. cc), (λ e. cc))

or_iff : (a b : Bool) → ((a || b) ≡ true) ↔ ((a ≡ true) ⊎ (b ≡ true))
or_iff true b = ((λ e. inl refl), (λ e. refl))
or_iff false true = ((λ e. inr refl), (λ e. refl))
or_iff false false = ((λ e. inl e), (λ e. ground arith))

and_iff : (a b c : Bool) → ((a && b && c) ≡ true) ↔ ((a ≡ true) × (b ≡ true) × (c ≡ true))
and_iff a b c =
    ((λ e. (ground arith, ground arith, ground arith)), (λ (p, q, r). rw (p, q, r) refl))

⊎-map : {A B C D : Type 0} → (A → C) → (B → D) → A ⊎ B → C ⊎ D
⊎-map f g (inl a) = inl (f a)
⊎-map f g (inr b) = inr (g b)

claim_guard-IsClaimable :
    (now : Instant) (row : JobRow) → (claim_guard now row ≡ true) ↔ IsClaimable now row
unfolding claim_guard
claim_guard-IsClaimable now row =
    let all =
      and_iff (is_dispatchable row.status) (reached row.next_run_at now)
        (is_none row.claim_token || before row.claim_expires_at now) in
    let waits = waits_iff row.status in
    let due = due_iff row.next_run_at now in
    let either = or_iff (is_none row.claim_token) (before row.claim_expires_at now) in
    let unclaimed = unclaimed_iff row.claim_token in
    let expired = expired_iff row.claim_expires_at now in
    (
      λ e.
          let (w, d, f) = all.0 e in
          record {
            waits = waits.0 w;
            due = due.0 d;
            free = ⊎-map unclaimed.0 expired.0 (either.0 f);
          },
      λ c. all.1 (waits.1 c.waits, due.1 c.due, either.1 (⊎-map unclaimed.1 expired.1 c.free)),
    )

module _ (job_id : String) (now : Instant) (token : String) (expires : Instant) (run_id : String)
    (db : Database) where
  -- The row under the claim.
  abbrev pub taken : JobRow → JobRow
  taken row = record row {
    status = JobStatus.running;
    claim_token = some token;
    claim_expires_at = some expires;
    updated_at = now;
    revision = row.revision + 1;
  }

  -- The run of the claim.
  abbrev pub started : JobRow → RunRow
  started row = record {
    run_id = run_id;
    job_id = job_id;
    attempt = row.run_count + 1;
    started_at = now;
    finished_at = none;
    status = JobRunStatus.running;
    claim_token = token;
    failure = none;
    trace_id = if str_eq row.trace_id "" then run_id else row.trace_id;
  }

  -- The tables behind the claim of a row: that row is taken, the others are as they were, and the run is
  -- opened behind the others.
  abbrev pub Taken : JobRow → Database → Type 0
  Taken row after =
      ((k : String) → row_of after k ≡ (if str_eq job_id k then some (taken row) else row_of db k))
      × (after.job_runs ≡ db.job_runs ++ started row ∷ [])

  -- What a call does to the tables.
  abbrev pub Written : Database → Type 0
  Written after =
      (claimable : JobRow → Bool) × ((row : JobRow) → (claimable row ≡ true) ↔ IsClaimable now row)
      × (((row_of db job_id ≡ none) × (after ≡ db))
          ⊎ (row : JobRow) × (row_of db job_id ≡ some row)
            × (((claimable row ≡ false) × (after ≡ db))
                ⊎ ((claimable row ≡ true)
                    × (((is_some (find_key run_key run_id db.job_runs) ≡ true) × (after ≡ db))
                        ⊎ ((find_key run_key run_id db.job_runs ≡ none) × Taken row after)))))

  row_taken :
      (row : JobRow) (o : Option JobRow) (k : String)
      → row_of db job_id ≡ some row
      → claim_guard now row ≡ true
      → row_of db k ≡ o
      → Option.map (updated (with_id job_id (claim_guard now)) (claimed_row token expires now)) o
        ≡ (if str_eq job_id k then some (taken row) else o)
  unfolding claimed_row
  row_taken row none k found free e = elim (Bool-cases (str_eq job_id k)) [
    | inr other ↦ rw other refl
    | inl hit ↦
        let missing : none ≡ some row =
          sym e ∙ ap (row_of db) (sym ((eq_iff job_id k).0 hit)) ∙ found in
        cc
  ]
  row_taken row (some r) k found free e =
      let key = key-find_key job_key k db.jobs r e in
      elim (Bool-cases (str_eq job_id k)) [
        | inl hit ↦
            let same : r ≡ row =
              some_inj.0 (sym e ∙ ap (row_of db) (sym ((eq_iff job_id k).0 hit)) ∙ found) in
            ground (arith, eq_iff r.id k, eq_iff job_id k, eq_iff r.id job_id)
        | inr other ↦ ground (arith, eq_iff r.id k, eq_iff job_id k, eq_iff r.id job_id)
      ]

  claimed-Taken :
      (row : JobRow)
      → row_of db job_id ≡ some row
      → claim_guard now row ≡ true
      → Taken row (claimed_database job_id now token expires run_id db row)
  unfolding opened_run claimed_row
  claimed-Taken row found free = (
    λ k.
        find_key-update_where job_key (with_id job_id (claim_guard now))
          (claimed_row token expires now) k db.jobs (λ r. refl)
        ∙ row_taken row (row_of db k) k found free refl,
    ap (λ id. db.job_runs ++ record (started row) { job_id = id } ∷ [])
        (key-find_key job_key job_id db.jobs row found),
  )

  unclaimed_cases :
      {after : Database} (o : Option JobRow)
      → row_of db job_id ≡ o
      → claimable job_id now token expires run_id db o ≡ false
      → after ≡ db
      → ((row_of db job_id ≡ none) × (after ≡ db))
        ⊎ (row : JobRow) × (row_of db job_id ≡ some row)
          × (((claim_guard now row ≡ false) × (after ≡ db))
              ⊎ ((claim_guard now row ≡ true)
                  × (((is_some (find_key run_key run_id db.job_runs) ≡ true) × (after ≡ db))
                      ⊎ ((find_key run_key run_id db.job_runs ≡ none) × Taken row after))))
  unclaimed_cases none missing refused same = inl (missing, same)
  unclaimed_cases (some row) found refused same = inr (row, found, inl (refused, same))

  -- What `claim_job` does to a valid database. A job may be claimed exactly if it is active or retrying, is
  -- due, and has no claim or one whose lease is over. If the job is missing or may not be claimed, or if it
  -- may be and the run id is taken, nothing changes. Else the job is running, under the new token and
  -- lease, with the next revision, every other job is as it was, and one run is opened, whose attempt is
  -- one more than the runs that the job has counted, and whose trace is the job's, or its own id.
  pub claim_job_writes : IsValid db → Written (claim_job job_id now token expires run_id db).1
  claim_job_writes v = (
    claim_guard now,
    claim_guard-IsClaimable now,
    elim (claim_job_outcome job_id now token expires run_id db v) [
      | inl (refused, e) ↦ unclaimed_cases (row_of db job_id) refl refused (ap (λ o. o.1) e)
      | inr (row, found, free, inl (used, e)) ↦
          inr (row, found, inr (free, inl (used, ap (λ o. o.1) e)))
      | inr (row, found, free, inr (unused, e)) ↦ inr (
        row,
        found,
        inr (
          free,
          inr (unused, subst (Taken row) (sym (ap (λ o. o.1) e)) (claimed-Taken row found free)),
        ),
      )
    ],
  )
