-- ===== src/Scheduler/Store/LostUpdate.antt =====
-- The methods that take an expected revision never write over a change that their caller has not
-- seen.
use ai_lab_os.Prelude.{
  ℕ, ◌<◌, ◌≡◌, ap, ◌∙◌, Bool, false, Option, none, some, List, [], ◌∷◌, String, arith, Option-cases,
  inl, inr, ◌⊎◌, ◌==◌, All,
}
use ai_lab_os.Sql.{IsKeyed, count_where}
use ai_lab_os.Sql.Laws.{count_where_keyed, update_where_none, delete_where_none}
use ai_lab_os.Scheduler.Models.{Instant, JsonObject}
use ai_lab_os.Scheduler.Rows.{JobRow}
use ai_lab_os.Scheduler.Store.Database.{Database, job_key, with_id, row_of}
use ai_lab_os.Scheduler.Store.Jobs.{
  update_one, read_back, pause_job, resume_job, delete_at, delete_job, reschedule_job, pause_guard,
  paused_row, resume_guard, resumed_row, delete_guard, reschedule_guard, rescheduled_row,
}
use ai_lab_os.Scheduler.Store.Steps.{Operation, apply, apply_all, IsProper, IsValid}
use ai_lab_os.Scheduler.Store.Invariant.{apply-IsValid, apply_all-IsValid}
use ai_lab_os.Scheduler.Store.Revisions.{Evolved, apply-Evolved}
use ai_lab_os.Scheduler.Store.Absent.{IsNotSaving, apply_absent}

-- What may have become of the row `r` in any time: it is gone, it is as it was, or its revision is
-- past that of `r`.
abbrev Later : JobRow → Option JobRow → Type 0
Later r new =
    (new ≡ none) ⊎ (new ≡ some r) ⊎ ((r' : JobRow) × (new ≡ some r') × (r.revision < r'.revision))

Evolved-Later :
    (r r' : JobRow) (new : Option JobRow)
    → r.revision < r'.revision
    → Evolved r' new
    → (new ≡ none) ⊎ ((r'' : JobRow) × (new ≡ some r'') × (r.revision < r''.revision))
Evolved-Later r r' new lt (inl gone) = inl gone
Evolved-Later r r' new lt (inr (inl same)) = inr (r', same, lt)
Evolved-Later r r' new lt (inr (inr (r'', e, next))) = inr (r'', e, omega arith)

module _ (job_id : String) (r : JobRow) where
  apply-Later :
      (op : Operation) (db : Database)
      → IsValid db
      → IsNotSaving job_id op
      → Later r (row_of db job_id)
      → Later r (row_of (apply op db) job_id)
  apply-Later op db h other (inl gone) = inl (apply_absent job_id db h.jobs_keyed gone op other)
  apply-Later op db h other (inr (inl same)) =
      elim (apply-Evolved job_id r db h.jobs_keyed same op) [
        | inl gone ↦ inl gone
        | inr (inl kept) ↦ inr (inl kept)
        | inr (inr (r', e, next)) ↦ inr (inr (r', e, omega arith))
      ]
  apply-Later op db h other (inr (inr (r', e, lt))) =
      elim (Evolved-Later r r' _ lt (apply-Evolved job_id r' db h.jobs_keyed e op)) [
        | inl gone ↦ inl gone
        | inr later ↦ inr (inr later)
      ]

  apply_all-Later :
      (ops : List Operation) (db : Database)
      → IsValid db
      → All IsProper ops
      → All (IsNotSaving job_id) ops
      → Later r (row_of db job_id)
      → Later r (row_of (apply_all ops db) job_id)
  unfolding apply_all
  apply_all-Later [] db h proper other l = l
  apply_all-Later (op ∷ ops) db h proper other l =
      apply_all-Later ops (apply op db) (apply-IsValid op db proper.0 h) proper.1 other.1
        (apply-Later op db h other.0 l)

module _ (job_id : String) (db : Database) (keyed : IsKeyed job_key db.jobs) where
  count_missed :
      (guard : JobRow → Bool)
      → ((r : JobRow) → row_of db job_id ≡ some r → guard r ≡ false)
      → count_where (with_id job_id guard) db.jobs ≡ 0
  count_missed guard miss = elim (Option-cases (row_of db job_id)) [
    | inl e ↦ count_where_keyed job_key guard job_id db.jobs keyed ∙ rw e
    | inr (r, e) ↦ count_where_keyed job_key guard job_id db.jobs keyed ∙ rw (e, miss r e)
  ]

  -- An UPDATE whose guard fails on the row reports nothing and changes nothing.
  pub update_one_missed :
      (guard : JobRow → Bool) (change : JobRow → JobRow)
      → ((r : JobRow) → row_of db job_id ≡ some r → guard r ≡ false)
      → update_one job_id guard change db ≡ (false, db)
  unfolding update_one
  update_one_missed guard change miss =
      let zero_rows : count_where (with_id job_id guard) db.jobs ≡ 0 = count_missed guard miss in
      rw (zero_rows, update_where_none (with_id job_id guard) change db.jobs zero_rows)

  delete_at_missed :
      (revision : ℕ)
      → ((r : JobRow) → row_of db job_id ≡ some r → delete_guard revision r ≡ false)
      → delete_at job_id revision db ≡ (false, db)
  unfolding delete_at
  delete_at_missed revision miss =
      let zero_rows : count_where (with_id job_id (delete_guard revision)) db.jobs ≡ 0 =
        count_missed (delete_guard revision) miss in
      rw (zero_rows, delete_where_none (with_id job_id (delete_guard revision)) db.jobs zero_rows)

-- The methods that expect `revision` have no effect: they report so, and the database stays.
abbrev pub Refused : String → ℕ → Database → Type 0
Refused job_id revision db =
    ((now : Instant) → pause_job job_id revision now db ≡ (none, db))
    × ((next : Option Instant) (now : Instant)
        → resume_job job_id revision next now db ≡ (none, db))
    × (delete_job job_id (some revision) db ≡ (false, db))
    × ((run_at : Instant) (zone : String) (payload : JsonObject) (now : Instant)
        → reschedule_job job_id revision run_at zone payload now db ≡ (false, db))

refused :
    (job_id : String) (revision : ℕ) (db : Database)
    → IsKeyed job_key db.jobs
    → ((r : JobRow) → row_of db job_id ≡ some r → (r.revision == revision) ≡ false)
    → Refused job_id revision db
unfolding pause_job resume_job delete_job reschedule_job
refused job_id revision db keyed stale = (
  λ now.
      ap (λ (p : Bool × Database). read_back p job_id)
        (update_one_missed job_id db keyed (pause_guard revision) (paused_row now)
          (λ r e. rw (stale r e))),
  λ next now.
      ap (λ (p : Bool × Database). read_back p job_id)
        (update_one_missed job_id db keyed (resume_guard revision) (resumed_row next now)
          (λ r e. rw (stale r e))),
  delete_at_missed job_id db keyed revision (λ r e. rw (stale r e)),
  λ run_at zone payload now.
      update_one_missed job_id db keyed (reschedule_guard revision)
        (rescheduled_row run_at zone payload now) (λ r e. rw (stale r e)),
)

-- A caller that read the row `r` before others did any proper operations (no second save of that
-- id among them) either still finds `r`, or is refused by pause, resume, delete and reschedule at
-- the revision of `r`, and the database is left as it is.
pub no_lost_update :
    (ops : List Operation) (db : Database) (job_id : String) (r : JobRow)
    → IsValid db
    → All IsProper ops
    → All (IsNotSaving job_id) ops
    → row_of db job_id ≡ some r
    → (row_of (apply_all ops db) job_id ≡ some r) ⊎ Refused job_id r.revision (apply_all ops db)
no_lost_update ops db job_id r h proper other e =
    let keyed = (apply_all-IsValid ops db proper h).jobs_keyed in
    elim (apply_all-Later job_id r ops db h proper other (inr (inl e))) [
      | inl gone ↦ inr (refused job_id r.revision _ keyed (λ r' e'. ground arith))
      | inr (inl same) ↦ inl same
      | inr (inr (r', later, lt)) ↦ inr (refused job_id r.revision _ keyed (λ r'' e'. ground arith))
    ]
