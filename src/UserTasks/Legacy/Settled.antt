-- ===== src/UserTasks/Legacy/Settled.antt =====
-- An entry that has been tried once is settled: it is not valid, or its id or legacy id is taken.
use mathlib.Core.Path.{subst}
use ai_lab_os.Prelude.{
  Bool, false, ◌≡◌, ◌⊎◌, refl, sym, ◌∙◌, inl, inr, some, List, String, ok, err, Bool-cases, arith,
  eq_iff,
}
use ai_lab_os.UserTasks.Models.{UserTask, UserTaskError, accepts}
use ai_lab_os.UserTasks.Spaces.{WorkspaceKey, normalize_workspace_key}
use ai_lab_os.UserTasks.Table.{TaskRow, task_values}
use ai_lab_os.UserTasks.Spec.{Answer, Created, HasLegacy}
use ai_lab_os.UserTasks.Refines.{book}
use ai_lab_os.UserTasks.Service.{
  Service, ServiceError, failure, coordinator_failed, Outcome, service_error, fail, publish,
}
use ai_lab_os.UserTasks.Service.Answers.{publish-table}
use ai_lab_os.UserTasks.Service.Create.{NewTask, id_or, new_task, create_failed, after_insert}
use ai_lab_os.UserTasks.Legacy.{Judgement, broken, entry}
use ai_lab_os.UserTasks.Legacy.Import.{
  LegacyImportResult, Progress, is_conflict, count_created, count_failed,
}

module _ (is_zone : String → Bool) where
  -- The task that an entry is to become, but for its times.
  abbrev pub entry_task : WorkspaceKey → NewTask → UserTask
  unfolding new_task
  entry_task key args = new_task (normalize_workspace_key key) args 0 ""

  -- The entry is not valid, or its id or its legacy id is taken.
  abbrev pub IsSettled : Judgement → List TaskRow → Type 0
  IsSettled (entry key args) table =
      (accepts is_zone (entry_task key args) ≡ false)
      ⊎ ((row : TaskRow) × (book table (id_or "" args.task_id) ≡ some row))
      ⊎ HasLegacy args.legacy_source_id (id_or "" args.task_id) (book table)
  IsSettled _ table = Unit

-- Every task of the first table is in the second as it was.
abbrev pub IsKept : List TaskRow → List TaskRow → Type 0
IsKept old new = (k : String) (row : TaskRow) → book old k ≡ some row → book new k ≡ some row

pub IsSettled-IsKept :
    (is_zone : String → Bool) (judgement : Judgement) (old new : List TaskRow)
    → IsKept old new
    → IsSettled is_zone judgement old
    → IsSettled is_zone judgement new
IsSettled-IsKept is_zone Judgement.skipped old new kept settled = tt
IsSettled-IsKept is_zone broken old new kept settled = tt
IsSettled-IsKept is_zone (entry key args) old new kept (inl bad) = inl bad
IsSettled-IsKept is_zone (entry key args) old new kept (inr (inl (row, e))) =
    inr (inl (row, kept (id_or "" args.task_id) row e))
IsSettled-IsKept is_zone (entry key args) old new kept (inr (inr (k, row, e, other, same))) =
    inr (inr (k, row, kept k row e, other, same))

-- What an insertion does to the table.
pub Created-IsKept :
    (task : UserTask) (old new : List TaskRow) (answer : Answer)
    → Created task (book old) answer (book new)
    → IsKept old new
unfolding task_values
Created-IsKept task old new answer (inl (_, _, _, same)) k row e = same k ∙ e
Created-IsKept task old new answer (inr (inl (_, _, _, same))) k row e = same k ∙ e
Created-IsKept task old new answer (inr (inr (free, _, _, put))) k row e =
    ground (arith, put k, eq_iff task.id k, e, free)

pub count_created-table :
    (outcome : Outcome) (result : LegacyImportResult)
    → (count_created outcome result).1.table ≡ outcome.1.table
unfolding count_created count_failed
count_created-table (ok task, service) result = refl
count_created-table (err coordinator_failed, service) result = refl
count_created-table (err (failure f), service) result = elim (Bool-cases (is_conflict f.category)) [
  | inl e ↦ rw e refl
  | inr e ↦ rw e refl
]

-- Nothing is created: the table stays, and nothing is counted as imported.
abbrev pub IsIdle : Service → LegacyImportResult → Progress → Type 0
IsIdle service result progress =
    (progress.1.table ≡ service.table) × (progress.0.imported ≡ result.imported)

count_created-IsIdle :
    (exc : ServiceError) (service : Service) (result : LegacyImportResult)
    → IsIdle service result (count_created (err exc, service) result)
unfolding count_created count_failed
count_created-IsIdle coordinator_failed service result = (refl, refl)
count_created-IsIdle (failure f) service result = elim (Bool-cases (is_conflict f.category)) [
  | inl e ↦ rw e (refl, refl)
  | inr e ↦ rw e (refl, refl)
]

module _ (is_zone : String → Bool) (bus_is_running : Bool) (args : NewTask)
    (service : Service) where
  pub create_failed-IsIdle :
      (exc : UserTaskError) (result : LegacyImportResult)
      → IsIdle service result
          (count_created (create_failed is_zone bus_is_running exc args service) result)
  unfolding create_failed fail
  create_failed-IsIdle exc result =
      let told =
        publish bus_is_running "user_task.failed" (id_or "validation" args.task_id) args.trace_id
          "failed" service in
      let same =
        publish-table bus_is_running "user_task.failed" (id_or "validation" args.task_id)
          args.trace_id "failed" service in
      let (table, imported) =
        count_created-IsIdle (service_error exc "create" args.trace_id) told result in
      (table ∙ same, imported)

  pub after_insert-table :
      (outcome : Answer × List TaskRow)
      → (after_insert is_zone bus_is_running outcome args service).1.table ≡ outcome.1
  unfolding after_insert create_failed fail
  after_insert-table (ok task, table) =
      publish-table bus_is_running "user_task.created" task.id args.trace_id "ok"
        (record service { table = table })
  after_insert-table (err exc, table) =
      publish-table bus_is_running "user_task.failed" (id_or "validation" args.task_id)
        args.trace_id "failed" (record service { table = table })

  pub after_insert-IsIdle :
      (outcome : Answer × List TaskRow) (exc : UserTaskError) (result : LegacyImportResult)
      → outcome ≡ (err exc, service.table)
      → IsIdle service result
          (count_created (after_insert is_zone bus_is_running outcome args service) result)
  unfolding after_insert
  after_insert-IsIdle outcome exc result e =
      subst
        (λ o.
          IsIdle service result
            (count_created (after_insert is_zone bus_is_running o args service) result))
        (sym e) (create_failed-IsIdle exc result)
