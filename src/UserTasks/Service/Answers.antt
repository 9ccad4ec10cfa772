-- ===== src/UserTasks/Service/Answers.antt =====
-- What follows of a method of the service that answers with a task.
use mathlib.Core.Path.{subst}
use ai_lab_os.Prelude.{
  ℕ, ◌+◌, Bool, true, false, ◌≡◌, refl, sym, ap, inl, inr, Option, none, some, List, String, ok,
  Bool-cases, Option-cases, Result-cases, arith,
}
use ai_lab_os.Json.{Json, object}
use ai_lab_os.Sql.{IsKeyed}
use ai_lab_os.UserTasks.Models.{UserTask, accepts, model_validate}
use ai_lab_os.UserTasks.Spaces.{WorkspaceKey, normalize_workspace_key}
use ai_lab_os.UserTasks.Table as Repository
use ai_lab_os.UserTasks.Table.{
  TaskRow, row_key, task_values, is_in, get_task, row_task, read, task_with, loaded,
  has_malformed_metadata,
}
use ai_lab_os.UserTasks.Spec.{Book, Answer, IsPut, Updated}
use ai_lab_os.UserTasks.Refines.{book}
use ai_lab_os.UserTasks.Refines.Updates.{update-Updated}
use ai_lab_os.UserTasks.Service.{Service, Outcome, publish, answered, get, fail}
use ai_lab_os.UserTasks.Service.Transition.{Coordinator, coordinate_terminal}

pub publish-table :
    (bus_is_running : Bool) (event id trace_id status : String) (service : Service)
    → (publish bus_is_running event id trace_id status service).table ≡ service.table
unfolding publish
publish-table true event id trace_id status service = refl
publish-table false event id trace_id status service = refl

pub coordinate_ok :
    (coordinator : Coordinator) (task result : UserTask) (trace_id : String)
    (service after : Service)
    → coordinate_terminal coordinator task trace_id service ≡ (ok result, after)
    → (task ≡ result) × (after.table ≡ service.table)
unfolding coordinate_terminal
coordinate_ok none task result trace_id service after e =
    (cc, ap (λ (o : Outcome). o.1.table) (sym e))
coordinate_ok (some returns) task result trace_id service after e =
    elim (Bool-cases (returns task trace_id)) [
      | inl yes_case ↦ ground arith
      | inr no_case ↦ ground arith
    ]

-- The fields of a row that a reader gets as they are.
abbrev pub IsVersion : UserTask → TaskRow → Type 0
IsVersion task row =
    (task.id ≡ row.id) × (task.revision ≡ row.revision) × (task.status ≡ row.status)

module _ (is_zone : String → Bool) where
  validated-IsVersion :
      (task result : UserTask)
      → model_validate is_zone task ≡ ok result
      → (result.id ≡ task.id) × (result.revision ≡ task.revision) × (result.status ≡ task.status)
  unfolding model_validate
  validated-IsVersion task result e = elim (Bool-cases (accepts is_zone task)) [
    | inl yes_case ↦ ground arith
    | inr no_case ↦ ground arith
  ]

  loaded-IsVersion :
      (row : TaskRow) (task : UserTask) (metadata : Option Json)
      → row.metadata ≡ metadata
      → row_task is_zone row ≡ ok task
      → IsVersion task row
  unfolding row_task task_with loaded
  loaded-IsVersion row task none shape e = ground arith
  loaded-IsVersion row task (some (object fields)) shape e =
      elim (Result-cases (model_validate is_zone (task_with fields row))) [
        | inl (result, valid) ↦
            let version = validated-IsVersion (task_with fields row) result valid in ground arith
        | inr (exc, refused) ↦ ground arith
      ]
  loaded-IsVersion row task (some _) shape e = ground arith

  -- A read that answers with a task has found its row, in the workspace of the reader.
  pub get_task_ok :
      (key : WorkspaceKey) (id : String) (table : List TaskRow) (task : UserTask)
      → get_task is_zone key id table ≡ ok task
      → (row : TaskRow) × (book table id ≡ some row) × (is_in key row ≡ true) × IsVersion task row
  unfolding get_task read
  get_task_ok key id table task e = elim (Bool-cases (has_malformed_metadata key id table)) [
    | inl bad ↦ ground arith
    | inr good ↦ elim (Option-cases (book table id)) [
      | inl absent ↦ ground arith
      | inr (row, found) ↦ elim (Bool-cases (is_in key row)) [
        | inr other ↦ ground arith
        | inl mine ↦ (row, found, mine, loaded-IsVersion row task row.metadata refl (ground arith))
      ]
    ]
  ]

  pub get_ok :
      (bus_is_running : Bool) (key : WorkspaceKey) (id trace_id : String) (service after : Service)
      (task : UserTask)
      → get is_zone bus_is_running key id trace_id service ≡ (ok task, after)
      → (get_task is_zone (normalize_workspace_key key) id service.table ≡ ok task)
        × (after ≡ service)
  unfolding get answered fail
  get_ok bus_is_running key id trace_id service after task e =
      elim (Result-cases (get_task is_zone (normalize_workspace_key key) id service.table)) [
        | inl (found, there) ↦ ground arith
        | inr (exc, refused) ↦ ground arith
      ]

-- An update that answers with a task has found the revision that was expected, and has put the task
-- in its place.
Updated-ok :
    (key : WorkspaceKey) (task result : UserTask) (revision : ℕ) (found : Option TaskRow)
    (old after : Book) (answer : Answer)
    → answer ≡ ok result
    → Updated key task revision found old answer after
    → (row : TaskRow) × (found ≡ some row)
      × (is_in key row ≡ true)
      × (row.revision ≡ revision)
      × (result ≡ record task { revision = revision + 1 })
      × IsPut (task_values result) old after
Updated-ok key task result revision none old after answer e (no_answer, _) = cc
Updated-ok key task result revision (some r) old after answer e (inl (_, no_answer, _)) = cc
Updated-ok key task result revision (some r) old after answer e (inr (inl (_, _, no_answer, _))) =
    cc
Updated-ok key task result revision (some r) old after answer e
      (inr (inr (inl (_, _, _, no_answer, _)))) =
    cc
Updated-ok key task result revision (some r) old after answer e
      (inr (inr (inr (inl (_, _, _, _, no_answer, _))))) =
    cc
Updated-ok key task result revision (some r) old after answer e
      (inr (inr (inr (inr (_, mine, now, _, given, put))))) =
    let same : record task { revision = revision + 1 } ≡ result = cc in
    (r, refl, mine, ground arith, sym same, subst (λ t. IsPut (task_values t) old after) same put)

pub update_ok :
    (key : WorkspaceKey) (task result : UserTask) (revision : ℕ) (table after : List TaskRow)
    → IsKeyed row_key table
    → Repository.update key task revision table ≡ (ok result, after)
    → (row : TaskRow) × (book table task.id ≡ some row)
      × (is_in key row ≡ true)
      × (row.revision ≡ revision)
      × (result ≡ record task { revision = revision + 1 })
      × IsPut (task_values result) (book table) (book after)
update_ok key task result revision table after keyed e =
    Updated-ok key task result revision (book table task.id) (book table) (book after) (ok result)
      refl
      (subst
        (λ (o : Answer × List TaskRow).
          Updated key task revision (book table task.id) (book table) o.0 (book o.1))
        e (update-Updated table keyed key task revision))
