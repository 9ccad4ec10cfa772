-- ===== src/UserTasks/Listing.antt =====
-- SQLiteUserTaskRepository.list. Datetimes are compared as texts (TimeText.antt).
pub mod Meets
pub mod Pages
pub mod Overdue
pub mod Hidden
use ai_lab_os.Prelude.{
  ℕ, zero, suc, ◌+◌, ◌*◌, ◌/◌, ◌%◌, Bool, true, false, not, ◌&&◌, ◌||◌, Option, none, some, List,
  [], ◌∷◌, ◌++◌, String, codes, ltb, ◌==◌, is_none, if◌then◌else◌, Result, ok, err,
}
use ai_lab_os.Sql.{select_where, count_where}
use ai_lab_os.Sql.Order.{order_by}
use ai_lab_os.Sql.Pages.{take, drop}
use ai_lab_os.TimeText.{
  text_before, codes_ltb, isoformat, stored, is_before, is_from, is_up_to, text_first,
}
use ai_lab_os.Scheduler.Models.{Instant}
use ai_lab_os.UserTasks.Models.{
  UserTask, UserTaskQuery, UserTaskStatus, UserTaskPriority, UserTaskError, status_eq, is_active,
}
use ai_lab_os.UserTasks.Spaces.{WorkspaceKey}
use ai_lab_os.UserTasks.Table.{TaskRow, is_in, is_default_workspace, lacks_json, row_task}

unfoldable pub priority_eq : UserTaskPriority → UserTaskPriority → Bool
priority_eq UserTaskPriority.low UserTaskPriority.low = true
priority_eq UserTaskPriority.medium UserTaskPriority.medium = true
priority_eq UserTaskPriority.high UserTaskPriority.high = true
priority_eq UserTaskPriority.urgent UserTaskPriority.urgent = true
priority_eq _ _ = false

unfoldable pub priority_rank : UserTaskPriority → ℕ
priority_rank UserTaskPriority.urgent = 0
priority_rank UserTaskPriority.high = 1
priority_rank UserTaskPriority.medium = 2
priority_rank UserTaskPriority.low = 3

-- A clause that the query asks for, or none.
abbrev pub clause : {A : Type 0} → Option A → (A → Bool) → Bool
clause none holds = true
clause (some value) holds = holds value

module _ (json_tail : ℕ → List ℕ) where
  unfoldable pub overdue_where : Instant → Bool → TaskRow → Bool
  unfolding is_before is_from
  overdue_where as_of overdue row =
      is_active row.status
      && (if overdue
          then is_before json_tail row.due_at as_of
          else is_from json_tail row.due_at as_of)

  -- The clauses of the WHERE; `as_of` is needed only with `overdue`.
  unfoldable pub list_where : WorkspaceKey → UserTaskQuery → Instant → TaskRow → Bool
  unfolding is_in priority_eq is_from is_up_to is_before overdue_where
  list_where key query as_of row =
      is_in key row
      && clause query.status (status_eq row.status)
      && clause query.priority (priority_eq row.priority)
      && clause query.due_from (is_from json_tail row.due_at)
      && clause query.due_to (is_up_to json_tail row.due_at)
      && clause query.completed_from (is_from json_tail row.completed_at)
      && clause query.completed_to (is_before json_tail row.completed_at)
      && clause query.cancelled_from (is_from json_tail row.cancelled_at)
      && clause query.cancelled_to (is_before json_tail row.cancelled_at)
      && clause query.overdue (λ overdue. overdue_where as_of overdue row)

  -- ORDER BY CASE priority …, due_at IS NULL, due_at, created_at, id
  unfoldable pub list_precedes : TaskRow → TaskRow → Bool
  unfolding priority_rank text_first text_before codes_ltb
  list_precedes a b =
      ltb (priority_rank a.priority) (priority_rank b.priority)
      || not (ltb (priority_rank b.priority) (priority_rank a.priority))
        && (text_first json_tail a.due_at b.due_at
            || not (text_first json_tail b.due_at a.due_at)
              && (text_before (stored json_tail a.created_at) (stored json_tail b.created_at)
                  || not
                      (text_before (stored json_tail b.created_at) (stored json_tail a.created_at))
                    && codes_ltb (codes a.id) (codes b.id)))

module _ (is_zone : String → Bool) where
  unfoldable pub cons_task :
      Result UserTaskError UserTask
      → Result UserTaskError (List UserTask)
      → Result UserTaskError (List UserTask)
  cons_task (ok task) (ok tasks) = ok (task ∷ tasks)
  cons_task (ok task) (err e) = err e
  cons_task (err e) rest = err e

  -- [self._task(row) for row in rows]
  unfoldable pub row_tasks : List TaskRow → Result UserTaskError (List UserTask)
  unfolding cons_task row_task
  row_tasks [] = ok []
  row_tasks (row ∷ rows) = cons_task (row_task is_zone row) (row_tasks rows)

module _ (json_tail : ℕ → List ℕ) (is_zone : String → Bool) where
  unfoldable pub page_of : WorkspaceKey → UserTaskQuery → Instant → List TaskRow → List TaskRow
  unfolding list_where list_precedes take drop
  page_of key query as_of table = take query.limit (
      drop query.offset (
        order_by (list_precedes json_tail)
          (select_where (list_where json_tail key query as_of) table)))

  unfoldable pub list_page :
      WorkspaceKey → UserTaskQuery → Instant → List TaskRow → Result UserTaskError (List UserTask)
  unfolding row_tasks page_of
  list_page key query as_of table =
      if is_default_workspace key && not (count_where lacks_json table == 0)
      then err UserTaskError.persistence
      else row_tasks is_zone (page_of key query as_of table)

  -- A query for overdue tasks without an instant raises.
  unfoldable pub list_tasks :
      WorkspaceKey
      → UserTaskQuery
      → Option Instant
      → List TaskRow
      → Result UserTaskError (List UserTask)
  unfolding list_page
  list_tasks key query (some as_of) table = list_page key query as_of table
  list_tasks key query none table =
      if is_none query.overdue then list_page key query 0 table else err UserTaskError.persistence
