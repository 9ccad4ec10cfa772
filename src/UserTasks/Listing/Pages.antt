-- ===== src/UserTasks/Listing/Pages.antt =====
-- What `list` returns: which tasks, in what order, and which slice of them.
use mathlib.Core.Path.{subst, fun_ext}
use ai_lab_os.Prelude.{
  ℕ, Bool, true, false, not, ◌&&◌, ◌≡◌, refl, ◌↔◌, some, List, String, ◌==◌, Result,
}
use ai_lab_os.Sql.{select_where, count_where}
use ai_lab_os.Sql.Order.{order_by}
use ai_lab_os.Sql.Pages.{take, drop}
use ai_lab_os.Sql.Listed.{Selected, order_by-Selected}
use ai_lab_os.Scheduler.Models.{Instant}
use ai_lab_os.UserTasks.Models.{UserTask, UserTaskQuery, UserTaskError}
use ai_lab_os.UserTasks.Spaces.{WorkspaceKey}
use ai_lab_os.UserTasks.Table.{TaskRow, is_default_workspace, lacks_json}
use ai_lab_os.UserTasks.Listing.{
  list_where, list_precedes, row_tasks, page_of, list_page, list_tasks,
}
use ai_lab_os.UserTasks.Listing.Meets.{
  Meets, task_order, list_precedes-asym, list_precedes-order, list_where-Meets,
}

-- What a caller learns of a list of tasks: `rows` are the rows of the table that the query asks for, each
-- as often as the table has it, in the order of the list, and the answer is the slice of them that
-- limit and offset name.
abbrev pub Listed :
    (ℕ → List ℕ)
    → (String → Bool)
    → WorkspaceKey
    → UserTaskQuery
    → Instant
    → List TaskRow
    → Result UserTaskError (List UserTask)
    → Type 0
Listed json_tail is_zone key query as_of table answer =
    (rows : List TaskRow) × (asked : TaskRow → Bool) × ((row : TaskRow)
      → (asked row ≡ true) ↔ Meets json_tail key query as_of row)
    × Selected asked (task_order json_tail) table rows
    × (answer ≡ row_tasks is_zone (take query.limit (drop query.offset rows)))

-- `list` at an instant, unless it finds malformed metadata for a caller in the default workspace: the rows
-- of the table that belong to the workspace and meet every filter that the query gives, and no others,
-- each as often as the table has it, are put in the order of urgency, deadline, creation and id, and the
-- answer has the tasks of the `limit` rows behind the first `offset` ones.
pub list_tasks-Listed :
    (json_tail : ℕ → List ℕ) (is_zone : String → Bool) (key : WorkspaceKey) (query : UserTaskQuery)
    (as_of : Instant) (table : List TaskRow)
    → (is_default_workspace key && not (count_where lacks_json table == 0)) ≡ false
    → Listed json_tail is_zone key query as_of table
        (list_tasks json_tail is_zone key query (some as_of) table)
unfolding list_tasks list_page page_of
list_tasks-Listed json_tail is_zone key query as_of table readable =
    let meets = list_where json_tail key query as_of in
    let precedes = list_precedes json_tail in
    let by_order : precedes ≡ task_order json_tail =
      fun_ext (λ a. fun_ext (λ b. list_precedes-order json_tail a b)) in
    let rows = order_by precedes (select_where meets table) in
    (
      rows,
      meets,
      list_where-Meets json_tail key query as_of,
      subst (λ order. Selected meets order table rows) by_order
          (order_by-Selected meets precedes table (list_precedes-asym json_tail)),
      rw readable refl,
    )
