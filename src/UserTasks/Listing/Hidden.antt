-- ===== src/UserTasks/Listing/Hidden.antt =====
-- A row of another workspace is not listed.
use mathlib.Core.Option.{some_inj}
use ai_lab_os.Prelude.{
  ℕ, Bool, true, false, not, ◌&&◌, ◌≡◌, refl, ap, sym, ◌∙◌, Bool-cases, inl, inr, Option, none,
  some, List, [], ◌∷◌, String, str_eq, eq_iff, ◌==◌, Result, ok, err, All, All-map, is_none,
}
use ai_lab_os.Json.{Json, null, boolean, number, text, array, object}
use ai_lab_os.Sql.{select_where, count_where, IsKeyed}
use ai_lab_os.Sql.Found.{All-found}
use ai_lab_os.Sql.Order.{order_by}
use ai_lab_os.Sql.Pages.{drop, All-take, All-drop}
use ai_lab_os.Sql.Sorted.{All-order_by, All-select_where}
use ai_lab_os.Scheduler.Models.{Instant}
use ai_lab_os.UserTasks.Models.{UserTask, UserTaskQuery, UserTaskError, accepts, model_validate}
use ai_lab_os.UserTasks.Spaces.{WorkspaceKey}
use ai_lab_os.UserTasks.Table.{
  TaskRow, row_key, is_in, is_default_workspace, lacks_json, task_with, loaded, row_task,
}
use ai_lab_os.UserTasks.Refines.{book}
use ai_lab_os.UserTasks.Listing.{
  list_where, list_precedes, cons_task, row_tasks, page_of, list_page, list_tasks,
}

-- No task of the answer has the id.
abbrev pub Hides : String → Result UserTaskError (List UserTask) → Type 0
Hides k (ok tasks) = All (λ task. str_eq task.id k ≡ false) tasks
Hides k (err e) = Unit

-- A task that is returned has another id.
abbrev Differs : String → Result UserTaskError UserTask → Type 0
Differs k (ok task) = str_eq task.id k ≡ false
Differs k (err e) = Unit

module _ (is_zone : String → Bool) (k : String) where
  loaded-Differs :
      (task : UserTask)
      → str_eq task.id k ≡ false
      → Differs k (loaded (model_validate is_zone task))
  unfolding loaded model_validate
  loaded-Differs task other = elim (Bool-cases (accepts is_zone task)) [
    | inl fine ↦ rw fine other
    | inr bad ↦ rw bad tt
  ]

  row_task-Differs :
      (row : TaskRow) (metadata : Option Json)
      → row.metadata ≡ metadata
      → str_eq row.id k ≡ false
      → Differs k (row_task is_zone row)
  unfolding row_task task_with
  row_task-Differs row none e other = rw e tt
  row_task-Differs row (some (object fields)) e other =
      rw e (loaded-Differs (task_with fields row) other)
  row_task-Differs row (some null) e other = rw e tt
  row_task-Differs row (some (boolean b)) e other = rw e tt
  row_task-Differs row (some (number n)) e other = rw e tt
  row_task-Differs row (some (text t)) e other = rw e tt
  row_task-Differs row (some (array xs)) e other = rw e tt

  cons_task-Hides :
      (task : Result UserTaskError UserTask) (tasks : Result UserTaskError (List UserTask))
      → Differs k task
      → Hides k tasks
      → Hides k (cons_task is_zone task tasks)
  unfolding cons_task
  cons_task-Hides (ok task) (ok tasks) other hidden = (other, hidden)
  cons_task-Hides (ok task) (err e) other hidden = tt
  cons_task-Hides (err e) tasks other hidden = tt

  row_tasks-Hides :
      (rows : List TaskRow)
      → All (λ row. str_eq row.id k ≡ false) rows
      → Hides k (row_tasks is_zone rows)
  unfolding row_tasks
  row_tasks-Hides [] others = tt
  row_tasks-Hides (row ∷ rows) others =
      cons_task-Hides (row_task is_zone row) (row_tasks is_zone rows)
        (row_task-Differs row row.metadata refl others.0) (row_tasks-Hides rows others.1)

module _ (json_tail : ℕ → List ℕ) (is_zone : String → Bool) (key : WorkspaceKey)
    (query : UserTaskQuery) (table : List TaskRow) (keyed : IsKeyed row_key table) (k : String)
    (row : TaskRow) (there : book table k ≡ some row) (elsewhere : is_in key row ≡ false) where
  other_id :
      (as_of : Instant) (r : TaskRow)
      → (list_where json_tail key query as_of r ≡ true) × (book table r.id ≡ some r)
      → str_eq r.id k ≡ false
  unfolding list_where
  other_id as_of r (meets, found) = elim (Bool-cases (str_eq r.id k)) [
    | inr other ↦ other
    | inl hit ↦
        let same_row : r ≡ row =
          some_inj.0 (sym found ∙ ap (book table) ((eq_iff r.id k).0 hit) ∙ there) in
        let away : is_in key r ≡ false = ap (is_in key) same_row ∙ elsewhere in
        let no_way : false ≡ true = rw away at meets in cc
  ]

  page_of-others :
      (as_of : Instant)
      → All (λ r. str_eq r.id k ≡ false) (page_of json_tail is_zone key query as_of table)
  unfolding page_of
  page_of-others as_of =
      let meets = list_where json_tail key query as_of in
      let precedes = list_precedes json_tail in
      let P = λ (r : TaskRow). (meets r ≡ true) × (book table r.id ≡ some r) in
      let sorted = order_by precedes (select_where meets table) in
      All-map P (λ r. str_eq r.id k ≡ false) (page_of json_tail is_zone key query as_of table)
        (other_id as_of)
        (All-take P query.limit (drop query.offset sorted) (
          All-drop P query.offset sorted (
            All-order_by P precedes (select_where meets table) (
              All-select_where meets (λ r. book table r.id ≡ some r) table
                (All-found row_key table keyed)))))

  list_page-Hides : (as_of : Instant) → Hides k (list_page json_tail is_zone key query as_of table)
  unfolding list_page
  list_page-Hides as_of =
      let hidden =
        row_tasks-Hides is_zone k (page_of json_tail is_zone key query as_of table)
          (page_of-others as_of) in
      elim (Bool-cases (is_default_workspace key && not (count_where lacks_json table == 0))) [
        | inl unreadable ↦ rw unreadable tt
        | inr readable ↦ rw readable hidden
      ]

  -- A list for a workspace does not have a task whose row is not in it.
  pub list_tasks-Hides :
      (as_of : Option Instant) → Hides k (list_tasks json_tail is_zone key query as_of table)
  unfolding list_tasks
  list_tasks-Hides (some as_of) = list_page-Hides as_of
  list_tasks-Hides none = elim (Bool-cases (is_none query.overdue)) [
    | inl unasked ↦ rw unasked (list_page-Hides 0)
    | inr asked ↦ rw asked tt
  ]
