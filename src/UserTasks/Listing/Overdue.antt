-- ===== src/UserTasks/Listing/Overdue.antt =====
-- The overdue filter of the query, against `is_overdue` of the task.
use ai_lab_os.Prelude.{ℕ, true, ◌&&◌, ◌≡◌, ap, List}
use ai_lab_os.Scheduler.Models.{Instant}
use ai_lab_os.UserTasks.Models.{UserTask, is_overdue, is_active}
use ai_lab_os.UserTasks.Table.{task_values}
use ai_lab_os.TimeText.Laws.{IsOtherSecond, is_before-before}
use ai_lab_os.UserTasks.Listing.{overdue_where}

module _ (json_tail : ℕ → List ℕ) where
  -- The query for overdue tasks selects the row of a task exactly if `is_overdue` holds of it, unless
  -- the task is due in the very second of the instant, whatever text the columns have behind the
  -- seconds.
  pub overdue_where-is_overdue :
      (task : UserTask) (as_of : Instant)
      → IsOtherSecond task.due_at as_of
      → overdue_where json_tail as_of true (task_values task) ≡ is_overdue task as_of
  unfolding overdue_where is_overdue task_values
  overdue_where-is_overdue task as_of other =
      ap (λ due. is_active task.status && due) (is_before-before json_tail task.due_at as_of other)
