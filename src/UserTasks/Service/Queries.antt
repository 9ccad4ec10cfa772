-- ===== src/UserTasks/Service/Queries.antt =====
-- UserTaskService.list and is_overdue: the query that a call stands for.
use ai_lab_os.Prelude.{
  ℕ, Bool, ◌||◌, Option, none, some, List, String, is_some, if◌then◌else◌, or_default, Result, ok,
  err,
}
use ai_lab_os.Scheduler.Models.{Instant}
use ai_lab_os.UserTasks.Models.{
  UserTask, UserTaskStatus, UserTaskPriority, UserTaskQuery, UserTaskError,
  validate_terminal_ranges,
}
use ai_lab_os.UserTasks.Spaces.{WorkspaceKey, normalize_workspace_key}
use ai_lab_os.UserTasks.Listing.{list_tasks}
use ai_lab_os.UserTasks.Service.{Service, ServiceError, service_error, publish}

-- The filters as arguments of their own.
pub record RawFilters : Type 0 where
  pub status : Option UserTaskStatus
  pub priority : Option UserTaskPriority
  pub due_from : Option Instant
  pub due_to : Option Instant
  pub completed_from : Option Instant
  pub completed_to : Option Instant
  pub cancelled_from : Option Instant
  pub cancelled_to : Option Instant
  pub overdue : Option Bool
  pub limit : Option ℕ
  pub offset : Option ℕ

-- any(value is not None for value in raw_filters)
unfoldable pub is_filtered : RawFilters → Bool
is_filtered raw =
    is_some raw.status
    || is_some raw.priority
    || is_some raw.due_from
    || is_some raw.due_to
    || is_some raw.completed_from
    || is_some raw.completed_to
    || is_some raw.cancelled_from
    || is_some raw.cancelled_to
    || is_some raw.overdue
    || is_some raw.limit
    || is_some raw.offset

unfoldable pub query_of_raw : RawFilters → UserTaskQuery
query_of_raw raw = record {
  status = raw.status;
  priority = raw.priority;
  due_from = raw.due_from;
  due_to = raw.due_to;
  completed_from = raw.completed_from;
  completed_to = raw.completed_to;
  cancelled_from = raw.cancelled_from;
  cancelled_to = raw.cancelled_to;
  overdue = raw.overdue;
  limit = or_default 100 raw.limit;
  offset = or_default 0 raw.offset;
}

-- A query that was validated when it was made, or the raw filters, but not both.
unfoldable pub query_of : Option UserTaskQuery → RawFilters → Result UserTaskError UserTaskQuery
unfolding is_filtered query_of_raw validate_terminal_ranges
query_of (some query) raw = if is_filtered raw then err UserTaskError.validation else ok query
query_of none raw =
    if validate_terminal_ranges (query_of_raw raw)
    then ok (query_of_raw raw)
    else err UserTaskError.validation

-- The instant of the call, or of the clock if overdue tasks are asked for.
unfoldable pub resolved_as_of : Option Bool → Option Instant → Instant → Option Instant
resolved_as_of (some overdue) none now = some now
resolved_as_of overdue as_of now = as_of

abbrev pub ListOutcome : Type 0
ListOutcome = Result ServiceError (List UserTask) × Service

module _ (json_tail : ℕ → List ℕ) (is_zone : String → Bool) (bus_is_running : Bool) where
  unfoldable pub answered_list :
      Result UserTaskError (List UserTask) → String → Service → ListOutcome
  unfolding publish service_error
  answered_list (ok tasks) trace_id service = (ok tasks, service)
  answered_list (err exc) trace_id service = (
    err (service_error exc "list" trace_id),
    publish bus_is_running "user_task.failed" "query" trace_id "failed" service,
  )

  unfoldable pub list_query :
      WorkspaceKey
      → Option Instant
      → Instant
      → Result UserTaskError UserTaskQuery
      → Service
      → Result UserTaskError (List UserTask)
  unfolding list_tasks normalize_workspace_key resolved_as_of
  list_query key as_of now (err exc) service = err exc
  list_query key as_of now (ok query) service =
      list_tasks json_tail is_zone (normalize_workspace_key key) query
        (resolved_as_of query.overdue as_of now) service.table

  unfoldable pub list :
      WorkspaceKey
      → Option UserTaskQuery
      → RawFilters
      → Option Instant
      → String
      → Instant
      → Service
      → ListOutcome
  unfolding answered_list list_query query_of
  list key query raw as_of trace_id now service =
      answered_list (list_query key as_of now (query_of query raw) service) trace_id service
