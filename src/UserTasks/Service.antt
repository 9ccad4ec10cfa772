-- ===== src/UserTasks/Service.antt =====
-- UserTaskService of core/user_tasks/service.py: what its methods share. The events that reach the
-- bus are part of the state, in their order.
pub mod Create
pub mod Transition
pub mod Edit
pub mod Queries
pub mod Answers
pub mod Serial
pub mod Stored
use ai_lab_os.Prelude.{
  Bool, true, false, ◌||◌, Option, none, some, List, [], ◌∷◌, ◌++◌, String, str_eq, if◌then◌else◌,
  Result, ok, err,
}
use ai_lab_os.Errors.{ErrorCategory}
use ai_lab_os.UserTasks.Models.{UserTask, UserTaskError}
use ai_lab_os.UserTasks.Spaces.{WorkspaceKey, normalize_workspace_key}
use ai_lab_os.UserTasks.Table.{TaskRow, get_task}

pub record TaskEvent : Type 0 where
  pub event_type : String
  pub task_id : String
  pub trace_id : String
  pub status : String

pub record Service : Type 0 where
  pub table : List TaskRow
  pub events : List TaskEvent
  pub degraded : Bool
  pub lifecycle_degraded : Bool

-- The FailureException that `_raise` makes.
pub record Failure : Type 0 where
  pub category : ErrorCategory
  pub operation : String
  pub trace_id : String
  pub retryable : Bool

-- The exception of the coordinator is passed on as it is.
pub data ServiceError : Type 0 where
  failure : Failure → ServiceError
  coordinator_failed : ServiceError

abbrev pub Outcome : Type 0
Outcome = Result ServiceError UserTask × Service

unfoldable pub category_of : UserTaskError → ErrorCategory
category_of UserTaskError.not_found = ErrorCategory.not_found
category_of UserTaskError.conflict = ErrorCategory.conflict
category_of UserTaskError.validation = ErrorCategory.validation
category_of UserTaskError.persistence = ErrorCategory.persistence_failure

-- category == PERSISTENCE_FAILURE
unfoldable pub is_retryable : UserTaskError → Bool
is_retryable UserTaskError.persistence = true
is_retryable _ = false

unfoldable pub service_error : UserTaskError → String → String → ServiceError
unfolding category_of is_retryable
service_error exc operation trace_id = failure (record {
  category = category_of exc;
  operation = operation;
  trace_id = trace_id;
  retryable = is_retryable exc;
})

-- a or b, on texts
abbrev pub text_or : String → String → String
text_or a b = if str_eq a "" then b else a

-- The events of the service go to a bus that is there and running, or nowhere.
unfoldable pub publish : Bool → String → String → String → String → Service → Service
publish bus_is_running event_type task_id trace_id status service =
    if bus_is_running
    then record service {
      events =
          service.events
          ++ record {
            event_type = event_type;
            task_id = task_id;
            trace_id = trace_id;
            status = status;
          }
            ∷ [];
    }
    else service

module _ (is_zone : String → Bool) (bus_is_running : Bool) where
  -- The event of a failure, and the exception.
  unfoldable pub fail : UserTaskError → String → String → String → Service → Outcome
  unfolding publish service_error
  fail exc operation task_id trace_id service = (
    err (service_error exc operation trace_id),
    publish bus_is_running "user_task.failed" task_id trace_id "failed" service,
  )

  unfoldable pub answered : Result UserTaskError UserTask → String → String → Service → Outcome
  unfolding fail
  answered (ok task) task_id trace_id service = (ok task, service)
  answered (err exc) task_id trace_id service = fail exc "get" task_id trace_id service

  unfoldable pub get : WorkspaceKey → String → String → Service → Outcome
  unfolding answered get_task normalize_workspace_key
  get key task_id trace_id service =
      answered (get_task is_zone (normalize_workspace_key key) task_id service.table) task_id
        trace_id service

  -- An expected miss is no failure, and no failure is published.
  unfoldable pub probed :
      Result UserTaskError UserTask → String → Result ServiceError (Option UserTask)
  unfolding service_error
  probed (ok task) trace_id = ok (some task)
  probed (err UserTaskError.not_found) trace_id = ok none
  probed (err exc) trace_id = err (service_error exc "get" trace_id)

  unfoldable pub find_visible :
      WorkspaceKey → String → String → Service → Result ServiceError (Option UserTask)
  unfolding probed get_task normalize_workspace_key
  find_visible key task_id trace_id service =
      probed (get_task is_zone (normalize_workspace_key key) task_id service.table) trace_id
