-- ===== src/UserTasks/Service/Edit.antt =====
-- UserTaskService.update and health.
use ai_lab_os.Prelude.{
  ℕ, Bool, not, ◌||◌, Option, none, some, List, String, if◌then◌else◌, or_default, Result, ok, err,
}
use ai_lab_os.Json.{Fields}
use ai_lab_os.Scheduler.Models.{Instant}
use ai_lab_os.UserTasks.Models.{
  UserTask, UserTaskPriority, UserTaskError, is_active, model_validate,
}
use ai_lab_os.UserTasks.Spaces.{WorkspaceKey, normalize_workspace_key}
use ai_lab_os.UserTasks.Table as Repository
use ai_lab_os.UserTasks.Table.{TaskRow}
use ai_lab_os.UserTasks.Spec.{Call}
use ai_lab_os.UserTasks.Service.{Service, Outcome, service_error, fail, get, text_or}
use ai_lab_os.UserTasks.Service.Create.{with_workspace}
use ai_lab_os.UserTasks.Service.Transition.{after_interim, after_write}

-- The fields that a call of `update` may change; `due_at` may be set to None.
pub record TaskChanges : Type 0 where
  pub title : Option String
  pub description : Option String
  pub priority : Option UserTaskPriority
  pub due_at : Option (Option Instant)
  pub timezone : Option String
  pub metadata : Option Fields

unfoldable pub changed_metadata : WorkspaceKey → Option Fields → Fields → Fields
unfolding with_workspace
changed_metadata key none current = current
changed_metadata key (some metadata) current = with_workspace key (some metadata)

unfoldable pub edited : WorkspaceKey → TaskChanges → String → Instant → UserTask → UserTask
unfolding changed_metadata
edited key changes trace_id now current = record current {
  title = or_default current.title changes.title;
  description = or_default current.description changes.description;
  priority = or_default current.priority changes.priority;
  due_at = or_default current.due_at changes.due_at;
  timezone = or_default current.timezone changes.timezone;
  updated_at = now;
  trace_id = text_or trace_id current.trace_id;
  metadata = changed_metadata key changes.metadata current.metadata;
}

module _ (is_zone : String → Bool) (bus_is_running : Bool) where
  unfoldable pub write_edited :
      WorkspaceKey
      → String
      → ℕ
      → String
      → List Call
      → Result UserTaskError UserTask
      → Service
      → Outcome
  unfolding after_write fail after_interim Repository.update
  write_edited key task_id revision trace_id interim (ok candidate) service =
      after_write is_zone bus_is_running "user_task.updated" "update" task_id trace_id
        (Repository.update key candidate revision (after_interim is_zone interim service).table)
        (after_interim is_zone interim service)
  write_edited key task_id revision trace_id interim (err exc) service =
      fail is_zone bus_is_running exc "update" task_id trace_id service

  -- A terminal task raises without an event.
  unfoldable pub update_from :
      WorkspaceKey
      → String
      → TaskChanges
      → Option ℕ
      → String
      → Instant
      → List Call
      → Outcome
      → Outcome
  unfolding write_edited service_error edited model_validate
  update_from key task_id changes expected trace_id now interim (err e, service) = (err e, service)
  update_from key task_id changes expected trace_id now interim (ok current, service) =
      if not (is_active current.status)
      then (err (service_error UserTaskError.conflict "update" trace_id), service)
      else write_edited key task_id (or_default current.revision expected) trace_id interim
          (model_validate is_zone (edited key changes trace_id now current)) service

  unfoldable pub update :
      WorkspaceKey
      → String
      → TaskChanges
      → Option ℕ
      → String
      → Instant
      → List Call
      → Service
      → Outcome
  unfolding update_from get normalize_workspace_key
  update key task_id changes expected trace_id now interim service =
      update_from (normalize_workspace_key key) task_id changes expected trace_id now interim
        (get is_zone bus_is_running (normalize_workspace_key key) task_id trace_id service)

-- The health of a service whose repository is in the state given.
pub data TaskHealth : Type 0 where
  healthy failed not_initialized : TaskHealth
  degraded : Bool → Bool → TaskHealth

unfoldable pub health : TaskHealth → Service → TaskHealth
health TaskHealth.healthy service =
    if service.degraded || service.lifecycle_degraded
    then TaskHealth.degraded service.degraded service.lifecycle_degraded
    else TaskHealth.healthy
health other service = other
