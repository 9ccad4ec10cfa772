-- ===== src/UserTasks/Service/Transition.antt =====
-- UserTaskService._transition, complete, cancel and reopen. The calls of the repository that others
-- make between the read and the write of a method are an argument.
use ai_lab_os.Prelude.{
  ℕ, Bool, true, false, not, Option, none, some, List, String, if◌then◌else◌, or_default, Result,
  ok, err, ◌==◌,
}
use ai_lab_os.Scheduler.Models.{Instant}
use ai_lab_os.UserTasks.Models.{UserTask, UserTaskStatus, UserTaskError, status_eq, is_active}
use ai_lab_os.UserTasks.Spaces.{WorkspaceKey, normalize_workspace_key}
use ai_lab_os.UserTasks.Table as Repository
use ai_lab_os.UserTasks.Table.{TaskRow}
use ai_lab_os.UserTasks.Spec.{Call}
use ai_lab_os.UserTasks.Calls.{run_calls}
use ai_lab_os.UserTasks.Service.{Service, coordinator_failed, Outcome, publish, fail, get, text_or}

-- target.value
abbrev pub status_text : UserTaskStatus → String
status_text UserTaskStatus.active = "active"
status_text UserTaskStatus.completed = "completed"
status_text UserTaskStatus.cancelled = "cancelled"

-- f"user_task.{target.value}"
abbrev pub status_event : UserTaskStatus → String
status_event UserTaskStatus.active = "user_task.active"
status_event UserTaskStatus.completed = "user_task.completed"
status_event UserTaskStatus.cancelled = "user_task.cancelled"

unfoldable pub transitioned : UserTaskStatus → Instant → String → UserTask → UserTask
transitioned UserTaskStatus.completed now trace_id current = record current {
  status = UserTaskStatus.completed;
  updated_at = now;
  trace_id = text_or trace_id current.trace_id;
  completed_at = some now;
}
transitioned target now trace_id current = record current {
  status = target;
  updated_at = now;
  trace_id = text_or trace_id current.trace_id;
  cancelled_at = some now;
}

unfoldable pub reopened : Instant → UserTask → UserTask
reopened now current = record current {
  status = UserTaskStatus.active;
  updated_at = now;
  completed_at = none;
  cancelled_at = none;
}

-- expected_revision is not None and expected_revision != current.revision
abbrev pub is_stale : Option ℕ → ℕ → Bool
is_stale none revision = false
is_stale (some expected) revision = not (expected == revision)

-- The table as the others leave it.
unfoldable pub after_interim : (String → Bool) → List Call → Service → Service
unfolding run_calls
after_interim is_zone interim service = record service {
  table = (run_calls is_zone interim service.table).1;
}

-- Whether the coordinator returns on a task; it raises otherwise.
abbrev pub Coordinator : Type 0
Coordinator = Option (UserTask → String → Bool)

unfoldable pub coordinate_terminal : Coordinator → UserTask → String → Service → Outcome
coordinate_terminal none task trace_id service = (ok task, service)
coordinate_terminal (some returns) task trace_id service =
    if returns task trace_id
    then (ok task, record service { lifecycle_degraded = false })
    else (err coordinator_failed, record service { lifecycle_degraded = true })

module _ (is_zone : String → Bool) (bus_is_running : Bool) where
  unfoldable pub after_transition :
      Coordinator
      → String
      → UserTaskStatus
      → String
      → Result UserTaskError UserTask × List TaskRow
      → Service
      → Outcome
  unfolding coordinate_terminal publish fail
  after_transition coordinator task_id target trace_id (ok result, table) service =
      coordinate_terminal coordinator result trace_id (
        publish bus_is_running (status_event target) result.id trace_id "ok"
          (record service { table = table }))
  after_transition coordinator task_id target trace_id (err exc, table) service =
      fail is_zone bus_is_running exc (status_text target) task_id trace_id
        (record service { table = table })

  unfoldable pub transition_from :
      Coordinator
      → WorkspaceKey
      → String
      → UserTaskStatus
      → Option ℕ
      → String
      → Instant
      → List Call
      → Outcome
      → Outcome
  unfolding after_transition coordinate_terminal fail transitioned after_interim Repository.update
  transition_from coordinator key task_id target expected trace_id now interim (err e, service) =
      (err e, service)
  transition_from coordinator key task_id target expected trace_id now interim
        (ok current, service) =
      if is_stale expected current.revision
      then fail is_zone bus_is_running UserTaskError.conflict (status_text target) task_id trace_id
          service
      else if status_eq current.status target
      then coordinate_terminal coordinator current trace_id service
      else if not (is_active current.status)
      then fail is_zone bus_is_running UserTaskError.conflict (status_text target) task_id trace_id
          service
      else after_transition coordinator task_id target trace_id
          (Repository.update key (transitioned target now trace_id current)
            (or_default current.revision expected) (after_interim is_zone interim service).table)
          (after_interim is_zone interim service)

  unfoldable pub transition :
      Coordinator
      → WorkspaceKey
      → String
      → UserTaskStatus
      → Option ℕ
      → String
      → Instant
      → List Call
      → Service
      → Outcome
  unfolding transition_from get normalize_workspace_key
  transition coordinator key task_id target expected trace_id now interim service =
      transition_from coordinator (normalize_workspace_key key) task_id target expected trace_id now
        interim (get is_zone bus_is_running (normalize_workspace_key key) task_id trace_id service)

  unfoldable pub complete :
      Coordinator
      → WorkspaceKey
      → String
      → Option ℕ
      → String
      → Instant
      → List Call
      → Service
      → Outcome
  unfolding transition
  complete coordinator key task_id expected trace_id now interim service =
      transition coordinator key task_id UserTaskStatus.completed expected trace_id now interim
        service

  unfoldable pub cancel :
      Coordinator
      → WorkspaceKey
      → String
      → Option ℕ
      → String
      → Instant
      → List Call
      → Service
      → Outcome
  unfolding transition
  cancel coordinator key task_id expected trace_id now interim service =
      transition coordinator key task_id UserTaskStatus.cancelled expected trace_id now interim
        service

  -- The end of `reopen` and of `update`.
  unfoldable pub after_write :
      String
      → String
      → String
      → String
      → Result UserTaskError UserTask × List TaskRow
      → Service
      → Outcome
  unfolding publish fail
  after_write event operation task_id trace_id (ok result, table) service = (
    ok result,
    publish bus_is_running event result.id trace_id "ok" (record service { table = table }),
  )
  after_write event operation task_id trace_id (err exc, table) service =
      fail is_zone bus_is_running exc operation task_id trace_id (record service { table = table })

  unfoldable pub reopen_from :
      WorkspaceKey → String → String → Instant → List Call → Outcome → Outcome
  unfolding after_write reopened after_interim Repository.update
  reopen_from key task_id trace_id now interim (err e, service) = (err e, service)
  reopen_from key task_id trace_id now interim (ok current, service) =
      if is_active current.status
      then (ok current, service)
      else after_write "user_task.reopened" "reopen" task_id trace_id
          (Repository.update key (reopened now current) current.revision
            (after_interim is_zone interim service).table)
          (after_interim is_zone interim service)

  unfoldable pub reopen : WorkspaceKey → String → String → Instant → List Call → Service → Outcome
  unfolding reopen_from get normalize_workspace_key
  reopen key task_id trace_id now interim service =
      reopen_from (normalize_workspace_key key) task_id trace_id now interim
        (get is_zone bus_is_running (normalize_workspace_key key) task_id trace_id service)
