-- ===== src/UserTasks/Service/Create.antt =====
-- UserTaskService.create.
use ai_lab_os.Prelude.{
  Bool, Option, none, some, List, String, str_eq, if◌then◌else◌, or_default, Result, ok, err,
}
use ai_lab_os.Json.{Fields, nothing, set}
use ai_lab_os.Scheduler.Models.{Instant}
use ai_lab_os.UserTasks.Models.{
  UserTask, UserTaskStatus, UserTaskPriority, UserTaskError, model_validate,
}
use ai_lab_os.UserTasks.Spaces.{WorkspaceKey, normalize_workspace_key, canonical_workspace_metadata}
use ai_lab_os.UserTasks.Table as Repository
use ai_lab_os.UserTasks.Table.{TaskRow}
use ai_lab_os.UserTasks.Service.{Service, Outcome, publish, fail}

-- The arguments of `create`, but for the workspace.
pub record NewTask : Type 0 where
  pub title : String
  pub description : String
  pub priority : UserTaskPriority
  pub due_at : Option Instant
  pub timezone : String
  pub status : UserTaskStatus
  pub created_at : Option Instant
  pub completed_at : Option Instant
  pub cancelled_at : Option Instant
  pub source : String
  pub session_id : String
  pub agent_id : String
  pub trace_id : String
  pub metadata : Option Fields
  pub task_id : Option String
  pub legacy_source_id : Option String

-- task_id, unless it is missing or empty
abbrev pub id_or : String → Option String → String
id_or other none = other
id_or other (some id) = if str_eq id "" then other else id

-- metadata or {}, with the workspace of the call written to it
unfoldable pub with_workspace : WorkspaceKey → Option Fields → Fields
unfolding canonical_workspace_metadata set
with_workspace key metadata =
    set "workspace" (canonical_workspace_metadata key) (or_default nothing metadata)

unfoldable pub new_task : WorkspaceKey → NewTask → Instant → String → UserTask
unfolding with_workspace
new_task key args now fresh_id = record {
  id = id_or fresh_id args.task_id;
  title = args.title;
  description = args.description;
  status = args.status;
  priority = args.priority;
  due_at = args.due_at;
  timezone = args.timezone;
  created_at = or_default now args.created_at;
  updated_at = or_default now args.created_at;
  completed_at = args.completed_at;
  cancelled_at = args.cancelled_at;
  source = args.source;
  session_id = args.session_id;
  agent_id = args.agent_id;
  trace_id = args.trace_id;
  metadata = with_workspace key args.metadata;
  legacy_source_id = args.legacy_source_id;
  revision = 1;
}

module _ (is_zone : String → Bool) (bus_is_running : Bool) where
  -- `fail` with the id of the call, or that the call was not valid
  unfoldable pub create_failed : UserTaskError → NewTask → Service → Outcome
  unfolding fail
  create_failed exc args service =
      fail is_zone bus_is_running exc "create" (id_or "validation" args.task_id) args.trace_id
        service

  unfoldable pub after_insert :
      Result UserTaskError UserTask × List TaskRow → NewTask → Service → Outcome
  unfolding create_failed publish
  after_insert (ok task, table) args service = (
    ok task,
    publish bus_is_running "user_task.created" task.id args.trace_id "ok"
        (record service { table = table }),
  )
  after_insert (err exc, table) args service =
      create_failed exc args (record service { table = table })

  unfoldable pub after_validation : Result UserTaskError UserTask → NewTask → Service → Outcome
  unfolding after_insert create_failed Repository.create
  after_validation (ok task) args service =
      after_insert (Repository.create task service.table) args service
  after_validation (err exc) args service = create_failed exc args service

  unfoldable pub create : WorkspaceKey → NewTask → Instant → String → Service → Outcome
  unfolding after_validation model_validate new_task normalize_workspace_key
  create key args now fresh_id service =
      after_validation
        (model_validate is_zone (new_task (normalize_workspace_key key) args now fresh_id)) args
        service
