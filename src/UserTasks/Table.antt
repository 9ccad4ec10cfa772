-- ===== src/UserTasks/Table.antt =====
-- SQLiteUserTaskRepository of core/user_tasks/repository.py: the rows, the workspace of a row, and
-- `create`, `get` and `update`. A metadata column that is no valid JSON is `none`.
use ai_lab_os.Prelude.{
  ℕ, ◌+◌, Bool, true, false, not, ◌&&◌, Option, none, some, List, [], ◌∷◌, ◌++◌, String, str_eq,
  ◌==◌, is_some, is_none, if◌then◌else◌, Result, ok, err,
}
use ai_lab_os.Sql.{update_where, count_where, find_key}
use ai_lab_os.Json.{Json, Fields, object, text, get}
use ai_lab_os.Scheduler.Models.{Instant}
use ai_lab_os.UserTasks.Models.{
  UserTask, UserTaskStatus, UserTaskPriority, UserTaskError, model_validate,
}
use ai_lab_os.UserTasks.Spaces.{WorkspaceKey, default_workspace, same_workspace}

pub record TaskRow : Type 0 where
  pub id : String
  pub title : String
  pub description : String
  pub status : UserTaskStatus
  pub priority : UserTaskPriority
  pub due_at : Option Instant
  pub timezone : String
  pub created_at : Instant
  pub updated_at : Instant
  pub completed_at : Option Instant
  pub cancelled_at : Option Instant
  pub source : String
  pub session_id : String
  pub agent_id : String
  pub trace_id : String
  pub metadata : Option Json
  pub legacy_source_id : Option String
  pub revision : ℕ

abbrev pub row_key : TaskRow → String
row_key row = row.id

-- _values
unfoldable pub task_values : UserTask → TaskRow
task_values task = record {
  id = task.id;
  title = task.title;
  description = task.description;
  status = task.status;
  priority = task.priority;
  due_at = task.due_at;
  timezone = task.timezone;
  created_at = task.created_at;
  updated_at = task.updated_at;
  completed_at = task.completed_at;
  cancelled_at = task.cancelled_at;
  source = task.source;
  session_id = task.session_id;
  agent_id = task.agent_id;
  trace_id = task.trace_id;
  metadata = some (object task.metadata);
  legacy_source_id = task.legacy_source_id;
  revision = task.revision;
}

unfoldable pub task_with : Fields → TaskRow → UserTask
task_with metadata row = record {
  id = row.id;
  title = row.title;
  description = row.description;
  status = row.status;
  priority = row.priority;
  due_at = row.due_at;
  timezone = row.timezone;
  created_at = row.created_at;
  updated_at = row.updated_at;
  completed_at = row.completed_at;
  cancelled_at = row.cancelled_at;
  source = row.source;
  session_id = row.session_id;
  agent_id = row.agent_id;
  trace_id = row.trace_id;
  metadata = metadata;
  legacy_source_id = row.legacy_source_id;
  revision = row.revision;
}

-- trim(): SQLite takes spaces only, so a text that is not empty after it has another character.
unfoldable pub is_trimmed_empty : String → Bool
is_trimmed_empty String.[] = true
is_trimmed_empty (String.◌∷◌ c s) = Prim.Native.Char.code c == 32 && is_trimmed_empty s

-- json_extract of a part of the workspace, if it is a text with something in it
unfoldable pub part_of : String → Fields → Option String
unfolding is_trimmed_empty
part_of key workspace = elim (get key workspace) [
  | some (text part) ↦ if is_trimmed_empty part then none else some part
  | _ ↦ none
]

-- _COMPLETE_WORKSPACE_SQL, and the workspace that it finds: a row whose evidence is not complete
-- belongs to the default workspace, and a row with malformed metadata to none.
unfoldable pub workspace_of_parts : Option String → Option String → Option String → WorkspaceKey
unfolding default_workspace
workspace_of_parts (some tenant_id) (some workspace_id) (some namespace) = record {
  tenant_id = tenant_id;
  workspace_id = workspace_id;
  namespace = namespace;
}
workspace_of_parts _ _ _ = default_workspace

unfoldable pub workspace_of_fields : Option Json → WorkspaceKey
unfolding part_of workspace_of_parts default_workspace
workspace_of_fields (some (object workspace)) =
    workspace_of_parts (part_of "tenant_id" workspace) (part_of "workspace_id" workspace)
      (part_of "namespace" workspace)
workspace_of_fields _ = default_workspace

unfoldable pub workspace_of : Option Json → Option WorkspaceKey
unfolding workspace_of_fields default_workspace
workspace_of none = none
workspace_of (some (object fields)) = some (workspace_of_fields (get "workspace" fields))
workspace_of (some _) = some default_workspace

-- _workspace_predicate
abbrev pub is_owner : WorkspaceKey → Option WorkspaceKey → Bool
is_owner key none = false
is_owner key (some owner) = same_workspace owner key

unfoldable pub is_in : WorkspaceKey → TaskRow → Bool
unfolding workspace_of
is_in key row = is_owner key (workspace_of row.metadata)

-- _is_default_workspace
abbrev pub is_default_workspace : WorkspaceKey → Bool
unfolding default_workspace
is_default_workspace key = same_workspace key default_workspace

-- WHERE id=? AND guard
unfoldable pub selects : String → (TaskRow → Bool) → TaskRow → Bool
selects task_id guard row = str_eq row.id task_id && guard row

-- json_valid(metadata) = 0
abbrev pub lacks_json : TaskRow → Bool
lacks_json row = is_none row.metadata

-- _ensure_valid_metadata raises, where the repository calls it on one task.
unfoldable pub has_malformed_metadata : WorkspaceKey → String → List TaskRow → Bool
unfolding selects
has_malformed_metadata key task_id table =
    is_default_workspace key && not (count_where (selects task_id lacks_json) table == 0)

-- legacy_source_id TEXT UNIQUE
unfoldable pub has_legacy : Option String → TaskRow → Bool
has_legacy (some legacy) row = elim row.legacy_source_id [
  | none ↦ false
  | some other ↦ str_eq other legacy
]
has_legacy none row = false

-- INSERT: an IntegrityError if the id or the legacy id is taken.
unfoldable pub create : UserTask → List TaskRow → Result UserTaskError UserTask × List TaskRow
unfolding task_values has_legacy
create task table =
    if is_some (find_key row_key task.id table)
    then (err UserTaskError.conflict, table)
    else if count_where (has_legacy task.legacy_source_id) table == 0
    then (ok task, table ++ task_values task ∷ [])
    else (err UserTaskError.conflict, table)

-- The repository reports what a validator raises as its own failure.
unfoldable pub loaded : Result UserTaskError UserTask → Result UserTaskError UserTask
loaded (ok task) = ok task
loaded (err exc) = err UserTaskError.persistence

module _ (is_zone : String → Bool) where
  -- _task: a row that is no valid task raises.
  unfoldable pub row_task : TaskRow → Result UserTaskError UserTask
  unfolding task_with loaded
  row_task row = elim row.metadata [
    | some (object metadata) ↦ loaded (model_validate is_zone (task_with metadata row))
    | _ ↦ err UserTaskError.persistence
  ]

  -- The row that `WHERE id = ? AND workspace` finds.
  unfoldable pub read : Option TaskRow → WorkspaceKey → Result UserTaskError UserTask
  unfolding row_task
  read none key = err UserTaskError.not_found
  read (some row) key = if is_in key row then row_task row else err UserTaskError.not_found

  unfoldable pub get_task : WorkspaceKey → String → List TaskRow → Result UserTaskError UserTask
  unfolding read
  get_task key task_id table =
      if has_malformed_metadata key task_id table
      then err UserTaskError.persistence
      else read (find_key row_key task_id table) key

-- WHERE id=? AND revision=? AND workspace
unfoldable pub update_guard : WorkspaceKey → ℕ → TaskRow → Bool
unfolding is_in
update_guard key expected_revision row = row.revision == expected_revision && is_in key row

-- A row other than the one that is written has the legacy id.
unfoldable pub clashes : UserTask → TaskRow → Bool
unfolding has_legacy
clashes task row = not (str_eq row.id task.id) && has_legacy task.legacy_source_id row

unfoldable pub update :
    WorkspaceKey → UserTask → ℕ → List TaskRow → Result UserTaskError UserTask × List TaskRow
unfolding task_values update_guard selects clashes is_in has_malformed_metadata
update key task expected_revision table =
    let updated : UserTask = record task { revision = expected_revision + 1 } in
    let written = selects task.id (update_guard key expected_revision) in
    if has_malformed_metadata key task.id table
    then (err UserTaskError.persistence, table)
    else if count_where written table == 1
    then if count_where (clashes task) table == 0
      then (ok updated, update_where written (λ row. task_values updated) table)
      else (err UserTaskError.persistence, table)
    else if count_where (selects task.id (is_in key)) table == 0
    then (err UserTaskError.not_found, table)
    else (err UserTaskError.conflict, table)
