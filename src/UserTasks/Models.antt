-- ===== src/UserTasks/Models.antt =====
-- core/user_tasks/models.py and exceptions.py. Whether a name is in the time zone database is an
-- argument. A datetime is an instant in UTC.
use ai_lab_os.Prelude.{
  ℕ, Bool, true, false, not, ◌&&◌, Option, some, [], ◌∷◌, List, String, ltb, leb, is_blank, strip,
  if◌then◌else◌, Result, ok, err,
}
use ai_lab_os.Json.{Fields, fields_contain_sensitive_key}
use ai_lab_os.Scheduler.Models.{Instant}
use ai_lab_os.TimeText.{before}

pub data UserTaskStatus : Type 0 where
  active completed cancelled : UserTaskStatus

pub data UserTaskPriority : Type 0 where
  low medium high urgent : UserTaskPriority

-- UserTaskNotFoundError, UserTaskConflictError, UserTaskPersistenceError; a ValidationError or
-- another ValueError.
pub data UserTaskError : Type 0 where
  not_found conflict persistence validation : UserTaskError

unfoldable pub sensitive_keys : List String
sensitive_keys = "api_key" ∷ "apikey" ∷ "token" ∷ "secret" ∷ "password" ∷ "authorization" ∷ []

pub record UserTask : Type 0 where
  pub id : String
  pub title : String
  pub description : String
  pub status : UserTaskStatus
  pub priority : UserTaskPriority
  pub due_at : Option Instant
  pub timezone : String
  pub created_at : Instant
  pub updated_at : Instant
  pub completed_at : Option Instant
  pub cancelled_at : Option Instant
  pub source : String
  pub session_id : String
  pub agent_id : String
  pub trace_id : String
  pub metadata : Fields
  pub legacy_source_id : Option String
  pub revision : ℕ

abbrev pub status_eq : UserTaskStatus → UserTaskStatus → Bool
status_eq UserTaskStatus.active UserTaskStatus.active = true
status_eq UserTaskStatus.completed UserTaskStatus.completed = true
status_eq UserTaskStatus.cancelled UserTaskStatus.cancelled = true
status_eq _ _ = false

abbrev pub is_active : UserTaskStatus → Bool
is_active status = status_eq status UserTaskStatus.active

-- UserTask.model_validate: the validators, which strip the title and the name of the time zone.
unfoldable pub accepts : (String → Bool) → UserTask → Bool
unfolding sensitive_keys
accepts is_zone task =
    not (is_blank task.title)
    && not (is_blank task.timezone)
    && is_zone (strip task.timezone)
    && not (fields_contain_sensitive_key sensitive_keys task.metadata)
    && leb 1 task.revision

unfoldable pub model_validate : (String → Bool) → UserTask → Result UserTaskError UserTask
unfolding accepts
model_validate is_zone task =
    if accepts is_zone task
    then ok (record task { title = strip task.title; timezone = strip task.timezone })
    else err UserTaskError.validation

unfoldable pub is_overdue : UserTask → Instant → Bool
is_overdue task now = is_active task.status && before task.due_at now

pub record UserTaskQuery : Type 0 where
  pub status : Option UserTaskStatus
  pub priority : Option UserTaskPriority
  pub due_from : Option Instant
  pub due_to : Option Instant
  pub completed_from : Option Instant
  pub completed_to : Option Instant
  pub cancelled_from : Option Instant
  pub cancelled_to : Option Instant
  pub overdue : Option Bool
  pub limit : ℕ
  pub offset : ℕ

-- One of the bounds is missing, or the lower one is earlier.
unfoldable pub is_range : Option Instant → Option Instant → Bool
is_range (some lower) (some upper) = ltb lower upper
is_range _ _ = true

-- The validators of a query.
unfoldable pub validate_terminal_ranges : UserTaskQuery → Bool
unfolding is_range
validate_terminal_ranges query =
    leb 1 query.limit
    && leb query.limit 500
    && is_range query.completed_from query.completed_to
    && is_range query.cancelled_from query.cancelled_to
