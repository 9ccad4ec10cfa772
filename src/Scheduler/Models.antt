-- ===== src/Scheduler/Models.antt =====
-- core/scheduler/models.py. An instant is a number of microseconds since 0001-01-01T00:00:00 UTC:
-- the validators of the models refuse naive datetimes and convert the others to UTC. A JSON object
-- is the list of its keys with the texts of their values. Durations are in microseconds too, except
-- where a field counts seconds.
use ai_lab_os.Prelude.{ℕ, Bool, true, false, Option, List, String, ℤ, ◌*◌}
use ai_lab_os.Errors.{FailureInfo}

abbrev pub Instant : Type 0
Instant = ℕ

abbrev pub JsonObject : Type 0
JsonObject = List (String × String)

pub data JobStatus : Type 0 where
  active retrying paused running completed failed cancelled : JobStatus

pub data TriggerType : Type 0 where
  cron interval one_shot manual event : TriggerType

pub data JobRunStatus : Type 0 where
  running success failed timeout cancelled : JobRunStatus

-- A datetime as Python has it: aware ones are given by their instant in UTC.
pub data DateTime : Type 0 where
  naive : ℕ → DateTime
  aware : Instant → DateTime

pub record Trigger : Type 0 where
  pub trigger_type : TriggerType
  pub cron_expression : String
  pub interval_seconds : ℤ
  pub run_at : Option Instant
  pub event_type : String
  pub timezone : String
  pub next_run_at : Option Instant

pub record JobInfo : Type 0 where
  pub id : String
  pub name : String
  pub description : String
  pub version : String
  pub tags : List String
  pub metadata : JsonObject
  pub created_at : Instant

pub record Job : Type 0 where
  pub info : JobInfo
  pub trigger : Trigger
  pub workflow_name : String
  pub workflow_variables : JsonObject
  pub action_type : String
  pub action_payload : JsonObject
  pub trace_id : String
  pub status : JobStatus
  pub max_retries : ℤ
  pub timeout : ℤ
  pub max_concurrent : ℕ
  pub retry_count : ℕ
  pub run_count : ℕ
  pub last_run_at : Option Instant
  pub last_result : String
  pub last_error : Option FailureInfo
  pub claim_token : Option String
  pub claim_expires_at : Option Instant
  pub updated_at : Instant
  pub revision : ℕ

pub record JobRun : Type 0 where
  pub id : String
  pub job_id : String
  pub job_name : String
  pub status : JobRunStatus
  pub started_at : Instant
  pub finished_at : Option Instant
  pub error : Option String
  pub trace_id : String
  pub failure : Option FailureInfo
  pub attempt : ℕ
  pub claim_token : String

pub record ScheduleRequest : Type 0 where
  pub job_name : String
  pub workflow_name : String
  pub trigger : Trigger
  pub variables : JsonObject
  pub trace_id : String
  pub tags : List String
  pub action_type : String
  pub action_payload : JsonObject

-- The value of a `JobRunStatus`, as the runtime writes it to `last_result`.
abbrev pub run_status_value : JobRunStatus → String
run_status_value JobRunStatus.running = "running"
run_status_value JobRunStatus.success = "success"
run_status_value JobRunStatus.failed = "failed"
run_status_value JobRunStatus.timeout = "timeout"
run_status_value JobRunStatus.cancelled = "cancelled"

-- status == RUNNING
abbrev pub is_running : JobStatus → Bool
is_running JobStatus.running = true
is_running _ = false

-- status == PAUSED
abbrev pub is_paused : JobStatus → Bool
is_paused JobStatus.paused = true
is_paused _ = false

-- status in (ACTIVE, RETRYING)
abbrev pub is_dispatchable : JobStatus → Bool
is_dispatchable JobStatus.active = true
is_dispatchable JobStatus.retrying = true
is_dispatchable _ = false

abbrev pub second : ℕ
second = 1000000

abbrev pub minute : ℕ
minute = 60 * second

abbrev pub hour : ℕ
hour = 60 * minute

abbrev pub day : ℕ
day = 24 * hour
