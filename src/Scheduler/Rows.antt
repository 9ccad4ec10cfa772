-- ===== src/Scheduler/Rows.antt =====
-- The tables of core/scheduler/persistence.py and the conversions between rows and models.
-- The columns that every INSERT of the code fills are not null here. An enum column holds the enum's
-- value, a datetime column the instant that its ISO text stands for, and a JSON column the value of
-- its text: the texts come from `isoformat` in UTC and `json.dumps`, and are read by their inverses.
-- The rows are taken to be readable: that a stored text is refused by a validator when it is loaded, such
-- as the name of a time zone that `reschedule_job` has written, is not modelled.
-- Details of a failure are stored as its validators have sanitized them, and loaded as they are.
use mathlib.Core.Option
use ai_lab_os.Prelude.{
  ℕ, Bool, ◌||◌, Option, none, List, [], ◌∷◌, String, str_eq, ℤ, ◌==◌, if◌then◌else◌,
}
use ai_lab_os.Errors.{ErrorCategory, ErrorSeverity, FailureInfo}
use ai_lab_os.Scheduler.Models.{
  Instant, JsonObject, JobStatus, TriggerType, JobRunStatus, Job, JobRun,
}

-- The JSON object that `_failure_json` writes.
pub record StoredFailure : Type 0 where
  pub code : String
  pub category : ErrorCategory
  pub component : String
  pub operation : String
  pub retryable : Bool
  pub trace_id : String
  pub details : List (String × String)

-- CREATE TABLE jobs
pub record JobRow : Type 0 where
  pub id : String
  pub name : String
  pub description : String
  pub version : String
  pub tags : List String
  pub metadata : JsonObject
  pub trigger_type : TriggerType
  pub cron_expression : String
  pub interval_seconds : ℤ
  pub run_at : Option Instant
  pub event_type : String
  pub trigger_timezone : String
  pub next_run_at : Option Instant
  pub workflow_name : String
  pub workflow_variables : JsonObject
  pub status : JobStatus
  pub max_retries : ℤ
  pub timeout : ℤ
  pub max_concurrent : ℕ
  pub retry_count : ℕ
  pub run_count : ℕ
  pub last_run_at : Option Instant
  pub last_result : String
  pub created_at : Instant
  pub action_type : String
  pub action_payload : JsonObject
  pub trace_id : String
  pub claim_token : Option String
  pub claim_expires_at : Option Instant
  pub last_error : Option StoredFailure
  pub updated_at : Instant
  pub revision : ℕ

-- CREATE TABLE job_runs
pub record RunRow : Type 0 where
  pub run_id : String
  pub job_id : String
  pub attempt : ℕ
  pub started_at : Instant
  pub finished_at : Option Instant
  pub status : JobRunStatus
  pub claim_token : String
  pub failure : Option StoredFailure
  pub trace_id : String

-- _FAILURE_DETAIL_KEYS
is_detail_key : String → Bool
is_detail_key k =
    str_eq k "action_type"
    || str_eq k "attempt"
    || str_eq k "consecutive_failures"
    || str_eq k "job_id"
    || str_eq k "recovery_state"
    || str_eq k "reminder_id"
    || str_eq k "timeout_seconds"

pub kept_details : List (String × String) → List (String × String)
kept_details [] = []
kept_details ((k, v) ∷ rest) =
    let kept = kept_details rest in if is_detail_key k then (k, v) ∷ kept else kept

unfoldable pub failure_json : FailureInfo → StoredFailure
unfolding kept_details is_detail_key
failure_json f = record {
  code = f.code;
  category = f.category;
  component = f.component;
  operation = f.operation;
  retryable = f.retryable;
  trace_id = f.trace_id;
  details = kept_details f.details;
}

unfoldable pub failure_of_json : StoredFailure → FailureInfo
failure_of_json raw = record {
  code = raw.code;
  category = raw.category;
  message = "Scheduler operation failed";
  component = raw.component;
  operation = raw.operation;
  retryable = raw.retryable;
  severity = ErrorSeverity.error;
  trace_id = raw.trace_id;
  cause_type = "";
  details = raw.details;
}

unfoldable pub job_values : Job → JobRow
job_values job = record {
  id = job.info.id;
  name = job.info.name;
  description = job.info.description;
  version = job.info.version;
  tags = job.info.tags;
  metadata = job.info.metadata;
  trigger_type = job.trigger.trigger_type;
  cron_expression = job.trigger.cron_expression;
  interval_seconds = job.trigger.interval_seconds;
  run_at = job.trigger.run_at;
  event_type = job.trigger.event_type;
  trigger_timezone = job.trigger.timezone;
  next_run_at = job.trigger.next_run_at;
  workflow_name = job.workflow_name;
  workflow_variables = job.workflow_variables;
  status = job.status;
  max_retries = job.max_retries;
  timeout = job.timeout;
  max_concurrent = job.max_concurrent;
  retry_count = job.retry_count;
  run_count = job.run_count;
  last_run_at = job.last_run_at;
  last_result = job.last_result;
  created_at = job.info.created_at;
  action_type = job.action_type;
  action_payload = job.action_payload;
  trace_id = job.trace_id;
  claim_token = job.claim_token;
  claim_expires_at = job.claim_expires_at;
  last_error = Option.map failure_json job.last_error;
  updated_at = job.updated_at;
  revision = job.revision;
}

-- `text or default` and `number or default`
abbrev text_or : String → String → String
text_or default text = if str_eq text "" then default else text

abbrev number_or : ℕ → ℕ → ℕ
number_or default n = if n == 0 then default else n

unfoldable pub row_to_job : JobRow → Job
row_to_job row = record {
  info = record {
    id = row.id;
    name = row.name;
    description = row.description;
    version = text_or "1.0.0" row.version;
    tags = row.tags;
    metadata = row.metadata;
    created_at = row.created_at;
  };
  trigger = record {
    trigger_type = row.trigger_type;
    cron_expression = row.cron_expression;
    interval_seconds = row.interval_seconds;
    run_at = row.run_at;
    event_type = row.event_type;
    timezone = text_or "Asia/Shanghai" row.trigger_timezone;
    next_run_at = row.next_run_at;
  };
  workflow_name = row.workflow_name;
  workflow_variables = row.workflow_variables;
  action_type = text_or "workflow" row.action_type;
  action_payload = row.action_payload;
  trace_id = row.trace_id;
  status = row.status;
  max_retries = row.max_retries;
  timeout = row.timeout;
  max_concurrent = row.max_concurrent;
  retry_count = row.retry_count;
  run_count = row.run_count;
  last_run_at = row.last_run_at;
  last_result = row.last_result;
  last_error = Option.map failure_of_json row.last_error;
  claim_token = row.claim_token;
  claim_expires_at = row.claim_expires_at;
  updated_at = row.updated_at;
  revision = number_or 1 row.revision;
}

unfoldable pub row_to_run : RunRow → JobRun
row_to_run row = record {
  id = row.run_id;
  job_id = row.job_id;
  job_name = "";
  status = row.status;
  started_at = row.started_at;
  finished_at = row.finished_at;
  error = none;
  trace_id = row.trace_id;
  failure = Option.map failure_of_json row.failure;
  attempt = row.attempt;
  claim_token = row.claim_token;
}
