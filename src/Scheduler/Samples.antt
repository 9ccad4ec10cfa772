-- ===== src/Scheduler/Samples.antt =====
-- Sample jobs, rows and databases for the tests.
use ai_lab_os.Prelude.{none, some, [], pos, ◌*◌, ◌+◌}
use ai_lab_os.Scheduler.Models.{
  Instant, JobStatus, JobRunStatus, Trigger, TriggerType, Job, JobRun, day, second,
}

-- 2026-07-30T00:00:00 UTC
abbrev pub midnight : Instant
midnight = 739461 * day

abbrev pub every_minute : Trigger
every_minute = record {
  trigger_type = TriggerType.cron;
  cron_expression = "* * * * *";
  interval_seconds = pos 0;
  run_at = none;
  event_type = "";
  timezone = "Asia/Shanghai";
  next_run_at = some midnight;
}

abbrev pub report : Job
report = record {
  info = record {
    id = "j1";
    name = "report";
    description = "";
    version = "1.0.0";
    tags = [];
    metadata = [];
    created_at = midnight;
  };
  trigger = every_minute;
  workflow_name = "report";
  workflow_variables = [];
  action_type = "workflow";
  action_payload = [];
  trace_id = "t1";
  status = JobStatus.active;
  max_retries = pos 3;
  timeout = pos 300;
  max_concurrent = 1;
  retry_count = 0;
  run_count = 0;
  last_run_at = none;
  last_result = "";
  last_error = none;
  claim_token = none;
  claim_expires_at = none;
  updated_at = midnight;
  revision = 1;
}

-- A run of the job under the claim "a".
abbrev pub report_run : JobRun
report_run = record {
  id = "r1";
  job_id = "j1";
  job_name = "report";
  status = JobRunStatus.success;
  started_at = midnight;
  finished_at = some (midnight + second);
  error = none;
  trace_id = "t1";
  failure = none;
  attempt = 1;
  claim_token = "a";
}
