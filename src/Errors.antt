-- ===== src/Errors.antt =====
-- core/errors: the failure record that the runtimes share (codes.py and models.py). The text of a
-- failure is taken as it stands after the sanitizers of models.py; `details` maps each key to the
-- JSON text of its value.
pub mod Redact
pub mod Details
pub mod Mapping
mod Examples
use ai_lab_os.Prelude.{Bool, List, String}

pub data ErrorCategory : Type 0 where
  validation not_found already_exists not_configured disabled unavailable : ErrorCategory
  timeout cancelled conflict dependency_failure execution_failure : ErrorCategory
  persistence_failure permission_denied unauthenticated rate_limited internal : ErrorCategory

pub data ErrorSeverity : Type 0 where
  info warning error critical : ErrorSeverity

pub record FailureInfo : Type 0 where
  pub code : String
  pub category : ErrorCategory
  pub message : String
  pub component : String
  pub operation : String
  pub retryable : Bool
  pub severity : ErrorSeverity
  pub trace_id : String
  pub cause_type : String
  pub details : List (String × String)
