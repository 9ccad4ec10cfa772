-- ===== src/Errors/Mapping.antt =====
-- core/errors/mapping.py: the classification of exceptions, the failure that is made of one, and the HTTP
-- status of a failure. The JSON text of a value is an argument.
pub mod Converted
use Prim.Native.String.{String, ◌++◌}
use ai_lab_os.Prelude.{
  ℕ, Bool, true, false, ◌&&◌, ◌||◌, Option, none, some, List, [], ◌∷◌, str_eq, codes, is_some,
  or_default, if◌then◌else◌,
}
use ai_lab_os.Json.{Json, Fields, nothing, field}
use ai_lab_os.Errors.{ErrorCategory, ErrorSeverity, FailureInfo}
use ai_lab_os.Errors.Redact.{sanitize_text}
use ai_lab_os.Errors.Details.{lowered, is_infix, sanitize_fields}

-- The first of the classes that `_classify` asks for of which the exception is an instance.
pub data ExceptionKind : Type 0 where
  failure_exception : FailureInfo → ExceptionKind
  timeout_error cancelled_error permission_error file_not_found_error : ExceptionKind
  file_exists_error value_error os_error other_error : ExceptionKind

pub record Exception : Type 0 where
  pub kind : ExceptionKind
  pub class_name : String
  pub message : String

abbrev pub Classified : Type 0
Classified = ErrorCategory × Bool

-- The words of the class name and of the message, and the result, in the order of the tests.
abbrev pub WordRule : Type 0
WordRule = List String × List String × ErrorCategory × Bool

unfoldable pub word_rules : List WordRule
word_rules =
    ("notconfigured" ∷ [], "not configured" ∷ [], ErrorCategory.not_configured, false)
    ∷ ("disabled" ∷ [], " disabled" ∷ [], ErrorCategory.disabled, false)
    ∷ ("unavailable" ∷ [], "unavailable" ∷ [], ErrorCategory.unavailable, true)
    ∷ ("notfound" ∷ [], "not found" ∷ [], ErrorCategory.not_found, false)
    ∷ ("alreadyexists" ∷ [], "already exists" ∷ [], ErrorCategory.already_exists, false)
    ∷ ("permission" ∷ "forbidden" ∷ [], [], ErrorCategory.permission_denied, false)
    ∷ ("ratelimit" ∷ [], "rate limit" ∷ [], ErrorCategory.rate_limited, true)
    ∷ ("validation" ∷ [], "invalid" ∷ [], ErrorCategory.validation, false)
    ∷ ("state" ∷ "conflict" ∷ [], [], ErrorCategory.conflict, false)
    ∷ ("timeout" ∷ [], "timed out" ∷ [], ErrorCategory.timeout, true)
    ∷ ("persistence" ∷ "database" ∷ "sqlite" ∷ [], [], ErrorCategory.persistence_failure, true)
    ∷ []

unfoldable pub any_in : List String → List ℕ → Bool
unfolding is_infix
any_in [] s = false
any_in (word ∷ words) s = is_infix (codes word) s || any_in words s

unfoldable pub by_words : List WordRule → List ℕ → List ℕ → Classified
unfolding any_in
by_words [] name message = (ErrorCategory.internal, false)
by_words ((names, messages, category, retryable) ∷ rules) name message =
    let rest = by_words rules name message in
    if any_in names name || any_in messages message then (category, retryable) else rest

-- _classify
unfoldable pub classify : Exception → Classified
unfolding by_words word_rules lowered
classify exception = elim exception.kind [
  | failure_exception failure ↦ (failure.category, failure.retryable)
  | timeout_error ↦ (ErrorCategory.timeout, true)
  | cancelled_error ↦ (ErrorCategory.cancelled, false)
  | permission_error ↦ (ErrorCategory.permission_denied, false)
  | file_not_found_error ↦ (ErrorCategory.not_found, false)
  | file_exists_error ↦ (ErrorCategory.already_exists, false)
  | value_error ↦ (ErrorCategory.validation, false)
  | os_error ↦ (ErrorCategory.unavailable, true)
  | other_error ↦
      by_words word_rules (lowered (codes exception.class_name)) (lowered (codes exception.message))
]

-- category.value
unfoldable pub category_value : ErrorCategory → String
category_value ErrorCategory.validation = "validation"
category_value ErrorCategory.not_found = "not_found"
category_value ErrorCategory.already_exists = "already_exists"
category_value ErrorCategory.not_configured = "not_configured"
category_value ErrorCategory.disabled = "disabled"
category_value ErrorCategory.unavailable = "unavailable"
category_value ErrorCategory.timeout = "timeout"
category_value ErrorCategory.cancelled = "cancelled"
category_value ErrorCategory.conflict = "conflict"
category_value ErrorCategory.dependency_failure = "dependency_failure"
category_value ErrorCategory.execution_failure = "execution_failure"
category_value ErrorCategory.persistence_failure = "persistence_failure"
category_value ErrorCategory.permission_denied = "permission_denied"
category_value ErrorCategory.unauthenticated = "unauthenticated"
category_value ErrorCategory.rate_limited = "rate_limited"
category_value ErrorCategory.internal = "internal"

-- The arguments of failure_from_exception but for the exception.
pub record Conversion : Type 0 where
  pub component : String
  pub operation : String
  pub trace_id : String
  pub code : Option String
  pub category : Option ErrorCategory
  pub retryable : Option Bool
  pub severity : ErrorSeverity
  pub details : Option Fields

-- a or b, on texts
abbrev pub text_or : String → String → String
text_or a b = if str_eq a "" then b else a

-- The message before it is sanitized.
unfoldable pub safe_message : ErrorCategory → Exception → String
safe_message ErrorCategory.internal exception = "Unexpected internal error"
safe_message _ exception = text_or exception.message exception.class_name

unfoldable pub failure_code : Conversion → ErrorCategory → String
unfolding category_value
failure_code conversion category =
    text_or (or_default "" conversion.code)
      (conversion.component ++ "." ++ conversion.operation ++ "." ++ category_value category)

-- failure.model_copy(update={"trace_id": trace_id}), where it is needed
unfoldable pub with_trace : String → FailureInfo → FailureInfo
with_trace trace_id failure =
    if str_eq trace_id "" || not_empty failure.trace_id
    then failure
    else record failure { trace_id = trace_id }
  where
    not_empty : String → Bool
    not_empty s = if str_eq s "" then false else true

-- isinstance(exception, FailureException), and its failure
unfoldable pub carried : ExceptionKind → Option FailureInfo
carried (ExceptionKind.failure_exception failure) = some failure
carried _ = none

unfoldable pub detail_texts : (Json → String) → Fields → List (String × String)
detail_texts json_text nothing = []
detail_texts json_text (field k v fs) = (k, json_text v) ∷ detail_texts json_text fs

module _ (is_other_word : ℕ → Bool) (json_text : Json → String) where
  -- The construction of the failure, with the validators of FailureInfo.
  unfoldable pub new_failure : Exception → Conversion → ErrorCategory → Bool → FailureInfo
  unfolding sanitize_text sanitize_fields detail_texts failure_code safe_message
  new_failure exception conversion category retryable = record {
    code = failure_code conversion category;
    category = category;
    message = sanitize_text is_other_word (safe_message category exception);
    component = conversion.component;
    operation = conversion.operation;
    retryable = retryable;
    severity = conversion.severity;
    trace_id = conversion.trace_id;
    cause_type = exception.class_name;
    details =
        detail_texts json_text
          (sanitize_fields is_other_word (or_default nothing conversion.details));
  }

  unfoldable pub converted : Option FailureInfo → Exception → Conversion → FailureInfo
  unfolding new_failure classify with_trace
  converted (some failure) exception conversion = with_trace conversion.trace_id failure
  converted none exception conversion =
      let (category, retryable) = classify exception in
      new_failure exception conversion (or_default category conversion.category)
        (or_default retryable conversion.retryable)

  unfoldable pub failure_from_exception : Exception → Conversion → FailureInfo
  unfolding converted carried
  failure_from_exception exception conversion =
      converted (carried exception.kind) exception conversion

unfoldable pub http_status_for_failure : FailureInfo → ℕ
http_status_for_failure failure = elim failure.category [
  | ErrorCategory.validation ↦ 400
  | ErrorCategory.not_found ↦ 404
  | ErrorCategory.already_exists ↦ 409
  | ErrorCategory.conflict ↦ 409
  | ErrorCategory.permission_denied ↦ 403
  | ErrorCategory.unauthenticated ↦ 401
  | ErrorCategory.not_configured ↦ 503
  | ErrorCategory.disabled ↦ 503
  | ErrorCategory.unavailable ↦ 503
  | ErrorCategory.dependency_failure ↦ 503
  | ErrorCategory.timeout ↦ 504
  | ErrorCategory.rate_limited ↦ 429
  | _ ↦ 500
]
