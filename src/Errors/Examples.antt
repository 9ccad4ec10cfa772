-- ===== src/Errors/Examples.antt =====
-- The theorems on failures at concrete inputs.
use Prim.Native.String.{String}
use ai_lab_os.Prelude.{ℕ, Bool, true, false, ◌≡◌, refl, none, some, [], ◌∷◌}
use ai_lab_os.Json.{Json, text, number, nothing, field}
use ai_lab_os.Errors.{ErrorCategory, ErrorSeverity}
use ai_lab_os.Errors.Redact.{bearer_match, key_match, sub, search, sanitize_text}
use ai_lab_os.Errors.Redact.Tokens.{search-sanitize_text}
use ai_lab_os.Errors.Mapping.{ExceptionKind, Exception, Conversion, carried, failure_from_exception}
use ai_lab_os.Errors.Mapping.Converted.{
  IsDiscreet, failure_from_exception-IsDiscreet, convert_all, IsKept, convert_all-IsKept,
}

abbrev ascii : ℕ → Bool
ascii c = false

abbrev shown : Json → String
shown (text s) = s
shown _ = "..."

abbrev log_line : String
log_line = "key sk-abcd_1234-, BEARER  abc.def/12 and bearer short"

redacts : sanitize_text ascii log_line ≡ "key <REDACTED>-, <REDACTED> and bearer short"
unfolding sanitize_text
redacts = refl

-- Next to a letter beyond ASCII there is no boundary, and the key stays.
keeps_key :
    (sanitize_text (λ c. true) "密钥sk-abcdefgh1" ≡ "密钥sk-abcdefgh1")
    × (sanitize_text (λ c. true) "sk-abcdefghé" ≡ "sk-abcdefghé")
unfolding sanitize_text
keeps_key = (refl, refl)

search-sanitize_text_example :
    (search ascii bearer_match false (sanitize_text ascii log_line) ≡ false)
    × (search ascii bearer_match false (sub ascii bearer_match false 0 log_line) ≡ false)
    × (search ascii (key_match ascii) false (sub ascii (key_match ascii) false 0 log_line) ≡ false)
search-sanitize_text_example = search-sanitize_text ascii log_line

abbrev broken : Exception
broken = record {
  kind = ExceptionKind.other_error;
  class_name = "DatabaseError";
  message = "bearer 123456789 refused";
}

abbrev layer : String → Conversion
layer trace_id = record {
  component = "inbox";
  operation = "read";
  trace_id = trace_id;
  code = none;
  category = none;
  retryable = none;
  severity = ErrorSeverity.error;
  details = some (field "Access-Token" (number "5") (field "at" (text "Bearer abc123456") nothing));
}

failure_from_exception-IsDiscreet_example :
    IsDiscreet ascii shown (failure_from_exception ascii shown broken (layer ""))
unfolding carried
failure_from_exception-IsDiscreet_example =
    failure_from_exception-IsDiscreet ascii shown broken (layer "") refl

converts : failure_from_exception ascii shown broken (layer "") ≡ record {
  code = "inbox.read.persistence_failure";
  category = ErrorCategory.persistence_failure;
  message = "<REDACTED> refused";
  component = "inbox";
  operation = "read";
  retryable = true;
  severity = ErrorSeverity.error;
  trace_id = "";
  cause_type = "DatabaseError";
  details = ("Access-Token", "<REDACTED>") ∷ ("at", "<REDACTED>") ∷ [];
}
unfolding failure_from_exception
converts = refl

convert_all-IsKept_example : IsKept (failure_from_exception ascii shown broken (layer "")) "t1" (
    convert_all ascii shown
      (layer "" ∷ layer "t1" ∷ layer "t2" ∷ [])
      (failure_from_exception ascii shown broken (layer "")))
unfolding failure_from_exception
convert_all-IsKept_example =
    convert_all-IsKept ascii shown (layer "" ∷ layer "t1" ∷ layer "t2" ∷ [])
      (failure_from_exception ascii shown broken (layer ""))
