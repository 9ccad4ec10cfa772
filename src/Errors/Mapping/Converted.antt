-- ===== src/Errors/Mapping/Converted.antt =====
-- What a failure that is made of an exception shows, and what is kept of it when it is raised on.
use Prim.Native.String.{String}
use mathlib.Core.Path.{subst}
use ai_lab_os.Prelude.{
  ℕ, Bool, false, ◌≡◌, refl, sym, ap, ◌∙◌, inl, inr, none, List, [], ◌∷◌, str_eq, or_default,
  eq_iff, Bool-cases,
}
use ai_lab_os.Json.{Json, Fields, nothing}
use ai_lab_os.Errors.{ErrorCategory, FailureInfo}
use ai_lab_os.Errors.Redact.{bearer_match, search, sanitize_text}
use ai_lab_os.Errors.Redact.Tokens.{search-sanitize_text}
use ai_lab_os.Errors.Details.{sanitize_fields, fields_leak, leaks-sanitize_fields}
use ai_lab_os.Errors.Mapping.{
  ExceptionKind, Exception, Conversion, classify, text_or, safe_message, with_trace, carried,
  converted, detail_texts, new_failure, failure_from_exception, http_status_for_failure,
}

-- What the texts of a failure must not show, and the message of an internal one.
abbrev pub IsDiscreet : (ℕ → Bool) → (Json → String) → FailureInfo → Type 0
IsDiscreet is_other_word json_text failure =
    (search is_other_word bearer_match false failure.message ≡ false)
    × ((fs : Fields) × (failure.details ≡ detail_texts json_text fs)
        × (fields_leak is_other_word fs ≡ false))
    × (failure.category ≡ ErrorCategory.internal → failure.message ≡ "Unexpected internal error")

module _ (is_other_word : ℕ → Bool) (json_text : Json → String) where
  internal_message :
      (category : ErrorCategory) (exception : Exception)
      → category ≡ ErrorCategory.internal
      → sanitize_text is_other_word (safe_message category exception) ≡ "Unexpected internal error"
  unfolding safe_message sanitize_text
  internal_message category exception e =
      ap (λ c. sanitize_text is_other_word (safe_message c exception)) e

  new_failure-IsDiscreet :
      (exception : Exception) (conversion : Conversion) (category : ErrorCategory)
      (retryable : Bool)
      → IsDiscreet is_other_word json_text
          (new_failure is_other_word json_text exception conversion category retryable)
  unfolding new_failure
  new_failure-IsDiscreet exception conversion category retryable = (
    (search-sanitize_text is_other_word (safe_message category exception)).0,
    (
      sanitize_fields is_other_word (or_default nothing conversion.details),
      refl,
      leaks-sanitize_fields is_other_word (or_default nothing conversion.details),
    ),
    internal_message category exception,
  )

  -- The failure that is made of an exception without one has no bearer token in its message. At any depth
  -- of its details the value under the name of a secret is redacted, and no text value has a bearer token.
  -- The message of an internal error is a fixed text. The names of details and `cause_type`, and other
  -- secrets than these, are left as they are.
  pub failure_from_exception-IsDiscreet :
      (exception : Exception) (conversion : Conversion)
      → carried exception.kind ≡ none
      → IsDiscreet is_other_word json_text
          (failure_from_exception is_other_word json_text exception conversion)
  unfolding failure_from_exception converted
  failure_from_exception-IsDiscreet exception conversion plain = rw plain (
      new_failure-IsDiscreet exception conversion
        (or_default (classify exception).0 conversion.category)
        (or_default (classify exception).1 conversion.retryable))

-- raise FailureException(failure)
abbrev pub raised : FailureInfo → Exception
raised failure = record {
  kind = ExceptionKind.failure_exception failure;
  class_name = "FailureException";
  message = failure.message;
}

-- Layers of the system that catch a failure and convert it again.
unfoldable pub convert_all :
    (ℕ → Bool) → (Json → String) → List Conversion → FailureInfo → FailureInfo
unfolding failure_from_exception
convert_all is_other_word json_text [] failure = failure
convert_all is_other_word json_text (conversion ∷ conversions) failure =
    convert_all is_other_word json_text conversions
      (failure_from_exception is_other_word json_text (raised failure) conversion)

-- The first trace id that is not empty.
abbrev pub first_trace : String → List Conversion → String
first_trace trace_id [] = trace_id
first_trace trace_id (conversion ∷ conversions) =
    first_trace (text_or trace_id conversion.trace_id) conversions

with_trace_lem :
    (trace_id : String) (failure : FailureInfo)
    → with_trace trace_id failure ≡ record failure { trace_id = text_or failure.trace_id trace_id }
unfolding with_trace
with_trace_lem trace_id failure = elim (Bool-cases (str_eq failure.trace_id "")) [
  | inr traced ↦ elim (Bool-cases (str_eq trace_id "")) [
    | inl empty ↦ rw (empty, traced) refl
    | inr given ↦ rw (given, traced) refl
  ]
  | inl untraced ↦ elim (Bool-cases (str_eq trace_id "")) [
    | inl empty ↦
        rw (empty, untraced)
          (ap (λ t. record failure { trace_id = t })
            ((eq_iff failure.trace_id "").0 untraced ∙ sym ((eq_iff trace_id "").0 empty)))
    | inr given ↦ rw (given, untraced) refl
  ]
]

-- The failure but for its trace id, and what is read off it.
abbrev pub IsKept : FailureInfo → String → FailureInfo → Type 0
IsKept failure trace_id last =
    (last ≡ record failure { trace_id = trace_id })
    × (http_status_for_failure last ≡ http_status_for_failure failure)
    × (classify (raised last) ≡ (failure.category, failure.retryable))

-- However often a failure is raised and converted again, by whatever layers with whatever arguments, all
-- of it stays but for an empty trace id, which takes the first one that a layer gives; and so do its HTTP
-- status and its classification.
pub convert_all-IsKept :
    (is_other_word : ℕ → Bool) (json_text : Json → String) (conversions : List Conversion)
    (failure : FailureInfo)
    → IsKept failure
        (first_trace failure.trace_id conversions)
        (convert_all is_other_word json_text conversions failure)
unfolding convert_all failure_from_exception converted carried classify http_status_for_failure
convert_all-IsKept is_other_word json_text [] failure = (refl, refl, refl)
convert_all-IsKept is_other_word json_text (conversion ∷ conversions) failure =
    subst
      (λ g.
        IsKept failure (first_trace failure.trace_id (conversion ∷ conversions))
          (convert_all is_other_word json_text conversions g))
      (sym (with_trace_lem conversion.trace_id failure))
      (convert_all-IsKept is_other_word json_text conversions
        (record failure { trace_id = text_or failure.trace_id conversion.trace_id }))
