-- ===== src/WaitingFor/Service/Queries.antt =====
-- `list` and `list_events` of WaitingForService. A view that WaitingForView does not have is `none`;
-- an `as_of` without a time zone is not an instant, and is not modelled.
use ai_lab_os.Prelude.{
  ℕ, Bool, ◌||◌, Option, none, some, List, String, ltb, if◌then◌else◌, or_default, Result, ok, err,
}
use ai_lab_os.Scheduler.Models.{Instant}
use ai_lab_os.UserTasks.Spaces.{WorkspaceKey}
use ai_lab_os.WaitingFor.Models.{WaitingFor, WaitingForEvent, WaitingForView, WaitingForError}
use ai_lab_os.WaitingFor.Listing as Repository
use ai_lab_os.WaitingFor.Listing.{Page}
use ai_lab_os.WaitingFor.Service.{Service, Failure, failure_of}

-- The page, with `has_more`.
abbrev pub Listed : Type 0 → Type 0
Listed A = Result Failure (List A × Bool)

unfoldable pub page_answer : {A : Type 0} → String → String → Page A → Listed A
unfolding failure_of
page_answer operation trace_id (ok items, has_more) = ok (items, has_more)
page_answer operation trace_id (err exc, has_more) = err (failure_of exc operation trace_id)

unfoldable pub is_bad_limit : ℕ → Bool
is_bad_limit limit = ltb limit 1 || ltb 200 limit

module _ (json_tail : ℕ → List ℕ) (is_zone : String → Bool) (key : WorkspaceKey)
    (trace_id : String) where
  unfoldable pub list :
      Option WaitingForView → ℕ → ℕ → Option Instant → Instant → Service → Listed WaitingFor
  unfolding page_answer is_bad_limit failure_of Repository.list
  list none limit offset as_of now service =
      err (failure_of WaitingForError.validation "list" trace_id)
  list (some view) limit offset as_of now service =
      if is_bad_limit limit
      then err (failure_of WaitingForError.validation "list" trace_id)
      else page_answer "list" trace_id (
          Repository.list json_tail is_zone key view (or_default now as_of) limit offset
            service.tables)

unfoldable pub list_events :
    WorkspaceKey → String → String → ℕ → ℕ → Service → Listed WaitingForEvent
unfolding page_answer is_bad_limit failure_of Repository.list_events
list_events key trace_id waiting_for_id limit offset service =
    if is_bad_limit limit
    then err (failure_of WaitingForError.validation "events" trace_id)
    else page_answer "events" trace_id
        (Repository.list_events key waiting_for_id limit offset service.tables)
