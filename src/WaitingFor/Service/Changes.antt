-- ===== src/WaitingFor/Service/Changes.antt =====
-- record_follow_up, snooze, resolve, cancel and reopen.
use ai_lab_os.Prelude.{
  ℕ, Bool, true, false, Option, none, some, List, String, if◌then◌else◌, Result, ok, err,
}
use ai_lab_os.Json.{Json, Fields, null, text, nothing, field}
use ai_lab_os.Scheduler.Models.{Instant}
use ai_lab_os.UserTasks.Spaces.{WorkspaceKey}
use ai_lab_os.WaitingFor.Models.{
  WaitingFor, WaitingForEventType, WaitingForStatus, WaitingForError, is_open,
}
use ai_lab_os.WaitingFor.Calls.{Call}
use ai_lab_os.WaitingFor.Service.{
  BusState, Failure, Service, Outcome, failure_of, get, required_note,
}
use ai_lab_os.WaitingFor.Service.Mutate.{EventDetails, mutate_item}

-- The arguments that all five methods take; `now` and `later` are what the clock gives to the method
-- and to `_mutate`.
pub record Request : Type 0 where
  pub waiting_for_id : String
  pub expected_revision : ℕ
  pub source : String
  pub trace_id : String
  pub workspace_trace_id : String
  pub now : Instant
  pub later : Instant
  pub event_id : String

-- `_required_note`, and then the method.
unfoldable pub with_note : Option String → String → String → (String → Outcome) → Service → Outcome
unfolding failure_of
with_note none operation trace_id method service =
    (err (failure_of WaitingForError.validation operation trace_id), service)
with_note (some note) operation trace_id method service = method note

-- `get`, and then the method on the item, if its status is the one asked for; a conflict otherwise.
unfoldable pub with_item :
    Result Failure WaitingFor → Bool → String → String → (WaitingFor → Outcome) → Service → Outcome
unfolding failure_of
with_item (err f) wants_open operation trace_id method service = (err f, service)
with_item (ok current) true operation trace_id method service =
    if is_open current.status
    then method current
    else (err (failure_of WaitingForError.conflict operation trace_id), service)
with_item (ok current) false operation trace_id method service =
    if is_open current.status
    then (err (failure_of WaitingForError.conflict operation trace_id), service)
    else method current

unfoldable pub details_of : Request → String → WaitingForEventType → String → Fields → EventDetails
details_of request operation event_type note metadata = record {
  operation = operation;
  event_type = event_type;
  note = note;
  source = request.source;
  trace_id = request.trace_id;
  metadata = metadata;
  event_id = request.event_id;
}

-- a or b, on instants
abbrev pub time_or : Option Instant → Option Instant → Option Instant
time_or none b = b
time_or (some a) b = some a

-- The updates of the methods.
unfoldable pub followed_up_item : Option Instant → WaitingFor → WaitingFor
followed_up_item next_review_at current = record current {
  next_review_at = time_or next_review_at current.next_review_at;
}

unfoldable pub snoozed_item : Instant → WaitingFor → WaitingFor
snoozed_item next_review_at current = record current { next_review_at = some next_review_at }

unfoldable pub resolved_item : Instant → String → WaitingFor → WaitingFor
resolved_item now note current = record current {
  status = WaitingForStatus.resolved;
  resolved_at = some now;
  cancelled_at = none;
  resolution_note = note;
  next_review_at = none;
}

unfoldable pub cancelled_item : Instant → WaitingFor → WaitingFor
cancelled_item now current = record current {
  status = WaitingForStatus.cancelled;
  cancelled_at = some now;
  resolved_at = none;
  resolution_note = "";
  next_review_at = none;
}

unfoldable pub reopened_item : Option Instant → WaitingFor → WaitingFor
reopened_item next_review_at current = record current {
  status = WaitingForStatus.opened;
  resolved_at = none;
  cancelled_at = none;
  resolution_note = "";
  next_review_at = next_review_at;
}

module _ (iso_text : Instant → String) where
  unfoldable pub time_json : Option Instant → Json
  time_json none = null
  time_json (some t) = text (iso_text t)

  unfoldable pub review_metadata : Option Instant → Instant → Fields
  unfolding time_json
  review_metadata previous next =
      field "previous_next_review_at" (time_json previous)
        (field "next_review_at" (text (iso_text next)) nothing)

  unfoldable pub follow_up_metadata : Option Instant → Option Instant → Fields
  unfolding review_metadata
  follow_up_metadata previous none = nothing
  follow_up_metadata previous (some next) = review_metadata previous next

module _ (is_zone : String → Bool) (bus : BusState) (key : WorkspaceKey) (interim : List Call)
    (request : Request) where
  -- The body of the methods: `get`, the check of the status, and `_mutate`.
  unfoldable pub change_item :
      String
      → Bool
      → WaitingForEventType
      → (WaitingFor → WaitingFor)
      → (WaitingFor → Fields)
      → String
      → Service
      → Outcome
  unfolding with_item mutate_item details_of get
  change_item operation wants_open event_type update metadata note service =
      with_item (get is_zone key request.waiting_for_id request.workspace_trace_id service)
        wants_open operation request.trace_id
        (λ current.
          mutate_item is_zone bus key interim current (update current)
            (details_of request operation event_type note (metadata current))
            request.expected_revision request.later service)
        service

  -- The same after `_required_note`.
  unfoldable pub change_noted :
      String
      → Bool
      → WaitingForEventType
      → (String → WaitingFor → WaitingFor)
      → (WaitingFor → Fields)
      → String
      → Service
      → Outcome
  unfolding change_item with_note required_note
  change_noted operation wants_open event_type update metadata note service =
      with_note (required_note note) operation request.trace_id
        (λ stripped.
          change_item operation wants_open event_type (update stripped) metadata stripped service)
        service

module _ (is_zone : String → Bool) (iso_text : Instant → String) (bus : BusState)
    (key : WorkspaceKey) (interim : List Call) (request : Request) where
  unfoldable pub record_follow_up : String → Option Instant → Service → Outcome
  unfolding change_noted follow_up_metadata followed_up_item
  record_follow_up note next_review_at service =
      change_noted is_zone bus key interim request "follow_up" true
        WaitingForEventType.event_followed_up (λ stripped. followed_up_item next_review_at)
        (λ current. follow_up_metadata iso_text current.next_review_at next_review_at) note service

  unfoldable pub snooze : String → Instant → Service → Outcome
  unfolding change_item review_metadata snoozed_item
  snooze note next_review_at service =
      change_item is_zone bus key interim request "snooze" true WaitingForEventType.event_snoozed
        (snoozed_item next_review_at)
        (λ current. review_metadata iso_text current.next_review_at next_review_at) note service

  unfoldable pub resolve : String → Service → Outcome
  unfolding change_noted resolved_item
  resolve resolution_note service =
      change_noted is_zone bus key interim request "resolve" true WaitingForEventType.event_resolved
        (resolved_item request.now) (λ current. nothing) resolution_note service

  unfoldable pub cancel : String → Service → Outcome
  unfolding change_noted cancelled_item
  cancel note service =
      change_noted is_zone bus key interim request "cancel" true WaitingForEventType.event_cancelled
        (λ stripped. cancelled_item request.now) (λ current. nothing) note service

  unfoldable pub reopen : String → Option Instant → Service → Outcome
  unfolding change_noted reopened_item
  reopen note next_review_at service =
      change_noted is_zone bus key interim request "reopen" false WaitingForEventType.event_reopened
        (λ stripped. reopened_item next_review_at) (λ current. nothing) note service
