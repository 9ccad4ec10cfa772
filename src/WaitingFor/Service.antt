-- ===== src/WaitingFor/Service.antt =====
-- WaitingForService of core/waiting_for/service.py: what its methods share, create, get and health. The
-- calls of the repository that others make between the read and the write of a method are an argument.
-- A `trace_id` is the one of the call, or that of the workspace key where it is empty.
pub mod Mutate
pub mod Changes
pub mod Operations
pub mod Written
pub mod Told
pub mod Serial
pub mod Versions
pub mod Queries
pub mod Failed
use ai_lab_os.Prelude.{
  ℕ, ◌+◌, Bool, true, false, not, ◌&&◌, ◌||◌, Option, none, some, List, [], ◌∷◌, ◌++◌, String,
  codes, ltb, length, is_blank, strip, if◌then◌else◌, or_default, Result, ok, err, is_some,
}
use ai_lab_os.Errors.{ErrorCategory}
use ai_lab_os.Json.{Fields, nothing}
use ai_lab_os.Scheduler.Models.{Instant}
use ai_lab_os.UserTasks.Spaces.{WorkspaceKey}
use ai_lab_os.WaitingFor.Models.{
  WaitingFor, WaitingForEvent, WaitingForEventType, WaitingForStatus, WaitingForError,
  canonical_workspace, validate_item, validate_event,
}
use ai_lab_os.WaitingFor.Store as Repository
use ai_lab_os.WaitingFor.Store.{Tables, Stored}

-- What the bus does with an event: there is none or it is not running, it takes it, or it raises.
pub data BusState : Type 0 where
  no_bus delivers raises : BusState

pub record Notice : Type 0 where
  pub event_type : WaitingForEventType
  pub waiting_for_id : String
  pub event_id : String
  pub status : WaitingForStatus
  pub revision : ℕ
  pub trace_id : String

pub record Service : Type 0 where
  pub tables : Tables
  pub notices : List Notice
  pub has_bus_failure : Bool

pub record Failure : Type 0 where
  pub category : ErrorCategory
  pub operation : String
  pub trace_id : String
  pub retryable : Bool

abbrev pub Outcome : Type 0
Outcome = Result Failure (WaitingFor × WaitingForEvent) × Service

-- The failures of _raise_validation, _raise_conflict, _raise_not_found and _raise_persistence.
unfoldable pub category_of : WaitingForError → ErrorCategory
category_of WaitingForError.validation = ErrorCategory.validation
category_of WaitingForError.conflict = ErrorCategory.conflict
category_of WaitingForError.not_found = ErrorCategory.not_found
category_of WaitingForError.workspace_mismatch = ErrorCategory.not_found
category_of WaitingForError.persistence = ErrorCategory.persistence_failure

unfoldable pub is_retryable : WaitingForError → Bool
is_retryable WaitingForError.persistence = true
is_retryable _ = false

unfoldable pub failure_of : WaitingForError → String → String → Failure
unfolding category_of is_retryable
failure_of exc operation trace_id = record {
  category = category_of exc;
  operation = operation;
  trace_id = trace_id;
  retryable = is_retryable exc;
}

-- _publish
unfoldable pub publish : BusState → WaitingFor → WaitingForEvent → Service → Service
publish no_bus item event service = service
publish raises item event service = record service { has_bus_failure = true }
publish delivers item event service = record service {
  has_bus_failure = false;
  notices =
      service.notices
      ++ record {
        event_type = event.event_type;
        waiting_for_id = item.id;
        event_id = event.id;
        status = item.status;
        revision = item.revision;
        trace_id = event.trace_id;
      }
        ∷ [];
}

-- The end of `create` and of `_mutate`.
unfoldable pub after_write : BusState → String → String → Stored → Service → Outcome
unfolding publish failure_of
after_write bus operation trace_id (ok (item, event), tables) service =
    (ok (item, event), publish bus item event (record service { tables = tables }))
after_write bus operation trace_id (err exc, tables) service =
    (err (failure_of exc operation trace_id), record service { tables = tables })

-- The arguments of `create`, but for the workspace and the trace.
pub record NewItem : Type 0 where
  pub subject : String
  pub waiting_on : String
  pub context : String
  pub expected_by : Option Instant
  pub next_review_at : Option Instant
  pub timezone : String
  pub linked_user_task_id : Option String
  pub linked_reminder_id : Option String
  pub source : String
  pub metadata : Option Fields
  pub waiting_for_id : Option String

unfoldable pub new_item : WorkspaceKey → NewItem → Instant → String → WaitingFor
unfolding canonical_workspace
new_item key args now fresh_id = record {
  id = or_default fresh_id args.waiting_for_id;
  workspace_key = canonical_workspace key;
  subject = args.subject;
  waiting_on = args.waiting_on;
  context = args.context;
  status = WaitingForStatus.opened;
  expected_by = args.expected_by;
  next_review_at = args.next_review_at;
  timezone = args.timezone;
  linked_user_task_id = args.linked_user_task_id;
  linked_reminder_id = args.linked_reminder_id;
  source = args.source;
  created_at = now;
  updated_at = now;
  resolved_at = none;
  cancelled_at = none;
  resolution_note = "";
  metadata = or_default nothing args.metadata;
  revision = 1;
}

unfoldable pub created_event : WaitingFor → String → String → Instant → String → WaitingForEvent
created_event item source trace_id now event_id = record {
  id = event_id;
  waiting_for_id = item.id;
  workspace_key = item.workspace_key;
  sequence = 1;
  event_type = WaitingForEventType.event_created;
  occurred_at = now;
  note = "";
  source = source;
  trace_id = trace_id;
  metadata = nothing;
}

-- The write of `create`, once the item and then the event is validated.
unfoldable pub create_event :
    BusState → String → WaitingFor → Result WaitingForError WaitingForEvent → Service → Outcome
unfolding after_write failure_of Repository.create
create_event bus trace_id item (err exc) service = (err (failure_of exc "create" trace_id), service)
create_event bus trace_id item (ok event) service =
    after_write bus "create" trace_id (Repository.create item event service.tables) service

unfoldable pub create_valid :
    BusState
    → String
    → Result WaitingForError WaitingFor
    → (WaitingFor → Result WaitingForError WaitingForEvent)
    → Service
    → Outcome
unfolding create_event failure_of
create_valid bus trace_id (err exc) event_of service =
    (err (failure_of exc "create" trace_id), service)
create_valid bus trace_id (ok item) event_of service =
    create_event bus trace_id item (event_of item) service

module _ (is_zone : String → Bool) where
  unfoldable pub create :
      BusState → WorkspaceKey → NewItem → String → Instant → String → String → Service → Outcome
  unfolding create_valid new_item created_event validate_item validate_event
  create bus key args trace_id now fresh_id event_id service =
      create_valid bus trace_id (validate_item is_zone (new_item key args now fresh_id))
        (λ item. validate_event (created_event item args.source trace_id now event_id)) service

  unfoldable pub got : Result WaitingForError WaitingFor → String → Result Failure WaitingFor
  unfolding failure_of
  got (ok item) trace_id = ok item
  got (err exc) trace_id = err (failure_of exc "get" trace_id)

  unfoldable pub get : WorkspaceKey → String → String → Service → Result Failure WaitingFor
  unfolding got Repository.get
  get key waiting_for_id trace_id service =
      got (Repository.get is_zone key waiting_for_id service.tables) trace_id

-- _required_note
unfoldable pub required_note : String → Option String
unfolding is_blank strip
required_note note =
    if is_blank note || ltb 4000 (length (codes (strip note))) then none else some (strip note)

-- The health of the service while that of the repository is good.
unfoldable pub is_degraded : Service → Bool
is_degraded service = service.has_bus_failure
