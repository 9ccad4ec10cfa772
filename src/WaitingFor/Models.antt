-- ===== src/WaitingFor/Models.antt =====
-- core/waiting_for/models.py and exceptions.py. The status "open" is `opened`, since `open` is a word
-- of the language. Whether a name is in the time zone database is an argument.
use ai_lab_os.Prelude.{
  ℕ, Bool, true, false, not, ◌&&◌, ◌||◌, Option, none, some, List, [], ◌∷◌, String, str_eq, codes,
  leb, ◌==◌, is_none, is_some, is_blank, strip, if◌then◌else◌, Result, ok, err, length,
}
use ai_lab_os.Json.{Fields, fields_contain_sensitive_key}
use ai_lab_os.Scheduler.Models.{Instant}
use ai_lab_os.TimeText.{before, up_to}
use ai_lab_os.UserTasks.Models.{sensitive_keys}
use ai_lab_os.UserTasks.Spaces.{WorkspaceKey}

pub data WaitingForStatus : Type 0 where
  opened resolved cancelled : WaitingForStatus

pub data WaitingForEventType : Type 0 where
  event_created event_followed_up event_snoozed : WaitingForEventType
  event_resolved event_cancelled event_reopened : WaitingForEventType

pub data WaitingForView : Type 0 where
  view_open view_attention view_due view_overdue : WaitingForView
  view_resolved view_cancelled view_all : WaitingForView

-- WaitingForConflictError, WaitingForNotFoundError, WaitingForWorkspaceMismatchError,
-- WaitingForPersistenceError; a ValidationError or another ValueError.
pub data WaitingForError : Type 0 where
  conflict not_found workspace_mismatch persistence validation : WaitingForError

-- canonical_workspace, as far as it owns items
unfoldable pub canonical_workspace : WorkspaceKey → WorkspaceKey
canonical_workspace key = record {
  tenant_id = if str_eq key.tenant_id "" then "default" else key.tenant_id;
  workspace_id = if str_eq key.workspace_id "" then "default" else key.workspace_id;
  namespace = if str_eq key.namespace "" then "default" else key.namespace;
}

pub record WaitingFor : Type 0 where
  pub id : String
  pub workspace_key : WorkspaceKey
  pub subject : String
  pub waiting_on : String
  pub context : String
  pub status : WaitingForStatus
  pub expected_by : Option Instant
  pub next_review_at : Option Instant
  pub timezone : String
  pub linked_user_task_id : Option String
  pub linked_reminder_id : Option String
  pub source : String
  pub created_at : Instant
  pub updated_at : Instant
  pub resolved_at : Option Instant
  pub cancelled_at : Option Instant
  pub resolution_note : String
  pub metadata : Fields
  pub revision : ℕ

pub record WaitingForEvent : Type 0 where
  pub id : String
  pub waiting_for_id : String
  pub workspace_key : WorkspaceKey
  pub sequence : ℕ
  pub event_type : WaitingForEventType
  pub occurred_at : Instant
  pub note : String
  pub source : String
  pub trace_id : String
  pub metadata : Fields

abbrev pub status_eq : WaitingForStatus → WaitingForStatus → Bool
status_eq WaitingForStatus.opened WaitingForStatus.opened = true
status_eq WaitingForStatus.resolved WaitingForStatus.resolved = true
status_eq WaitingForStatus.cancelled WaitingForStatus.cancelled = true
status_eq _ _ = false

-- Field(min_length=…, max_length=…), which pydantic checks before the validators of the model
unfoldable pub has_length : ℕ → ℕ → String → Bool
has_length least most s = leb least (length (codes s)) && leb (length (codes s)) most

unfoldable pub fits : ℕ → Option String → Bool
unfolding has_length
fits most none = true
fits most (some s) = has_length 0 most s

-- value.startswith(prefix), on code points
unfoldable pub starts_with : List ℕ → List ℕ → Bool
starts_with [] s = true
starts_with (c ∷ prefix) [] = false
starts_with (c ∷ prefix) (d ∷ s) = c == d && starts_with prefix s

-- WaitingFor._validate_state
unfoldable pub has_valid_state : WaitingFor → Bool
has_valid_state item =
    leb item.created_at item.updated_at
    && not (is_some item.resolved_at && is_some item.cancelled_at)
    && elim item.status [
      | WaitingForStatus.opened ↦
          is_none item.resolved_at && is_none item.cancelled_at && str_eq item.resolution_note ""
      | WaitingForStatus.resolved ↦ is_some item.resolved_at && is_none item.cancelled_at
      | WaitingForStatus.cancelled ↦
          is_some item.cancelled_at && is_none item.resolved_at && str_eq item.resolution_note ""
    ]

-- The texts of an item as the validators leave them.
unfoldable pub stripped_item : WaitingFor → WaitingFor
unfolding strip
stripped_item item = record item {
  subject = strip item.subject;
  waiting_on = strip item.waiting_on;
  context = strip item.context;
  source = strip item.source;
  resolution_note = strip item.resolution_note;
}

module _ (is_zone : String → Bool) where
  unfoldable pub has_valid_fields : WaitingFor → Bool
  unfolding has_length fits starts_with sensitive_keys is_blank
  has_valid_fields item =
      has_length 4 80 item.id
      && starts_with (codes "wf_") (codes item.id)
      && has_length 1 500 item.subject
      && not (is_blank item.subject)
      && has_length 1 200 item.waiting_on
      && not (is_blank item.waiting_on)
      && has_length 0 4000 item.context
      && is_zone item.timezone
      && fits 160 item.linked_user_task_id
      && fits 160 item.linked_reminder_id
      && has_length 1 64 item.source
      && not (is_blank item.source)
      && has_length 0 4000 item.resolution_note
      && not (fields_contain_sensitive_key sensitive_keys item.metadata)
      && leb 1 item.revision

  -- WaitingFor.model_validate
  unfoldable pub validate_item : WaitingFor → Result WaitingForError WaitingFor
  unfolding has_valid_fields stripped_item has_valid_state
  validate_item item =
      if has_valid_fields item && has_valid_state (stripped_item item)
      then ok (stripped_item item)
      else err WaitingForError.validation

unfoldable pub has_valid_event_fields : WaitingForEvent → Bool
unfolding has_length starts_with sensitive_keys is_blank
has_valid_event_fields event =
    has_length 5 80 event.id
    && starts_with (codes "wfe_") (codes event.id)
    && has_length 4 80 event.waiting_for_id
    && starts_with (codes "wf_") (codes event.waiting_for_id)
    && leb 1 event.sequence
    && has_length 0 4000 event.note
    && has_length 1 64 event.source
    && not (is_blank event.source)
    && has_length 0 160 event.trace_id
    && not (fields_contain_sensitive_key sensitive_keys event.metadata)

-- WaitingForEvent.model_validate
unfoldable pub validate_event : WaitingForEvent → Result WaitingForError WaitingForEvent
unfolding has_valid_event_fields strip
validate_event event =
    if has_valid_event_fields event
    then ok (record event { note = strip event.note; source = strip event.source })
    else err WaitingForError.validation

abbrev pub is_open : WaitingForStatus → Bool
is_open status = status_eq status WaitingForStatus.opened

unfoldable pub review_due : WaitingFor → Instant → Bool
review_due item now = is_open item.status && up_to item.next_review_at now

unfoldable pub expected_overdue : WaitingFor → Instant → Bool
expected_overdue item now = is_open item.status && before item.expected_by now

unfoldable pub attention_due : WaitingFor → Instant → Bool
unfolding review_due expected_overdue
attention_due item now = review_due item now || expected_overdue item now
