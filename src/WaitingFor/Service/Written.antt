-- ===== src/WaitingFor/Service/Written.antt =====
-- What a method of the service does: it fails before it writes, or it ends with one proper call of the
-- repository.
pub mod Operations
use mathlib.Core.Path.{subst}
use ai_lab_os.Prelude.{
  ℕ, Bool, true, false, ◌≡◌, ◌⊎◌, refl, sym, ap, ◌∙◌, inl, inr, Option, none, some, List, [], ◌∷◌,
  String, Result, ok, err, ◌==◌, Bool-cases, arith, All,
}
use ai_lab_os.Json.{Fields, nothing}
use ai_lab_os.Scheduler.Models.{Instant}
use ai_lab_os.UserTasks.Spaces.{WorkspaceKey}
use ai_lab_os.WaitingFor.Models.{
  WaitingFor, WaitingForEvent, WaitingForEventType, WaitingForStatus, WaitingForError,
  validate_item, validate_event, is_open, has_valid_event_fields,
}
use ai_lab_os.WaitingFor.Store as Repository
use ai_lab_os.WaitingFor.Store.{Tables, Stored}
use ai_lab_os.WaitingFor.Calls as Calls
use ai_lab_os.WaitingFor.Calls.{Call, run_call, run_calls}
use ai_lab_os.WaitingFor.Writes.{validated-IsVersion}
use ai_lab_os.WaitingFor.History.{
  HasHistory, IsProper, status_after, run_call-HasHistory, run_calls-HasHistory,
}
use ai_lab_os.WaitingFor.Service.{
  BusState, no_bus, delivers, raises, Failure, Service, Outcome, publish, after_write, get,
  required_note, create, create_valid, create_event, new_item, created_event,
}
use ai_lab_os.WaitingFor.Service.Mutate.{
  EventDetails, mutate_item, write_item, write_event, next_version, next_event,
}
use ai_lab_os.WaitingFor.Service.Changes.{
  Request, with_note, with_item, change_item, change_noted, details_of, followed_up_item,
  snoozed_item, follow_up_metadata, review_metadata, record_follow_up, snooze, resolve, cancel,
  reopen, resolved_item, cancelled_item, reopened_item,
}
use ai_lab_os.WaitingFor.Service.Operations.{
  Operation, do_create, do_follow_up, do_snooze, do_resolve, do_cancel, do_reopen, Step, perform,
  perform_all,
}

-- What the repository answers to a call.
unfoldable pub answer_to : (String → Bool) → Call → Tables → Stored
unfolding Repository.create Repository.mutate
answer_to is_zone (Calls.create item event) tables = Repository.create item event tables
answer_to is_zone (Calls.mutate key updated event revision) tables =
    Repository.mutate is_zone key updated event revision tables

-- The tables on which a method writes: those that it found, or those that others left it.
abbrev pub IsOn : Tables → Tables → Tables → Type 0
IsOn found left tables = (tables ≡ found) ⊎ (tables ≡ left)

abbrev pub IsWritten : (String → Bool) → BusState → List Call → Service → Outcome → Type 0
IsWritten is_zone bus interim service outcome =
    ((f : Failure) × (outcome ≡ (err f, service)))
    ⊎ ((operation : String) × (trace_id : String) × (call : Call) × (tables : Tables) × IsOn
          service.tables (run_calls is_zone interim service.tables) tables
        × IsProper call
        × (outcome ≡ after_write bus operation trace_id (answer_to is_zone call tables) service))

pub after_write-tables :
    (bus : BusState) (operation trace_id : String) (stored : Stored) (service : Service)
    → (after_write bus operation trace_id stored service).1.tables ≡ stored.1
unfolding after_write publish
after_write-tables no_bus operation trace_id (ok (item, event), tables) service = refl
after_write-tables delivers operation trace_id (ok (item, event), tables) service = refl
after_write-tables raises operation trace_id (ok (item, event), tables) service = refl
after_write-tables bus operation trace_id (err exc, tables) service = refl

pub validated_event :
    (event result : WaitingForEvent)
    → validate_event event ≡ ok result
    → (result.event_type ≡ event.event_type)
      × (result.waiting_for_id ≡ event.waiting_for_id)
      × (result.sequence ≡ event.sequence)
unfolding validate_event
validated_event event result e = elim (Bool-cases (has_valid_event_fields event)) [
  | inl valid ↦ ground arith
  | inr bad ↦ ground arith
]

module _ (is_zone : String → Bool) (bus : BusState) (key : WorkspaceKey) (interim : List Call)
    (service : Service) where
  abbrev Written : Outcome → Type 0
  Written = IsWritten is_zone bus interim service

  write_event-IsWritten :
      (updated : WaitingFor) (details : EventDetails) (expected : ℕ) (draft : WaitingForEvent)
      (valid : Result WaitingForError WaitingForEvent)
      → validate_event draft ≡ valid
      → updated.status ≡ status_after draft.event_type
      → Written (write_event is_zone bus key interim updated details expected valid service)
  unfolding write_event answer_to
  write_event-IsWritten updated details expected draft (err exc) valid status = inl (_, refl)
  write_event-IsWritten updated details expected draft (ok event) valid status =
      let (type, _, _) = validated_event draft event valid in
      inr (
        details.operation,
        details.trace_id,
        Calls.mutate key updated event expected,
        run_calls is_zone interim service.tables,
        inr refl,
        status ∙ ap status_after (sym type),
        refl,
      )

  write_item-IsWritten :
      (current draft : WaitingFor) (details : EventDetails) (expected : ℕ) (now : Instant)
      (valid : Result WaitingForError WaitingFor)
      → validate_item is_zone draft ≡ valid
      → draft.status ≡ status_after details.event_type
      → Written (write_item is_zone bus key interim current details expected now valid service)
  unfolding write_item next_event
  write_item-IsWritten current draft details expected now (err exc) valid status = inl (_, refl)
  write_item-IsWritten current draft details expected now (ok updated) valid status =
      write_event-IsWritten updated details expected (next_event current updated details now)
        (validate_event (next_event current updated details now)) refl
        ((validated-IsVersion is_zone draft updated valid).3 ∙ status)

  mutate_item-IsWritten :
      (current changed : WaitingFor) (details : EventDetails) (expected : ℕ) (now : Instant)
      → changed.status ≡ status_after details.event_type
      → Written (mutate_item is_zone bus key interim current changed details expected now service)
  unfolding mutate_item next_version
  mutate_item-IsWritten current changed details expected now status =
      elim (Bool-cases (expected == current.revision)) [
        | inr stale ↦ rw stale (inl (_, refl))
        | inl fresh ↦ rw fresh (
            write_item-IsWritten current (next_version current changed now) details expected now
              (validate_item is_zone (next_version current changed now)) refl status)
      ]

  with_item-IsWritten :
      (found : Result Failure WaitingFor) (wants_open : Bool) (operation trace_id : String)
      (method : WaitingFor → Outcome)
      → ((current : WaitingFor) → is_open current.status ≡ wants_open → Written (method current))
      → Written (with_item found wants_open operation trace_id method service)
  unfolding with_item
  with_item-IsWritten (err f) wants_open operation trace_id method told = inl (f, refl)
  with_item-IsWritten (ok current) true operation trace_id method told =
      elim (Bool-cases (is_open current.status)) [
        | inl e ↦ rw e (told current e)
        | inr e ↦ rw e (inl (_, refl))
      ]
  with_item-IsWritten (ok current) false operation trace_id method told =
      elim (Bool-cases (is_open current.status)) [
        | inl e ↦ rw e (inl (_, refl))
        | inr e ↦ rw e (told current e)
      ]

  module _ (request : Request) (operation : String) (wants_open : Bool)
      (type : WaitingForEventType) where
    -- The update of the method gives the status that its event tells.
    abbrev IsAgreed : (WaitingFor → WaitingFor) → Type 0
    IsAgreed update =
        (current : WaitingFor)
        → is_open current.status ≡ wants_open
        → (update current).status ≡ status_after type

    pub change_item-IsWritten :
        (update : WaitingFor → WaitingFor) (metadata : WaitingFor → Fields) (note : String)
        → IsAgreed update
        → Written (
            change_item is_zone bus key interim request operation wants_open type update metadata
              note service)
    unfolding change_item details_of
    change_item-IsWritten update metadata note agreed =
        with_item-IsWritten
          (get is_zone key request.waiting_for_id request.workspace_trace_id service) wants_open
          operation request.trace_id
          (λ current.
            mutate_item is_zone bus key interim current (update current)
              (details_of request operation type note (metadata current)) request.expected_revision
              request.later service)
          (λ current status.
            mutate_item-IsWritten current (update current)
              (details_of request operation type note (metadata current)) request.expected_revision
              request.later (agreed current status))

    with_note-IsWritten :
        (checked : Option String) (method : String → Outcome)
        → ((stripped : String) → Written (method stripped))
        → Written (with_note checked operation request.trace_id method service)
    unfolding with_note
    with_note-IsWritten none method told = inl (_, refl)
    with_note-IsWritten (some stripped) method told = told stripped

    pub change_noted-IsWritten :
        (update : String → WaitingFor → WaitingFor) (metadata : WaitingFor → Fields) (note : String)
        → ((stripped : String) → IsAgreed (update stripped))
        → Written (
            change_noted is_zone bus key interim request operation wants_open type update metadata
              note service)
    unfolding change_noted
    change_noted-IsWritten update metadata note agreed =
        with_note-IsWritten (required_note note)
          (λ stripped.
            change_item is_zone bus key interim request operation wants_open type (update stripped)
              metadata stripped service)
          (λ stripped. change_item-IsWritten (update stripped) metadata stripped (agreed stripped))
