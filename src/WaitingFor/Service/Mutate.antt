-- ===== src/WaitingFor/Service/Mutate.antt =====
-- WaitingForService._mutate.
use ai_lab_os.Prelude.{ℕ, ◌+◌, Bool, List, String, if◌then◌else◌, Result, ok, err, ◌==◌}
use ai_lab_os.Json.{Fields}
use ai_lab_os.Scheduler.Models.{Instant}
use ai_lab_os.UserTasks.Spaces.{WorkspaceKey}
use ai_lab_os.WaitingFor.Models.{
  WaitingFor, WaitingForEvent, WaitingForEventType, WaitingForError, validate_item, validate_event,
}
use ai_lab_os.WaitingFor.Store as Repository
use ai_lab_os.WaitingFor.Calls.{Call, run_calls}
use ai_lab_os.WaitingFor.Service.{BusState, Service, Outcome, failure_of, after_write}

-- What a mutation writes to the history.
pub record EventDetails : Type 0 where
  pub operation : String
  pub event_type : WaitingForEventType
  pub note : String
  pub source : String
  pub trace_id : String
  pub metadata : Fields
  pub event_id : String

unfoldable pub next_version : WaitingFor → WaitingFor → Instant → WaitingFor
next_version current changed now = record changed {
  updated_at = now;
  revision = current.revision + 1;
}

unfoldable pub next_event : WaitingFor → WaitingFor → EventDetails → Instant → WaitingForEvent
next_event current updated details now = record {
  id = details.event_id;
  waiting_for_id = current.id;
  workspace_key = current.workspace_key;
  sequence = updated.revision;
  event_type = details.event_type;
  occurred_at = now;
  note = details.note;
  source = details.source;
  trace_id = details.trace_id;
  metadata = details.metadata;
}

module _ (is_zone : String → Bool) (bus : BusState) (key : WorkspaceKey) (interim : List Call) where
  unfoldable pub write_event :
      WaitingFor → EventDetails → ℕ → Result WaitingForError WaitingForEvent → Service → Outcome
  unfolding after_write failure_of Repository.mutate run_calls
  write_event updated details expected (err exc) service =
      (err (failure_of exc details.operation details.trace_id), service)
  write_event updated details expected (ok event) service =
      after_write bus details.operation details.trace_id
        (Repository.mutate is_zone key updated event expected
          (run_calls is_zone interim service.tables))
        service

  unfoldable pub write_item :
      WaitingFor
      → EventDetails
      → ℕ
      → Instant
      → Result WaitingForError WaitingFor
      → Service
      → Outcome
  unfolding write_event failure_of next_event validate_event
  write_item current details expected now (err exc) service =
      (err (failure_of exc details.operation details.trace_id), service)
  write_item current details expected now (ok updated) service =
      write_event updated details expected (validate_event (next_event current updated details now))
        service

  -- `changed` is the item with the updates of the method.
  unfoldable pub mutate_item :
      WaitingFor → WaitingFor → EventDetails → ℕ → Instant → Service → Outcome
  unfolding write_item failure_of next_version validate_item
  mutate_item current changed details expected now service =
      if expected == current.revision
      then write_item current details expected now
          (validate_item is_zone (next_version current changed now)) service
      else (err (failure_of WaitingForError.conflict details.operation details.trace_id), service)
