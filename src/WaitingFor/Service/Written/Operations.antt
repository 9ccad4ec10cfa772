-- ===== src/WaitingFor/Service/Written/Operations.antt =====
-- Every method of the service fails before it writes, or ends with one proper call.
use ai_lab_os.Prelude.{Bool, true, false, ◌≡◌, inl, inr, refl, ◌∙◌, List, String, Result, ok, err}
use ai_lab_os.Json.{nothing}
use ai_lab_os.Scheduler.Models.{Instant}
use ai_lab_os.UserTasks.Spaces.{WorkspaceKey}
use ai_lab_os.WaitingFor.Models.{
  WaitingFor, WaitingForEvent, WaitingForEventType, WaitingForStatus, WaitingForError,
  validate_item, validate_event, is_open,
}
use ai_lab_os.WaitingFor.Calls as Calls
use ai_lab_os.WaitingFor.Calls.{Call, run_call, run_calls}
use ai_lab_os.WaitingFor.Writes.{validated-IsVersion}
use ai_lab_os.WaitingFor.History.{status_after}
use ai_lab_os.WaitingFor.Service.{
  BusState, Service, create, create_valid, create_event, new_item, created_event,
}
use ai_lab_os.WaitingFor.Service.Changes.{
  Request, followed_up_item, snoozed_item, follow_up_metadata, review_metadata, record_follow_up,
  snooze, resolve, cancel, reopen, resolved_item, cancelled_item, reopened_item,
}
use ai_lab_os.WaitingFor.Service.Operations.{
  Operation, do_create, do_follow_up, do_snooze, do_resolve, do_cancel, do_reopen, perform,
}
use ai_lab_os.WaitingFor.Service.Written.{
  answer_to, IsWritten, change_item-IsWritten, change_noted-IsWritten,
}

is_open→≡ : (status : WaitingForStatus) → is_open status ≡ true → status ≡ WaitingForStatus.opened
is_open→≡ WaitingForStatus.opened e = refl
is_open→≡ WaitingForStatus.resolved e = cc
is_open→≡ WaitingForStatus.cancelled e = cc

module _ (is_zone : String → Bool) (bus : BusState) (interim : List Call) (service : Service) where
  create_event-IsWritten :
      (item : WaitingFor) (trace_id : String) (valid : Result WaitingForError WaitingForEvent)
      → item.status ≡ WaitingForStatus.opened
      → IsWritten is_zone bus interim service (create_event bus trace_id item valid service)
  unfolding create_event answer_to
  create_event-IsWritten item trace_id (err exc) status = inl (_, refl)
  create_event-IsWritten item trace_id (ok event) status =
      inr ("create", trace_id, Calls.create item event, service.tables, inl refl, status, refl)

  create_valid-IsWritten :
      (draft : WaitingFor) (trace_id : String) (valid : Result WaitingForError WaitingFor)
      (event_of : WaitingFor → Result WaitingForError WaitingForEvent)
      → validate_item is_zone draft ≡ valid
      → draft.status ≡ WaitingForStatus.opened
      → IsWritten is_zone bus interim service (create_valid bus trace_id valid event_of service)
  unfolding create_valid
  create_valid-IsWritten draft trace_id (err exc) event_of valid status = inl (_, refl)
  create_valid-IsWritten draft trace_id (ok item) event_of valid status =
      create_event-IsWritten item trace_id (event_of item)
        ((validated-IsVersion is_zone draft item valid).3 ∙ status)

module _ (is_zone : String → Bool) (iso_text : Instant → String) where
  pub perform-IsWritten :
      (bus : BusState) (key : WorkspaceKey) (interim : List Call) (request : Request)
      (operation : Operation) (service : Service)
      → IsWritten is_zone bus interim service
          (perform is_zone iso_text bus key interim request operation service)
  unfolding perform create new_item record_follow_up snooze resolve cancel reopen status_after
      followed_up_item snoozed_item resolved_item cancelled_item reopened_item
  perform-IsWritten bus key interim request (do_create args fresh_id) service =
      create_valid-IsWritten is_zone bus interim service (new_item key args request.now fresh_id)
        request.trace_id (validate_item is_zone (new_item key args request.now fresh_id))
        (λ item.
          validate_event
            (created_event item args.source request.trace_id request.now request.event_id))
        refl refl
  perform-IsWritten bus key interim request (do_follow_up note next_review_at) service =
      change_noted-IsWritten is_zone bus key interim service request "follow_up" true
        WaitingForEventType.event_followed_up (λ stripped. followed_up_item next_review_at)
        (λ current. follow_up_metadata iso_text current.next_review_at next_review_at) note
        (λ stripped current status. is_open→≡ current.status status)
  perform-IsWritten bus key interim request (do_snooze note next_review_at) service =
      change_item-IsWritten is_zone bus key interim service request "snooze" true
        WaitingForEventType.event_snoozed (snoozed_item next_review_at)
        (λ current. review_metadata iso_text current.next_review_at next_review_at) note
        (λ current status. is_open→≡ current.status status)
  perform-IsWritten bus key interim request (do_resolve note) service =
      change_noted-IsWritten is_zone bus key interim service request "resolve" true
        WaitingForEventType.event_resolved (resolved_item request.now) (λ current. nothing) note
        (λ stripped current status. refl)
  perform-IsWritten bus key interim request (do_cancel note) service =
      change_noted-IsWritten is_zone bus key interim service request "cancel" true
        WaitingForEventType.event_cancelled (λ stripped. cancelled_item request.now)
        (λ current. nothing) note (λ stripped current status. refl)
  perform-IsWritten bus key interim request (do_reopen note next_review_at) service =
      change_noted-IsWritten is_zone bus key interim service request "reopen" false
        WaitingForEventType.event_reopened (λ stripped. reopened_item next_review_at)
        (λ current. nothing) note (λ stripped current status. refl)
