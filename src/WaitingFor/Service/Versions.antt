-- ===== src/WaitingFor/Service/Versions.antt =====
-- The methods of the service that change an item make its next version.
use ai_lab_os.Prelude.{Bool, true, false, ◌≡◌, refl, List, String, ok}
use ai_lab_os.Json.{nothing}
use ai_lab_os.Sql.{IsKeyed}
use ai_lab_os.Scheduler.Models.{Instant}
use ai_lab_os.UserTasks.Spaces.{WorkspaceKey}
use ai_lab_os.WaitingFor.Models.{WaitingFor, WaitingForEvent, WaitingForEventType}
use ai_lab_os.WaitingFor.Store.{item_key}
use ai_lab_os.WaitingFor.Calls.{Call, run_calls}
use ai_lab_os.WaitingFor.Service.{BusState, Service}
use ai_lab_os.WaitingFor.Service.Changes.{
  Request, record_follow_up, snooze, resolve, cancel, reopen, followed_up_item, snoozed_item,
  resolved_item, cancelled_item, reopened_item, review_metadata, follow_up_metadata,
}
use ai_lab_os.WaitingFor.Service.Operations.{Operation, perform}
use ai_lab_os.WaitingFor.Service.Serial.{Changed}
use ai_lab_os.WaitingFor.Service.Serial.Methods.{change_item-Changed, change_noted-Changed}

-- The methods other than `create`.
abbrev pub IsChange : Operation → Type 0
IsChange (Operation.do_create args fresh_id) = ⊥
IsChange _ = Unit

module _ (is_zone : String → Bool) (iso_text : Instant → String) (bus : BusState)
    (key : WorkspaceKey) (interim : List Call) (request : Request) (service : Service)
    (item : WaitingFor) (event : WaitingForEvent) (last : Service) where
  -- When `record_follow_up`, `snooze`, `resolve`, `cancel` or `reopen` answers on tables whose items have
  -- different ids, no other caller has changed the item since the method read it, whatever they have done
  -- meanwhile: the version that was read is still there at the write; the item returned is its next
  -- version, and the tables are as the others left them but for this version and one more event, of the
  -- number of its revision.
  pub perform-Changed :
      (operation : Operation)
      → IsChange operation
      → IsKeyed item_key service.tables.items
      → perform is_zone iso_text bus key interim request operation service
        ≡ (ok (item, event), last)
      → Changed request.waiting_for_id service.tables
          (run_calls is_zone interim service.tables)
          last.tables
          item
          event
  unfolding perform record_follow_up snooze resolve cancel reopen followed_up_item snoozed_item
      resolved_item cancelled_item reopened_item
  perform-Changed (Operation.do_create args fresh_id) h keyed e = elim h [ ]
  perform-Changed (Operation.do_follow_up note next_review_at) h keyed e =
      change_noted-Changed is_zone bus key interim service keyed item event last request "follow_up"
        true WaitingForEventType.event_followed_up (λ stripped. followed_up_item next_review_at)
        (λ current. follow_up_metadata iso_text current.next_review_at next_review_at) note
        (λ stripped current. refl) e
  perform-Changed (Operation.do_snooze note next_review_at) h keyed e =
      change_item-Changed is_zone bus key interim service keyed item event last request "snooze"
        true WaitingForEventType.event_snoozed (snoozed_item next_review_at)
        (λ current. review_metadata iso_text current.next_review_at next_review_at) note
        (λ current. refl) e
  perform-Changed (Operation.do_resolve note) h keyed e =
      change_noted-Changed is_zone bus key interim service keyed item event last request "resolve"
        true WaitingForEventType.event_resolved (resolved_item request.now) (λ current. nothing)
        note (λ stripped current. refl) e
  perform-Changed (Operation.do_cancel note) h keyed e =
      change_noted-Changed is_zone bus key interim service keyed item event last request "cancel"
        true WaitingForEventType.event_cancelled (λ stripped. cancelled_item request.now)
        (λ current. nothing) note (λ stripped current. refl) e
  perform-Changed (Operation.do_reopen note next_review_at) h keyed e =
      change_noted-Changed is_zone bus key interim service keyed item event last request "reopen"
        false WaitingForEventType.event_reopened (λ stripped. reopened_item next_review_at)
        (λ current. nothing) note (λ stripped current. refl) e
