-- ===== src/WaitingFor/Service/Serial/Methods.antt =====
-- The same from the method down to `_mutate`.
use ai_lab_os.Prelude.{
  Bool, true, false, ◌≡◌, refl, ◌∙◌, inl, inr, List, String, Result, ok, err, Bool-cases,
  Result-cases, Option-cases, arith,
}
use ai_lab_os.Json.{Fields}
use ai_lab_os.Sql.{IsKeyed}
use ai_lab_os.Sql.Laws.{key-find_key}
use ai_lab_os.UserTasks.Spaces.{WorkspaceKey}
use ai_lab_os.WaitingFor.Models.{WaitingFor, WaitingForEvent, WaitingForEventType, is_open}
use ai_lab_os.WaitingFor.Store as Repository
use ai_lab_os.WaitingFor.Store.{Tables, Stored, item_key, item_values, event_values}
use ai_lab_os.WaitingFor.Calls.{Call, run_calls}
use ai_lab_os.WaitingFor.Writes.{get_ok}
use ai_lab_os.WaitingFor.Service.{BusState, Service, Failure, Outcome, get, got, required_note}
use ai_lab_os.WaitingFor.Service.Mutate.{mutate_item}
use ai_lab_os.WaitingFor.Service.Changes.{
  Request, with_item, with_note, change_item, change_noted, details_of,
}
use ai_lab_os.WaitingFor.Service.Serial.{Changed, mutate_item-Changed}

module _ (is_zone : String → Bool) (bus : BusState) (key : WorkspaceKey) (interim : List Call)
    (service : Service) (keyed : IsKeyed item_key service.tables.items) (item : WaitingFor)
    (event : WaitingForEvent) (last : Service) where
  with_item-ok :
      (found : Result Failure WaitingFor) (wants_open : Bool) (operation trace_id : String)
      (method : WaitingFor → Outcome)
      → with_item found wants_open operation trace_id method service ≡ (ok (item, event), last)
      → (current : WaitingFor) × (found ≡ ok current)
        × (is_open current.status ≡ wants_open)
        × (method current ≡ (ok (item, event), last))
  unfolding with_item
  with_item-ok (err f) wants_open operation trace_id method e = ground arith
  with_item-ok (ok current) true operation trace_id method e =
      elim (Bool-cases (is_open current.status)) [
        | inl active ↦ (current, refl, active, ground arith)
        | inr over ↦ ground arith
      ]
  with_item-ok (ok current) false operation trace_id method e =
      elim (Bool-cases (is_open current.status)) [
        | inl active ↦ ground arith
        | inr over ↦ (current, refl, over, ground arith)
      ]

  found_item :
      (id trace_id : String) (current : WaitingFor)
      → get is_zone key id trace_id service ≡ ok current
      → Repository.get is_zone key id service.tables ≡ ok current
  unfolding get got
  found_item id trace_id current e =
      elim (Result-cases (Repository.get is_zone key id service.tables)) [
        | inl (found, there) ↦ ground arith
        | inr (exc, refused) ↦ ground arith
      ]

  -- A change that answers, of any of the five methods, has read the item in the status that the method
  -- asks for; no other caller has changed it since; the item returned is its next version, which is
  -- stored with one more event, of the number of its revision.
  pub change_item-Changed :
      (request : Request) (operation : String) (wants_open : Bool) (type : WaitingForEventType)
      (update : WaitingFor → WaitingFor) (metadata : WaitingFor → Fields) (note : String)
      → ((current : WaitingFor) → (update current).id ≡ current.id)
      → change_item is_zone bus key interim request operation wants_open type update metadata note
          service
        ≡ (ok (item, event), last)
      → Changed request.waiting_for_id service.tables
          (run_calls is_zone interim service.tables)
          last.tables
          item
          event
  unfolding change_item
  change_item-Changed request operation wants_open type update metadata note same_id e =
      let (current, got_item, _, done) =
        with_item-ok (get is_zone key request.waiting_for_id request.workspace_trace_id service)
          wants_open operation request.trace_id
          (λ current.
            mutate_item is_zone bus key interim current (update current)
              (details_of request operation type note (metadata current)) request.expected_revision
              request.later service)
          e in
      let (row, there, _, version) =
        get_ok is_zone key request.waiting_for_id service.tables current
          (found_item request.waiting_for_id request.workspace_trace_id current got_item) in
      mutate_item-Changed is_zone bus key interim service keyed item event last
        request.waiting_for_id row current (update current)
        (details_of request operation type note (metadata current)) request.expected_revision
        request.later there version.2
        (same_id current
          ∙ version.0
          ∙ key-find_key item_key request.waiting_for_id service.tables.items row there)
        done

  pub change_noted-Changed :
      (request : Request) (operation : String) (wants_open : Bool) (type : WaitingForEventType)
      (update : String → WaitingFor → WaitingFor) (metadata : WaitingFor → Fields) (note : String)
      → ((stripped : String) (current : WaitingFor) → (update stripped current).id ≡ current.id)
      → change_noted is_zone bus key interim request operation wants_open type update metadata note
          service
        ≡ (ok (item, event), last)
      → Changed request.waiting_for_id service.tables
          (run_calls is_zone interim service.tables)
          last.tables
          item
          event
  unfolding change_noted with_note
  change_noted-Changed request operation wants_open type update metadata note same_id e =
      elim (Option-cases (required_note note)) [
        | inl none_there ↦ ground arith
        | inr (stripped, there) ↦
            change_item-Changed request operation wants_open type (update stripped) metadata
              stripped (same_id stripped) (rw there at e)
      ]
