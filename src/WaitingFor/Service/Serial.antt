-- ===== src/WaitingFor/Service/Serial.antt =====
-- A method of the service that answers has changed the version that it read, and added one event.
pub mod Methods
use ai_lab_os.Prelude.{
  ℕ, ◌+◌, Bool, true, false, ◌≡◌, refl, sym, ap, ◌∙◌, inl, inr, some, List, [], ◌∷◌, ◌++◌, String,
  Result, ok, err, ◌==◌, Bool-cases, Result-cases, Option-cases, arith,
}
use ai_lab_os.Json.{Fields}
use ai_lab_os.Sql.{IsKeyed}
use ai_lab_os.Sql.Laws.{key-find_key}
use ai_lab_os.Sql.Put.{put}
use ai_lab_os.Scheduler.Models.{Instant}
use ai_lab_os.UserTasks.Spaces.{WorkspaceKey}
use ai_lab_os.WaitingFor.Models.{
  WaitingFor, WaitingForEvent, WaitingForEventType, WaitingForError, validate_item, validate_event,
  is_open,
}
use ai_lab_os.WaitingFor.Store as Repository
use ai_lab_os.WaitingFor.Store.{Tables, Stored, item_key, item_values, event_values}
use ai_lab_os.WaitingFor.Calls.{Call, run_calls}
use ai_lab_os.WaitingFor.Writes.{get_ok, mutate_outcome, validated-IsVersion}
use ai_lab_os.WaitingFor.Revisions.{at, run_calls-Grown}
use ai_lab_os.WaitingFor.Service.{
  BusState, Service, Failure, Outcome, after_write, failure_of, get, got, required_note,
}
use ai_lab_os.WaitingFor.Service.Mutate.{
  EventDetails, mutate_item, write_item, write_event, next_version, next_event,
}
use ai_lab_os.WaitingFor.Service.Changes.{
  Request, with_item, with_note, change_item, change_noted, details_of,
}
use ai_lab_os.WaitingFor.Service.Written.{after_write-tables}

-- From the version `row` of the item `id`, which no one had changed in the tables `written`, to the
-- next one, with one event more.
abbrev pub Changed : String → Tables → Tables → Tables → WaitingFor → WaitingForEvent → Type 0
Changed id read written after item event =
    (row : WaitingFor) × (at id read ≡ some row)
    × (at id written ≡ some row)
    × (item.id ≡ id)
    × (item.revision ≡ row.revision + 1)
    × (event.sequence ≡ item.revision)
    × (event.waiting_for_id ≡ id)
    × (after ≡ record {
      items = put item_key (item_values item) written.items;
      events = written.events ++ event_values event ∷ [];
    })

abbrev record_of : List WaitingFor → List WaitingForEvent → Tables
record_of items events = record { items = items; events = events }

after_write_ok :
    (bus : BusState) (operation trace_id : String) (stored : Stored) (service last : Service)
    (item : WaitingFor) (event : WaitingForEvent)
    → after_write bus operation trace_id stored service ≡ (ok (item, event), last)
    → (stored.0 ≡ ok (item, event)) × (last.tables ≡ stored.1)
unfolding after_write
after_write_ok bus operation trace_id (ok (made, told), tables) service last item event e = (
  ground arith,
  ap (λ (o : Outcome). o.1.tables) (sym e)
      ∙ after_write-tables bus operation trace_id (ok (made, told), tables) service,
)
after_write_ok bus operation trace_id (err exc, tables) service last item event e = ground arith

module _ (is_zone : String → Bool) (bus : BusState) (key : WorkspaceKey) (interim : List Call)
    (service : Service) (keyed : IsKeyed item_key service.tables.items) (item : WaitingFor)
    (event : WaitingForEvent) (last : Service) where
  -- The mutation of the repository has answered.
  mutated-Changed :
      (id : String) (row updated : WaitingFor) (draft : WaitingForEvent) (revision : ℕ)
      → at id service.tables ≡ some row
      → revision ≡ row.revision
      → updated.id ≡ id
      → (Repository.mutate is_zone key updated draft revision
          (run_calls is_zone interim service.tables)).0
        ≡ ok (item, event)
      → (Repository.mutate is_zone key updated draft revision
          (run_calls is_zone interim service.tables)).1
        ≡ last.tables
      → Changed id service.tables (run_calls is_zone interim service.tables) last.tables item event
  mutated-Changed id row updated draft revision there at_revision same_id answer after =
      let written = run_calls is_zone interim service.tables in
      let (grown, keyed') = run_calls-Grown is_zone interim service.tables id row keyed there in
      elim (mutate_outcome is_zone key updated draft revision written keyed') [
        | inl (exc, refused, _) ↦ ground arith
        | inr (done, (found, e, _, version, next, named, numbered, tables)) ↦
            let same_item : updated ≡ item = ground arith in
            let same_event : draft ≡ event = ground arith in
            let e' : at id written ≡ some found = ap (λ k. at k written) (sym same_id) ∙ e in
            let kept : found ≡ row = elim grown [
              | inl same ↦ ground arith
              | inr (later, e'', lt) ↦
                  let there' : found ≡ later = ground arith in
                  let revisions : found.revision ≡ later.revision =
                    ap (λ (r : WaitingFor). r.revision) there' in
                  absurd (omega arith)
            ] in
            (
              row,
              there,
              e' ∙ ap some kept,
              ap (λ (i : WaitingFor). i.id) (sym same_item) ∙ same_id,
              ap (λ (i : WaitingFor). i.revision) (sym same_item)
                  ∙ next
                  ∙ ap (λ n. n + 1) at_revision,
              ap (λ (t : WaitingForEvent). t.sequence) (sym same_event)
                  ∙ numbered
                  ∙ sym next
                  ∙ ap (λ (i : WaitingFor). i.revision) same_item,
              ap (λ (t : WaitingForEvent). t.waiting_for_id) (sym same_event) ∙ named ∙ same_id,
              sym after
                  ∙ tables
                  ∙ ap
                      (λ (i : WaitingFor).
                        record_of (put item_key (item_values i) written.items)
                          (written.events ++ event_values draft ∷ []))
                      same_item
                  ∙ ap
                      (λ (t : WaitingForEvent).
                        record_of (put item_key (item_values item) written.items)
                          (written.events ++ event_values t ∷ []))
                      same_event,
            )
      ]

  write_event-Changed :
      (id : String) (row updated : WaitingFor) (details : EventDetails) (expected : ℕ)
      (valid : Result WaitingForError WaitingForEvent)
      → at id service.tables ≡ some row
      → expected ≡ row.revision
      → updated.id ≡ id
      → write_event is_zone bus key interim updated details expected valid service
        ≡ (ok (item, event), last)
      → Changed id service.tables (run_calls is_zone interim service.tables) last.tables item event
  unfolding write_event
  write_event-Changed id row updated details expected (err exc) there same_revision same_id e =
      ground arith
  write_event-Changed id row updated details expected (ok draft) there same_revision same_id e =
      let stored =
        Repository.mutate is_zone key updated draft expected
          (run_calls is_zone interim service.tables) in
      let (answer, tables) =
        after_write_ok bus details.operation details.trace_id stored service last item event e in
      mutated-Changed id row updated draft expected there same_revision same_id answer (sym tables)

  write_item-Changed :
      (id : String) (row current draft : WaitingFor) (details : EventDetails) (expected : ℕ)
      (now : Instant) (valid : Result WaitingForError WaitingFor)
      → at id service.tables ≡ some row
      → expected ≡ row.revision
      → draft.id ≡ id
      → validate_item is_zone draft ≡ valid
      → write_item is_zone bus key interim current details expected now valid service
        ≡ (ok (item, event), last)
      → Changed id service.tables (run_calls is_zone interim service.tables) last.tables item event
  unfolding write_item
  write_item-Changed id row current draft details expected now (err exc) there same same_id valid
        e =
      ground arith
  write_item-Changed id row current draft details expected now (ok updated) there same same_id valid
        e =
      write_event-Changed id row updated details expected
        (validate_event (next_event current updated details now)) there same
        ((validated-IsVersion is_zone draft updated valid).0 ∙ same_id) e

  fresh_write :
      (current changed : WaitingFor) (details : EventDetails) (expected : ℕ) (now : Instant)
      → (expected == current.revision) ≡ true
      → mutate_item is_zone bus key interim current changed details expected now service
        ≡ write_item is_zone bus key interim current details expected now
            (validate_item is_zone (next_version current changed now))
            service
  unfolding mutate_item
  fresh_write current changed details expected now fresh = rw fresh refl

  stale_write :
      (current changed : WaitingFor) (details : EventDetails) (expected : ℕ) (now : Instant)
      → (expected == current.revision) ≡ false
      → mutate_item is_zone bus key interim current changed details expected now service
        ≡ (err (failure_of WaitingForError.conflict details.operation details.trace_id), service)
  unfolding mutate_item
  stale_write current changed details expected now stale = rw stale refl

  pub mutate_item-Changed :
      (id : String) (row current changed : WaitingFor) (details : EventDetails) (expected : ℕ)
      (now : Instant)
      → at id service.tables ≡ some row
      → current.revision ≡ row.revision
      → changed.id ≡ id
      → mutate_item is_zone bus key interim current changed details expected now service
        ≡ (ok (item, event), last)
      → Changed id service.tables (run_calls is_zone interim service.tables) last.tables item event
  unfolding next_version
  mutate_item-Changed id row current changed details expected now there version same_id e =
      elim (Bool-cases (expected == current.revision)) [
        | inr stale ↦ let refused = stale_write current changed details expected now stale in cc
        | inl fresh ↦
            let same : expected ≡ row.revision = ground arith in
            write_item-Changed id row current (next_version current changed now) details expected
              now (validate_item is_zone (next_version current changed now)) there same same_id refl
              (sym (fresh_write current changed details expected now fresh) ∙ e)
      ]
