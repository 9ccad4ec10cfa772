-- ===== src/WaitingFor/History.antt =====
-- The history of every item: its events are numbered from 1 to its revision, in the order of the table,
-- and an item whose events say so has the status of its last event.
use mathlib.Core.Path.{subst}
use ai_lab_os.Prelude.{
  ℕ, zero, suc, Bool, true, ◌≡◌, refl, sym, ap, ◌∙◌, inl, inr, Option, none, some, List, [], ◌∷◌,
  ◌++◌, String, str_eq, eq_iff, if◌then◌else◌, Bool-cases, arith, All,
}
use ai_lab_os.Sql.{find_key, IsKeyed}
use ai_lab_os.Sql.Laws.{IsKeyed-append, find_key-insert}
use ai_lab_os.Sql.Put.{find_key-put, IsKeyed-put}
use ai_lab_os.UserTasks.Spaces.{WorkspaceKey}
use ai_lab_os.WaitingFor.Models.{WaitingFor, WaitingForEvent, WaitingForEventType, WaitingForStatus}
use ai_lab_os.WaitingFor.Store.{Tables, item_key, item_values, event_values, is_created}
use ai_lab_os.WaitingFor.Calls.{Call, create, mutate, run_call, run_calls}
use ai_lab_os.WaitingFor.Writes.{IsCreated, IsMutated, create_outcome, mutate_outcome}

-- The events of an item, as `list_events` finds them.
unfoldable pub events_of : String → List WaitingForEvent → List WaitingForEvent
events_of id [] = []
events_of id (e ∷ events) =
    let rest = events_of id events in if str_eq e.waiting_for_id id then e ∷ rest else rest

-- 1, …, n
unfoldable pub numbers : ℕ → List ℕ
numbers zero = []
numbers (suc n) = numbers n ++ suc n ∷ []

unfoldable pub sequences : List WaitingForEvent → List ℕ
sequences [] = []
sequences (e ∷ events) = e.sequence ∷ sequences events

-- The status that an event leaves an item with.
unfoldable pub status_after : WaitingForEventType → WaitingForStatus
status_after WaitingForEventType.event_resolved = WaitingForStatus.resolved
status_after WaitingForEventType.event_cancelled = WaitingForStatus.cancelled
status_after _ = WaitingForStatus.opened

-- The status that a history tells.
unfoldable pub replay : List WaitingForEvent → Option WaitingForStatus
unfolding status_after
replay [] = none
replay (e ∷ []) = some (status_after e.event_type)
replay (e ∷ e' ∷ events) = replay (e' ∷ events)

sequences-append :
    (events : List WaitingForEvent) (e : WaitingForEvent)
    → sequences (events ++ e ∷ []) ≡ sequences events ++ e.sequence ∷ []
unfolding sequences
sequences-append [] e = refl
sequences-append (x ∷ events) e = ap (λ t. x.sequence ∷ t) (sequences-append events e)

replay-append :
    (events : List WaitingForEvent) (e : WaitingForEvent)
    → replay (events ++ e ∷ []) ≡ some (status_after e.event_type)
unfolding replay
replay-append [] e = refl
replay-append (x ∷ []) e = refl
replay-append (x ∷ y ∷ events) e = replay-append (y ∷ events) e

events_of-append :
    (id : String) (events : List WaitingForEvent) (e : WaitingForEvent)
    → events_of id (events ++ e ∷ [])
      ≡ (if str_eq e.waiting_for_id id then events_of id events ++ e ∷ [] else events_of id events)
unfolding events_of
events_of-append id [] e = refl
events_of-append id (x ∷ events) e = ground (arith, events_of-append id events e)

-- What the tables have of one id: no item and no event, or an item with its whole history.
abbrev pub IsTold : Option WaitingFor → List WaitingForEvent → Type 0
IsTold none events = events ≡ []
IsTold (some item) events =
    (sequences events ≡ numbers item.revision) × (replay events ≡ some item.status)

pub record HasHistory (tables : Tables) : Type 0 where
  pub keyed : IsKeyed item_key tables.items
  pub told : (id : String) → IsTold (find_key item_key id tables.items) (events_of id tables.events)

-- The event of the call says what becomes of the status.
abbrev pub IsProper : Call → Type 0
IsProper (create item event) = item.status ≡ WaitingForStatus.opened
IsProper (mutate key updated event revision) = updated.status ≡ status_after event.event_type

-- One id, when an item is put and its next event added.
IsTold-put :
    (events : List WaitingForEvent) (item : WaitingFor) (event : WaitingForEvent) (n : ℕ)
    → (sequences events ≡ numbers n)
    → item.revision ≡ suc n
    → event.sequence ≡ suc n
    → item.status ≡ status_after event.event_type
    → IsTold (some item) (events ++ event ∷ [])
unfolding numbers
IsTold-put events item event n before next numbered status = (
  sequences-append events event
      ∙ ap (λ t. t ++ event.sequence ∷ []) before
      ∙ ap (λ m. numbers n ++ m ∷ []) numbered
      ∙ ap numbers (sym next),
  replay-append events event ∙ ap some (sym status),
)

retold :
    (o o' : Option WaitingFor) (es es' : List WaitingForEvent)
    → o ≡ o'
    → es ≡ es'
    → IsTold o' es'
    → IsTold o es
retold o o' es es' p q told = subst (λ x. IsTold x es) (sym p) (subst (IsTold o') (sym q) told)

created-status :
    (type : WaitingForEventType)
    → is_created type ≡ true
    → WaitingForStatus.opened ≡ status_after type
unfolding is_created status_after
created-status WaitingForEventType.event_created e = refl
created-status WaitingForEventType.event_followed_up e = refl
created-status WaitingForEventType.event_snoozed e = refl
created-status WaitingForEventType.event_reopened e = refl
created-status WaitingForEventType.event_resolved e = cc
created-status WaitingForEventType.event_cancelled e = cc

created-HasHistory :
    (item : WaitingFor) (event : WaitingForEvent) (old new : Tables)
    → HasHistory old
    → item.status ≡ WaitingForStatus.opened
    → IsCreated item event old new
    → HasHistory new
unfolding item_values event_values numbers sequences
created-HasHistory item event old new h proper (free, named, first, numbered, kind, e) =
    subst HasHistory (sym e) (record {
      keyed = IsKeyed-append item_key old.items (item_values item) free h.keyed;
      told = λ id.
          let found = find_key-insert item_key id old.items (item_values item) free in
          let events =
            events_of-append id old.events (event_values event)
            ∙ ap
                (λ k.
                  if str_eq k id
                  then events_of id old.events ++ event_values event ∷ []
                  else events_of id old.events)
                named in
          elim (Bool-cases (str_eq item.id id)) [
            | inr miss ↦ retold _ _ _ _ (found ∙ rw miss) (events ∙ rw miss) (h.told id)
            | inl hit ↦
                let same : item.id ≡ id = (eq_iff item.id id).0 hit in
                let absent : find_key item_key id old.items ≡ none =
                  ap (λ k. find_key item_key k old.items) (sym same) ∙ free in
                let empty : events_of id old.events ≡ [] =
                  subst (λ o. IsTold o (events_of id old.events)) absent (h.told id) in
                retold _ (some (item_values item)) _
                  (events_of id old.events ++ event_values event ∷ []) (found ∙ rw hit)
                  (events ∙ rw hit)
                  (IsTold-put (events_of id old.events) (item_values item) (event_values event) 0
                    (ap sequences empty) first numbered
                    (proper ∙ created-status event.event_type kind))
          ];
    })

mutated-HasHistory :
    (key : WorkspaceKey) (updated : WaitingFor) (event : WaitingForEvent) (revision : ℕ)
    (old new : Tables)
    → HasHistory old
    → updated.status ≡ status_after event.event_type
    → IsMutated key updated event revision old new
    → HasHistory new
unfolding item_values event_values
mutated-HasHistory key updated event revision old new h proper
      (row, there, _, at, next, named, numbered, e) =
    subst HasHistory (sym e) (record {
      keyed = IsKeyed-put item_key (item_values updated) old.items h.keyed;
      told = λ id.
          let found = find_key-put item_key (item_values updated) id old.items row there in
          let events =
            events_of-append id old.events (event_values event)
            ∙ ap
                (λ k.
                  if str_eq k id
                  then events_of id old.events ++ event_values event ∷ []
                  else events_of id old.events)
                named in
          elim (Bool-cases (str_eq updated.id id)) [
            | inr miss ↦ retold _ _ _ _ (found ∙ rw miss) (events ∙ rw miss) (h.told id)
            | inl hit ↦
                let same : updated.id ≡ id = (eq_iff updated.id id).0 hit in
                let before : find_key item_key id old.items ≡ some row =
                  ap (λ k. find_key item_key k old.items) (sym same) ∙ there in
                let (counted, _) : IsTold (some row) (events_of id old.events) =
                  subst (λ o. IsTold o (events_of id old.events)) before (h.told id) in
                retold _ (some (item_values updated)) _
                  (events_of id old.events ++ event_values event ∷ []) (found ∙ rw hit)
                  (events ∙ rw hit)
                  (IsTold-put (events_of id old.events) (item_values updated) (event_values event)
                    revision (counted ∙ ap numbers at) (next ∙ omega arith) (numbered ∙ omega arith)
                    proper)
          ];
    })

module _ (is_zone : String → Bool) where
  pub run_call-HasHistory :
      (call : Call) (tables : Tables)
      → HasHistory tables
      → IsProper call
      → HasHistory (run_call is_zone call tables)
  unfolding run_call
  run_call-HasHistory (create item event) tables h proper =
      elim (create_outcome item event tables) [
        | inl (_, same) ↦ subst HasHistory (sym same) h
        | inr (_, created) ↦ created-HasHistory item event tables _ h proper created
      ]
  run_call-HasHistory (mutate key updated event revision) tables h proper =
      elim (mutate_outcome is_zone key updated event revision tables h.keyed) [
        | inl (_, _, same) ↦ subst HasHistory (sym same) h
        | inr (_, mutated) ↦ mutated-HasHistory key updated event revision tables _ h proper mutated
      ]

  -- Any sequence of proper calls, of any callers, keeps the whole history of every item: as many events
  -- as its revision says, numbered from 1 in their order, of which the last one tells its status; and no
  -- event is without its item.
  pub run_calls-HasHistory :
      (calls : List Call) (tables : Tables)
      → HasHistory tables
      → All IsProper calls
      → HasHistory (run_calls is_zone calls tables)
  unfolding run_calls
  run_calls-HasHistory [] tables h proper = h
  run_calls-HasHistory (call ∷ calls) tables h proper =
      run_calls-HasHistory calls (run_call is_zone call tables)
        (run_call-HasHistory call tables h proper.0) proper.1
