-- ===== src/WaitingFor/Service/Failed.antt =====
-- A method of the service that fails writes nothing.
use ai_lab_os.Prelude.{
  ℕ, Bool, not, ◌||◌, ◌≡◌, ◌⊎◌, refl, sym, ◌∙◌, inl, inr, List, String, Result, ok, err, ◌==◌,
  is_some, Bool-cases,
}
use mathlib.Core.Path.{subst}
use ai_lab_os.Sql.{count_where, find_key}
use ai_lab_os.Scheduler.Models.{Instant}
use ai_lab_os.UserTasks.Spaces.{WorkspaceKey}
use ai_lab_os.WaitingFor.Models.{WaitingFor, WaitingForEvent, WaitingForError, canonical_workspace}
use ai_lab_os.WaitingFor.Store as Repository
use ai_lab_os.WaitingFor.Store.{
  Tables, Stored, item_key, item_values, event_values, same_identity, is_taken_event,
  matches_created, matches_request, selects, update_guard, mutate_loaded,
}
use ai_lab_os.WaitingFor.Calls as Calls
use ai_lab_os.WaitingFor.Calls.{Call, run_calls}
use ai_lab_os.WaitingFor.Service.{BusState, Service, Outcome, after_write}
use ai_lab_os.WaitingFor.Service.Changes.{Request}
use ai_lab_os.WaitingFor.Service.Written.{answer_to, IsOn, IsWritten}
use ai_lab_os.WaitingFor.Service.Written.Operations.{perform-IsWritten}
use ai_lab_os.WaitingFor.Service.Operations.{Operation, perform}

-- A failure leaves the tables as they were or as the calls of others left them, and publishes nothing.
abbrev pub IsAtomic : Service → Tables → Outcome → Type 0
IsAtomic service written (ok answer, last) = Unit
IsAtomic service written (err exc, last) =
    ((last.tables ≡ service.tables) ⊎ (last.tables ≡ written)) × (last.notices ≡ service.notices)

-- A refused write of the repository.
abbrev IsRefused : Tables → Stored → Type 0
IsRefused tables (ok answer, after) = Unit
IsRefused tables (err exc, after) = after ≡ tables

create-IsRefused :
    (item : WaitingFor) (event : WaitingForEvent) (tables : Tables)
    → IsRefused tables (Repository.create item event tables)
unfolding Repository.create
create-IsRefused item event tables = elim (Bool-cases (matches_created item event)) [
  | inr differ ↦ rw differ refl
  | inl agree ↦
      elim (Bool-cases
        (is_some (find_key item_key item.id tables.items) || is_taken_event event tables.events)) [
          | inl taken ↦ rw (agree, taken) refl
          | inr free ↦ rw (agree, free) tt
        ]
]

module _ (is_zone : String → Bool) (key : WorkspaceKey) (updated : WaitingFor)
    (event : WaitingForEvent) (revision : ℕ) (tables : Tables) where
  loaded-IsRefused :
      (read : Result WaitingForError WaitingFor)
      → IsRefused tables (mutate_loaded is_zone key updated event revision read tables)
  unfolding mutate_loaded
  loaded-IsRefused (err exc) = refl
  loaded-IsRefused (ok current) =
      let written =
        selects updated.id (update_guard (canonical_workspace updated.workspace_key) revision) in
      elim (Bool-cases (
        not (same_identity current.workspace_key (canonical_workspace key))
        || not (current.revision == revision)
        || not (count_where written tables.items == 1)
        || is_taken_event event tables.events)) [
          | inl refused ↦ rw refused refl
          | inr written ↦ rw written tt
        ]

  mutate-IsRefused : IsRefused tables (Repository.mutate is_zone key updated event revision tables)
  unfolding Repository.mutate
  mutate-IsRefused = elim (Bool-cases (matches_request key updated event revision)) [
    | inl agree ↦ rw agree (loaded-IsRefused (Repository.get is_zone key updated.id tables))
    | inr differ ↦ rw differ refl
  ]

after_write-IsAtomic :
    (bus : BusState) (operation trace_id : String) (left tables : Tables) (stored : Stored)
    (service : Service)
    → IsOn service.tables left tables
    → IsRefused tables stored
    → IsAtomic service left (after_write bus operation trace_id stored service)
unfolding after_write
after_write-IsAtomic bus operation trace_id left tables (ok answer, after) service on refused = tt
after_write-IsAtomic bus operation trace_id left tables (err exc, after) service on refused =
    (elim on [ inl found ↦ inl (refused ∙ found) | inr others ↦ inr (refused ∙ others) ], refl)

answer_to-IsRefused :
    (is_zone : String → Bool) (call : Call) (tables : Tables)
    → IsRefused tables (answer_to is_zone call tables)
unfolding answer_to
answer_to-IsRefused is_zone (Calls.create item event) tables = create-IsRefused item event tables
answer_to-IsRefused is_zone (Calls.mutate key updated event revision) tables =
    mutate-IsRefused is_zone key updated event revision tables

written-IsAtomic :
    (is_zone : String → Bool) (bus : BusState) (interim : List Call) (service : Service)
    (outcome : Outcome)
    → IsWritten is_zone bus interim service outcome
    → IsAtomic service (run_calls is_zone interim service.tables) outcome
written-IsAtomic is_zone bus interim service outcome (inl (f, e)) =
    subst (IsAtomic service (run_calls is_zone interim service.tables)) (sym e) (inl refl, refl)
written-IsAtomic is_zone bus interim service outcome
      (inr (operation, trace_id, call, tables, on, _, e)) =
    subst (IsAtomic service (run_calls is_zone interim service.tables)) (sym e) (
      after_write-IsAtomic bus operation trace_id (run_calls is_zone interim service.tables) tables
        (answer_to is_zone call tables) service on (answer_to-IsRefused is_zone call tables))

-- When create, record_follow_up, snooze, resolve, cancel or reopen fails, on whatever branch, the tables
-- are as they were before the method, or as the calls of others in between have left them, and nothing
-- is published.
pub perform-IsAtomic :
    (is_zone : String → Bool) (iso_text : Instant → String) (bus : BusState) (key : WorkspaceKey)
    (interim : List Call) (request : Request) (operation : Operation) (service : Service)
    → IsAtomic service
        (run_calls is_zone interim service.tables)
        (perform is_zone iso_text bus key interim request operation service)
perform-IsAtomic is_zone iso_text bus key interim request operation service =
    written-IsAtomic is_zone bus interim service
      (perform is_zone iso_text bus key interim request operation service)
      (perform-IsWritten is_zone iso_text bus key interim request operation service)
