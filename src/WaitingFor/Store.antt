-- ===== src/WaitingFor/Store.antt =====
-- SQLiteWaitingForRepository of core/waiting_for/repository.py: `create`, `get` and `mutate`. A row has
-- the fields of its item or event, with the canonical workspace.
use ai_lab_os.Prelude.{
  ℕ, ◌+◌, Bool, true, false, not, ◌&&◌, ◌||◌, Option, none, some, List, [], ◌∷◌, ◌++◌, String,
  str_eq, ◌==◌, is_some, if◌then◌else◌, Result, ok, err,
}
use ai_lab_os.Sql.{update_where, count_where, find_key}
use ai_lab_os.UserTasks.Spaces.{WorkspaceKey, same_workspace}
use ai_lab_os.WaitingFor.Models.{
  WaitingFor, WaitingForEvent, WaitingForEventType, WaitingForError, canonical_workspace,
  validate_item,
}

pub record Tables : Type 0 where
  pub items : List WaitingFor
  pub events : List WaitingForEvent

abbrev pub item_key : WaitingFor → String
item_key item = item.id

abbrev pub event_key : WaitingForEvent → String
event_key event = event.id

-- _item_values and _event_values
unfoldable pub item_values : WaitingFor → WaitingFor
unfolding canonical_workspace
item_values item = record item { workspace_key = canonical_workspace item.workspace_key }

unfoldable pub event_values : WaitingForEvent → WaitingForEvent
unfolding canonical_workspace
event_values event = record event { workspace_key = canonical_workspace event.workspace_key }

-- _workspace_identity(a) == _workspace_identity(b)
abbrev pub same_identity : WorkspaceKey → WorkspaceKey → Bool
unfolding canonical_workspace
same_identity a b = same_workspace (canonical_workspace a) (canonical_workspace b)

abbrev pub Stored : Type 0
Stored = Result WaitingForError (WaitingFor × WaitingForEvent) × Tables

-- UNIQUE(waiting_for_id, sequence)
unfoldable pub is_same_step : WaitingForEvent → WaitingForEvent → Bool
is_same_step event row =
    str_eq row.waiting_for_id event.waiting_for_id && row.sequence == event.sequence

-- The INSERT of an event violates its primary key or the unique constraint.
unfoldable pub is_taken_event : WaitingForEvent → List WaitingForEvent → Bool
unfolding is_same_step
is_taken_event event events =
    is_some (find_key event_key event.id events)
    || not (count_where (is_same_step event) events == 0)

unfoldable pub is_created : WaitingForEventType → Bool
is_created WaitingForEventType.event_created = true
is_created _ = false

unfoldable pub matches_created : WaitingFor → WaitingForEvent → Bool
unfolding canonical_workspace is_created
matches_created item event =
    same_identity item.workspace_key event.workspace_key
    && str_eq event.waiting_for_id item.id
    && item.revision == 1
    && event.sequence == item.revision
    && is_created event.event_type

-- Both inserts are one transaction, which an IntegrityError rolls back.
unfoldable pub create : WaitingFor → WaitingForEvent → Tables → Stored
unfolding matches_created is_taken_event item_values event_values
create item event tables =
    if not (matches_created item event)
    then (err WaitingForError.conflict, tables)
    else if is_some (find_key item_key item.id tables.items) || is_taken_event event tables.events
    then (err WaitingForError.conflict, tables)
    else (
      ok (item, event),
      record {
        items = tables.items ++ item_values item ∷ [];
        events = tables.events ++ event_values event ∷ [];
      },
    )

-- What a row loads as; one that is not valid is a failure of the repository.
unfoldable pub loaded : Result WaitingForError WaitingFor → Result WaitingForError WaitingFor
loaded (ok item) = ok item
loaded (err exc) = err WaitingForError.persistence

-- What a mutation has to agree on before the transaction.
unfoldable pub matches_request : WorkspaceKey → WaitingFor → WaitingForEvent → ℕ → Bool
unfolding canonical_workspace
matches_request key updated event expected_revision =
    same_identity (canonical_workspace key) updated.workspace_key
    && same_identity (canonical_workspace key) event.workspace_key
    && updated.revision == expected_revision + 1
    && str_eq event.waiting_for_id updated.id
    && event.sequence == updated.revision

-- WHERE id=? AND tenant_id=? AND workspace_id=? AND namespace=? AND revision=?
unfoldable pub update_guard : WorkspaceKey → ℕ → WaitingFor → Bool
update_guard workspace expected_revision row =
    same_workspace row.workspace_key workspace && row.revision == expected_revision

unfoldable pub selects : String → (WaitingFor → Bool) → WaitingFor → Bool
selects id guard row = str_eq row.id id && guard row

module _ (is_zone : String → Bool) where
  -- _scoped_row, and the item of the row
  unfoldable pub scoped : WorkspaceKey → Option WaitingFor → Result WaitingForError WaitingFor
  unfolding loaded validate_item
  scoped workspace none = err WaitingForError.not_found
  scoped workspace (some row) =
      if same_workspace row.workspace_key workspace
      then loaded (validate_item is_zone row)
      else err WaitingForError.workspace_mismatch

  unfoldable pub get : WorkspaceKey → String → Tables → Result WaitingForError WaitingFor
  unfolding scoped canonical_workspace
  get key waiting_for_id tables =
      scoped (canonical_workspace key) (find_key item_key waiting_for_id tables.items)

  -- The transaction once the row is loaded.
  unfoldable pub mutate_loaded :
      WorkspaceKey
      → WaitingFor
      → WaitingForEvent
      → ℕ
      → Result WaitingForError WaitingFor
      → Tables
      → Stored
  unfolding selects update_guard is_taken_event item_values event_values canonical_workspace
  mutate_loaded key updated event expected_revision (err exc) tables = (err exc, tables)
  mutate_loaded key updated event expected_revision (ok current) tables =
      let written =
        selects updated.id
          (update_guard (canonical_workspace updated.workspace_key) expected_revision) in
      if not (same_identity current.workspace_key (canonical_workspace key))
        || not (current.revision == expected_revision)
        || not (count_where written tables.items == 1)
        || is_taken_event event tables.events
      then (err WaitingForError.conflict, tables)
      else (
        ok (updated, event),
        record {
          items = update_where written (λ row. item_values updated) tables.items;
          events = tables.events ++ event_values event ∷ [];
        },
      )

  unfoldable pub mutate : WorkspaceKey → WaitingFor → WaitingForEvent → ℕ → Tables → Stored
  unfolding matches_request mutate_loaded get
  mutate key updated event expected_revision tables =
      if matches_request key updated event expected_revision
      then mutate_loaded key updated event expected_revision (get key updated.id tables) tables
      else (err WaitingForError.conflict, tables)
