-- ===== src/WaitingFor/Writes.antt =====
-- What a call of the repository does to the tables: it leaves them as they are, adds an item with its
-- first event, or puts an item at the next revision and adds the event of that number.
use mathlib.Core.Path.{subst}
use ai_lab_os.Prelude.{
  ℕ, ◌+◌, Bool, true, false, not, ◌&&◌, ◌||◌, ◌≡◌, ◌⊎◌, refl, ap, ◌∙◌, inl, inr, Option, none, some,
  List, [], ◌∷◌, ◌++◌, String, str_eq, eq_iff, ◌==◌, is_some, Result, ok, err, Bool-cases,
  Option-cases, Result-cases, arith,
}
use ai_lab_os.Sql.{count_where, find_key, IsKeyed}
use ai_lab_os.Sql.Laws.{count_where_keyed, matches}
use ai_lab_os.Sql.Put.{put, put_guarded}
use ai_lab_os.UserTasks.Spaces.{WorkspaceKey, same_workspace}
use ai_lab_os.WaitingFor.Models.{
  WaitingFor, WaitingForEvent, WaitingForError, canonical_workspace, validate_item, stripped_item,
  has_valid_fields, has_valid_state,
}
use ai_lab_os.WaitingFor.Store as Repository
use ai_lab_os.WaitingFor.Store.{
  Tables, Stored, item_key, event_key, item_values, event_values, matches_created, is_taken_event,
  scoped, get, matches_request, loaded, update_guard, selects, mutate_loaded, same_identity,
  is_created,
}

abbrev with_items : List WaitingForEvent → List WaitingFor → Tables
with_items events items = record { items = items; events = events }

-- A new item with the event of number 1.
abbrev pub IsCreated : WaitingFor → WaitingForEvent → Tables → Tables → Type 0
IsCreated item event old new =
    (find_key item_key item.id old.items ≡ none)
    × (event.waiting_for_id ≡ item.id)
    × (item.revision ≡ 1)
    × (event.sequence ≡ 1)
    × (is_created event.event_type ≡ true)
    × (new ≡ record {
      items = old.items ++ item_values item ∷ [];
      events = old.events ++ event_values event ∷ [];
    })

-- The next version of an item, in the workspace of the version before, with the event of its number.
abbrev pub IsMutated : WorkspaceKey → WaitingFor → WaitingForEvent → ℕ → Tables → Tables → Type 0
IsMutated key updated event revision old new =
    (row : WaitingFor) × (find_key item_key updated.id old.items ≡ some row)
    × (same_workspace row.workspace_key (canonical_workspace key) ≡ true)
    × (row.revision ≡ revision)
    × (updated.revision ≡ revision + 1)
    × (event.waiting_for_id ≡ updated.id)
    × (event.sequence ≡ revision + 1)
    × (new ≡ record {
      items = put item_key (item_values updated) old.items;
      events = old.events ++ event_values event ∷ [];
    })

-- An insertion that answers has inserted, and one that raises has changed nothing.
pub create_outcome :
    (item : WaitingFor) (event : WaitingForEvent) (tables : Tables)
    → (((Repository.create item event tables).0 ≡ err WaitingForError.conflict)
        × ((Repository.create item event tables).1 ≡ tables))
      ⊎ (((Repository.create item event tables).0 ≡ ok (item, event))
          × IsCreated item event tables (Repository.create item event tables).1)
unfolding Repository.create matches_created
create_outcome item event tables = elim (Bool-cases (matches_created item event)) [
  | inr other ↦ inl (rw other (refl, refl))
  | inl same ↦
      elim (Bool-cases
        (is_some (find_key item_key item.id tables.items) || is_taken_event event tables.events)) [
          | inl taken ↦ inl (rw (same, taken) (refl, refl))
          | inr free ↦ inr (
              rw (same, free)
                (
                  refl,
                  (
                    ground (arith, Option-cases (find_key item_key item.id tables.items)),
                    ground (arith, eq_iff event.waiting_for_id item.id),
                    ground arith,
                    ground arith,
                    ground arith,
                    refl,
                  ),
                ))
        ]
]

all_of_five :
    (a b c d e : Bool) → (a && b && c && d && e) ≡ true → (c ≡ true) × (d ≡ true) × (e ≡ true)
all_of_five true true true true true h = (refl, refl, refl)
all_of_five true true true true false h = cc
all_of_five true true true false e h = cc
all_of_five true true false d e h = cc
all_of_five true false c d e h = cc
all_of_five false b c d e h = cc

none_of_four : (a b c d : Bool) → (not a || not b || not c || d) ≡ false → (b ≡ true) × (c ≡ true)
none_of_four true true true d h = (refl, refl)
none_of_four true true false d h = cc
none_of_four true false c d h = cc
none_of_four false b c d h = cc

agreed :
    (key : WorkspaceKey) (updated : WaitingFor) (event : WaitingForEvent) (revision : ℕ)
    → matches_request key updated event revision ≡ true
    → (updated.revision ≡ revision + 1)
      × (event.waiting_for_id ≡ updated.id)
      × (event.sequence ≡ revision + 1)
unfolding matches_request
agreed key updated event revision e =
    let (next, named, numbered) =
      all_of_five (same_identity (canonical_workspace key) updated.workspace_key)
        (same_identity (canonical_workspace key) event.workspace_key)
        (updated.revision == revision + 1) (str_eq event.waiting_for_id updated.id)
        (event.sequence == updated.revision) e in
    let is_next : updated.revision ≡ revision + 1 = ground arith in
    (is_next, (eq_iff event.waiting_for_id updated.id).0 named, ground arith)

-- The UPDATE that counts one row has found it by its guard.
guard_of_count :
    (guard : WaitingFor → Bool) (id : String) (table : List WaitingFor) (row : WaitingFor)
    → IsKeyed item_key table
    → find_key item_key id table ≡ some row
    → (count_where (selects id guard) table == 1) ≡ true
    → guard row ≡ true
unfolding selects
guard_of_count guard id table row keyed found one =
    let counted : count_where (selects id guard) table ≡ matches item_key guard (some row) =
      count_where_keyed item_key guard id table keyed ∙ ap (matches item_key guard) found in
    elim (Bool-cases (guard row)) [ inl hit ↦ hit | inr miss ↦ ground arith ]

module _ (is_zone : String → Bool) where
  -- What a validation keeps of an item.
  abbrev pub IsVersion : WaitingFor → WaitingFor → Type 0
  IsVersion item row =
      (item.id ≡ row.id)
      × (item.workspace_key ≡ row.workspace_key)
      × (item.revision ≡ row.revision)
      × (item.status ≡ row.status)

  pub validated-IsVersion :
      (row item : WaitingFor) → validate_item is_zone row ≡ ok item → IsVersion item row
  unfolding validate_item stripped_item
  validated-IsVersion row item e =
      elim (Bool-cases (has_valid_fields is_zone row && has_valid_state (stripped_item row))) [
        | inl valid ↦ ground arith
        | inr bad ↦ ground arith
      ]

  scoped_ok :
      (workspace : WorkspaceKey) (found : Option WaitingFor) (item : WaitingFor)
      → scoped is_zone workspace found ≡ ok item
      → (row : WaitingFor) × (found ≡ some row)
        × (same_workspace row.workspace_key workspace ≡ true)
        × IsVersion item row
  unfolding scoped loaded
  scoped_ok workspace none item e = ground arith
  scoped_ok workspace (some row) item e =
      elim (Bool-cases (same_workspace row.workspace_key workspace)) [
        | inr other ↦ ground arith
        | inl mine ↦ elim (Result-cases (validate_item is_zone row)) [
          | inl (result, valid) ↦
              let version = validated-IsVersion row result valid in
              let same : result ≡ item = ground arith in
              (row, refl, mine, subst (λ i. IsVersion i row) same version)
          | inr (exc, bad) ↦ ground arith
        ]
      ]

  -- A read that answers has found the row of the item, in the workspace of the reader.
  pub get_ok :
      (key : WorkspaceKey) (id : String) (tables : Tables) (item : WaitingFor)
      → get is_zone key id tables ≡ ok item
      → (row : WaitingFor) × (find_key item_key id tables.items ≡ some row)
        × (same_workspace row.workspace_key (canonical_workspace key) ≡ true)
        × IsVersion item row
  unfolding get
  get_ok key id tables item e =
      scoped_ok (canonical_workspace key) (find_key item_key id tables.items) item e

  -- What the transaction does once the row is loaded: nothing, or it puts the item.
  abbrev pub MutateOutcome :
      WorkspaceKey → WaitingFor → WaitingForEvent → ℕ → Tables → Stored → Type 0
  MutateOutcome key updated event revision tables stored =
      ((exc : WaitingForError) × (stored.0 ≡ err exc) × (stored.1 ≡ tables))
      ⊎ ((stored.0 ≡ ok (updated, event)) × IsMutated key updated event revision tables stored.1)

  loaded_outcome :
      (key : WorkspaceKey) (updated : WaitingFor) (event : WaitingForEvent) (revision : ℕ)
      (tables : Tables) (read : Result WaitingForError WaitingFor)
      → IsKeyed item_key tables.items
      → get is_zone key updated.id tables ≡ read
      → matches_request key updated event revision ≡ true
      → MutateOutcome key updated event revision tables
          (mutate_loaded is_zone key updated event revision read tables)
  unfolding mutate_loaded item_values selects
  loaded_outcome key updated event revision tables (err exc) keyed e agrees = inl (exc, refl, refl)
  loaded_outcome key updated event revision tables (ok current) keyed e agrees =
      let written =
        selects updated.id (update_guard (canonical_workspace updated.workspace_key) revision) in
      elim (Bool-cases (
        not (same_identity current.workspace_key (canonical_workspace key))
        || not (current.revision == revision)
        || not (count_where written tables.items == 1)
        || is_taken_event event tables.events)) [
          | inl bad ↦ inl (WaitingForError.conflict, rw bad refl, rw bad refl)
          | inr good ↦
              let (row, found, mine, version) = get_ok key updated.id tables current e in
              let (next, named, numbered) = agreed key updated event revision agrees in
              let (at, one) =
                none_of_four (same_identity current.workspace_key (canonical_workspace key))
                  (current.revision == revision) (count_where written tables.items == 1)
                  (is_taken_event event tables.events) good in
              let hit =
                guard_of_count (update_guard (canonical_workspace updated.workspace_key) revision)
                  updated.id tables.items row keyed found one in
              let version_at : row.revision ≡ revision = ground arith in
              inr (
                rw good refl,
                (
                  row,
                  found,
                  mine,
                  version_at,
                  next,
                  named,
                  numbered,
                  rw good (
                      ap (with_items (tables.events ++ event_values event ∷ [])) (
                        put_guarded item_key (item_values updated)
                          (update_guard (canonical_workspace updated.workspace_key) revision)
                          tables.items row keyed found hit)),
                ),
              )
        ]

  -- A mutation that answers has put the next version of the item and added its event; one that raises
  -- has changed nothing.
  pub mutate_outcome :
      (key : WorkspaceKey) (updated : WaitingFor) (event : WaitingForEvent) (revision : ℕ)
      (tables : Tables)
      → IsKeyed item_key tables.items
      → MutateOutcome key updated event revision tables
          (Repository.mutate is_zone key updated event revision tables)
  unfolding Repository.mutate
  mutate_outcome key updated event revision tables keyed =
      elim (Bool-cases (matches_request key updated event revision)) [
        | inr other ↦ inl (WaitingForError.conflict, rw other refl, rw other refl)
        | inl agrees ↦ rw agrees (
            loaded_outcome key updated event revision tables (get is_zone key updated.id tables)
              keyed refl agrees)
      ]
