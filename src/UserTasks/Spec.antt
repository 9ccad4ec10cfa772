-- ===== src/UserTasks/Spec.antt =====
-- What the repository of user tasks promises, over a book of tasks: a function from ids, which
-- forgets the order of the rows and how the statements find them.
use ai_lab_os.Prelude.{
  ℕ, ◌+◌, Bool, true, false, ◌&&◌, ◌≡◌, ◌⊎◌, Option, none, some, List, [], ◌∷◌, String, str_eq,
  ◌==◌, if◌then◌else◌, Result, ok, err,
}
use ai_lab_os.UserTasks.Models.{UserTask, UserTaskError}
use ai_lab_os.UserTasks.Spaces.{WorkspaceKey}
use ai_lab_os.UserTasks.Table.{
  TaskRow, task_values, is_in, is_default_workspace, has_legacy, row_task, lacks_json,
}

abbrev pub Book : Type 0
Book = String → Option TaskRow

-- A call of the repository.
pub data Call : Type 0 where
  create : UserTask → Call
  get : WorkspaceKey → String → Call
  update : WorkspaceKey → UserTask → ℕ → Call

abbrev pub Answer : Type 0
Answer = Result UserTaskError UserTask

abbrev pub IsSame : Book → Book → Type 0
IsSame book after = (k : String) → after k ≡ book k

-- The book with `row` under its id, and otherwise as it was.
abbrev pub IsPut : TaskRow → Book → Book → Type 0
IsPut row book after = (k : String) → after k ≡ (if str_eq row.id k then some row else book k)

-- The legacy id is that of a task that is not `id`.
abbrev pub HasLegacy : Option String → String → Book → Type 0
HasLegacy legacy id book =
    (k : String) × (row : TaskRow) × (book k ≡ some row)
    × (str_eq row.id id ≡ false)
    × (has_legacy legacy row ≡ true)

abbrev pub IsFree : Option String → String → Book → Type 0
IsFree legacy id book =
    (k : String) (row : TaskRow)
    → book k ≡ some row
    → str_eq row.id id ≡ false
    → has_legacy legacy row ≡ false

-- The row has malformed metadata, and the caller works in the default workspace.
abbrev pub is_unreadable : WorkspaceKey → TaskRow → Bool
is_unreadable key row = is_default_workspace key && lacks_json row

-- An insertion answers with the task if its id and its legacy id are free.
abbrev pub Created : UserTask → Book → Answer → Book → Type 0
Created task book answer after =
    ((row : TaskRow) × (book task.id ≡ some row)
      × (answer ≡ err UserTaskError.conflict)
      × IsSame book after)
    ⊎ ((book task.id ≡ none)
        × HasLegacy task.legacy_source_id task.id book
        × (answer ≡ err UserTaskError.conflict)
        × IsSame book after)
    ⊎ ((book task.id ≡ none)
        × IsFree task.legacy_source_id task.id book
        × (answer ≡ ok task)
        × IsPut (task_values task) book after)

-- What a reader in the workspace `key` learns of what the book has under an id.
abbrev pub Seen : (String → Bool) → WorkspaceKey → Option TaskRow → Answer → Type 0
Seen is_zone key none answer = answer ≡ err UserTaskError.not_found
Seen is_zone key (some row) answer =
    ((is_unreadable key row ≡ true) × (answer ≡ err UserTaskError.persistence))
    ⊎ ((is_unreadable key row ≡ false)
        × (is_in key row ≡ false)
        × (answer ≡ err UserTaskError.not_found))
    ⊎ ((is_unreadable key row ≡ false) × (is_in key row ≡ true) × (answer ≡ row_task is_zone row))

-- A change at an expected revision, of what the book has under the id of the task.
abbrev pub Updated : WorkspaceKey → UserTask → ℕ → Option TaskRow → Book → Answer → Book → Type 0
Updated key task revision none book answer after =
    (answer ≡ err UserTaskError.not_found) × IsSame book after
Updated key task revision (some row) book answer after =
    ((is_unreadable key row ≡ true) × (answer ≡ err UserTaskError.persistence) × IsSame book after)
    ⊎ ((is_unreadable key row ≡ false)
        × (is_in key row ≡ false)
        × (answer ≡ err UserTaskError.not_found)
        × IsSame book after)
    ⊎ ((is_unreadable key row ≡ false)
        × (is_in key row ≡ true)
        × ((row.revision == revision) ≡ false)
        × (answer ≡ err UserTaskError.conflict)
        × IsSame book after)
    ⊎ ((is_unreadable key row ≡ false)
        × (is_in key row ≡ true)
        × ((row.revision == revision) ≡ true)
        × HasLegacy task.legacy_source_id task.id book
        × (answer ≡ err UserTaskError.persistence)
        × IsSame book after)
    ⊎ ((is_unreadable key row ≡ false)
        × (is_in key row ≡ true)
        × ((row.revision == revision) ≡ true)
        × IsFree task.legacy_source_id task.id book
        × (answer ≡ ok record task { revision = revision + 1 })
        × IsPut (task_values (record task { revision = revision + 1 })) book after)

-- One call, and any number of calls, with the answer to each.
abbrev pub Answers : (String → Bool) → Call → Book → Answer → Book → Type 0
Answers is_zone (create task) book answer after = Created task book answer after
Answers is_zone (get key id) book answer after =
    Seen is_zone key (book id) answer × IsSame book after
Answers is_zone (update key task revision) book answer after =
    Updated key task revision (book task.id) book answer after

abbrev pub AnswersAll : (String → Bool) → List Call → Book → List Answer → Book → Type 0
AnswersAll is_zone [] book [] after = IsSame book after
AnswersAll is_zone (call ∷ calls) book (answer ∷ answers) after =
    (next : Book) × Answers is_zone call book answer next
    × AnswersAll is_zone calls next answers after
AnswersAll is_zone _ book _ after = ⊥
