-- ===== src/UserTasks/Refines.antt =====
-- The repository of user tasks implements the book of Spec.antt.
pub mod Runs
pub mod Revisions
pub mod Isolation
pub mod Updates
use ai_lab_os.Prelude.{
  ℕ, ◌+◌, Bool, true, false, not, ◌&&◌, ◌≡◌, refl, sym, ap, ◌∙◌, inl, inr, Option, none, some, List,
  [], ◌∷◌, ◌++◌, String, str_eq, eq_iff, str_eq_refl, ◌==◌, if◌then◌else◌, Result, ok, err,
  Bool-cases, Option-cases, arith, is_some,
}
use ai_lab_os.Sql.{count_where, find_key, IsKeyed, update_where}
use ai_lab_os.Sql.Laws.{count_where_keyed, find_key-insert, IsKeyed-append, key-find_key, matches}
use ai_lab_os.Sql.Put.{put, find_key-put, IsKeyed-put, put_guarded}
use ai_lab_os.Sql.Found.{count_where-find_key, find_key-count_where}
use ai_lab_os.UserTasks.Models.{UserTask, UserTaskError}
use ai_lab_os.UserTasks.Spaces.{WorkspaceKey}
use ai_lab_os.UserTasks.Table as Repository
use ai_lab_os.UserTasks.Table.{
  TaskRow, row_key, task_values, is_in, is_default_workspace, has_legacy, clashes, selects,
  update_guard, lacks_json, has_malformed_metadata, row_task, read, get_task,
}
use ai_lab_os.UserTasks.Spec.{
  Book, Call, create, get, update, Answer, IsSame, IsPut, HasLegacy, IsFree, is_unreadable, Created,
  Seen, Updated, Answers, AnswersAll,
}

-- The book that a table stands for.
abbrev pub book : List TaskRow → Book
book table k = find_key row_key k table

module _ (table : List TaskRow) (keyed : IsKeyed row_key table) where
  -- How often a condition on the row of an id selects, read off the book.
  pub count_selected :
      (id : String) (guard : TaskRow → Bool) (row : TaskRow)
      → book table id ≡ some row
      → count_where (selects id guard) table ≡ (if guard row then 1 else 0)
  unfolding selects
  count_selected id guard row e = count_where_keyed row_key guard id table keyed ∙ rw e

  pub count_unselected :
      (id : String) (guard : TaskRow → Bool)
      → book table id ≡ none
      → count_where (selects id guard) table ≡ 0
  unfolding selects
  count_unselected id guard e = count_where_keyed row_key guard id table keyed ∙ rw e

  pub malformed-some :
      (key : WorkspaceKey) (id : String) (row : TaskRow)
      → book table id ≡ some row
      → has_malformed_metadata key id table ≡ is_unreadable key row
  unfolding has_malformed_metadata
  malformed-some key id row e = rw (count_selected id lacks_json row e) (ground arith)

  pub malformed-none :
      (key : WorkspaceKey) (id : String)
      → book table id ≡ none
      → has_malformed_metadata key id table ≡ false
  unfolding has_malformed_metadata
  malformed-none key id e = rw (count_unselected id lacks_json e) (ground arith)

  -- The statement that looks for a clash finds one exactly if the book has one.
  pub clash-HasLegacy :
      (task : UserTask)
      → (count_where (clashes task) table == 0) ≡ false
      → HasLegacy task.legacy_source_id task.id (book table)
  unfolding clashes
  clash-HasLegacy task h =
      let (k, row, e, holds) = find_key-count_where row_key (clashes task) table keyed h in
      (k, row, e, ground arith, ground arith)

  pub no_clash-IsFree :
      (task : UserTask)
      → (count_where (clashes task) table == 0) ≡ true
      → IsFree task.legacy_source_id task.id (book table)
  unfolding clashes
  no_clash-IsFree task h k row e other =
      let missed : clashes task row ≡ false =
        count_where-find_key row_key (clashes task) k table row (ground arith) e in
      ground arith

  -- The three outcomes of an insertion.
  pub create_taken :
      (task : UserTask) (row : TaskRow)
      → book table task.id ≡ some row
      → Repository.create task table ≡ (err UserTaskError.conflict, table)
  unfolding Repository.create
  create_taken task row e = rw e

  create_free :
      (task : UserTask)
      → book table task.id ≡ none
      → (count_where (has_legacy task.legacy_source_id) table == 0) ≡ true
      → Repository.create task table ≡ (ok task, table ++ task_values task ∷ [])
  unfolding Repository.create
  create_free task free unique = rw (free, unique)

  create_imported :
      (task : UserTask)
      → book table task.id ≡ none
      → (count_where (has_legacy task.legacy_source_id) table == 0) ≡ false
      → Repository.create task table ≡ (err UserTaskError.conflict, table)
  unfolding Repository.create
  create_imported task free taken = rw (free, taken)

  -- A legacy id that another task has is refused.
  pub create_legacy :
      (task : UserTask)
      → HasLegacy task.legacy_source_id task.id (book table)
      → Repository.create task table ≡ (err UserTaskError.conflict, table)
  create_legacy task (k, row, e, other, same) = elim (Option-cases (book table task.id)) [
    | inr (found, there) ↦ create_taken task found there
    | inl free ↦ elim (Bool-cases (count_where (has_legacy task.legacy_source_id) table == 0)) [
      | inr taken ↦ create_imported task free taken
      | inl unique ↦
          let miss =
            count_where-find_key row_key (has_legacy task.legacy_source_id) k table row
              (ground arith) e in
          cc
    ]
  ]

  other_id :
      (k id : String) (row : TaskRow)
      → book table k ≡ some row
      → book table id ≡ none
      → str_eq row.id id ≡ false
  other_id k id row e free = ground (arith, eq_iff row.id id, key-find_key row_key k table row e)

  pub create-Created :
      (task : UserTask)
      → Created task
          (book table)
          (Repository.create task table).0
          (book (Repository.create task table).1)
  unfolding task_values
  create-Created task = elim (Option-cases (book table task.id)) [
    | inr (row, e) ↦ rw (create_taken task row e) (inl (row, e, refl, λ k. refl))
    | inl free ↦ elim (Bool-cases (count_where (has_legacy task.legacy_source_id) table == 0)) [
      | inl unique ↦ rw (create_free task free unique) (
          inr (
            inr (
              free,
              λ k row e other.
                  count_where-find_key row_key (has_legacy task.legacy_source_id) k table row
                    (ground arith) e,
              refl,
              λ k. find_key-insert row_key k table (task_values task) free,
            )))
      | inr taken ↦
          let (k, row, e, holds) =
            find_key-count_where row_key (has_legacy task.legacy_source_id) table keyed taken in
          rw (create_imported task free taken)
            (inr (inl (free, (k, row, e, other_id k task.id row e free, holds), refl, λ k. refl)))
    ]
  ]

  pub get_task-Seen :
      (is_zone : String → Bool) (key : WorkspaceKey) (id : String)
      → Seen is_zone key (book table id) (get_task is_zone key id table)
  unfolding get_task read
  get_task-Seen is_zone key id = elim (Option-cases (book table id)) [
    | inl e ↦ rw (malformed-none key id e, e) refl
    | inr (row, e) ↦
        rw (malformed-some key id row e, e)
          (elim (Bool-cases (is_unreadable key row)) [
            | inl bad ↦ inl (bad, rw bad)
            | inr good ↦ elim (Bool-cases (is_in key row)) [
              | inl there ↦ inr (inr (good, there, rw (good, there)))
              | inr other ↦ inr (inl (good, other, rw (good, other)))
            ]
          ])
  ]
