-- ===== src/UserTasks/Refines/Updates.antt =====
-- `update` of the repository does what the book promises.
use ai_lab_os.Prelude.{
  ℕ, ◌+◌, true, false, ◌≡◌, refl, inl, inr, none, some, List, ◌==◌, if◌then◌else◌, ok, err,
  Bool-cases, Option-cases, arith,
}
use ai_lab_os.Sql.{count_where, IsKeyed}
use ai_lab_os.Sql.Put.{put, find_key-put, put_guarded}
use ai_lab_os.UserTasks.Models.{UserTask, UserTaskError}
use ai_lab_os.UserTasks.Spaces.{WorkspaceKey}
use ai_lab_os.UserTasks.Table as Repository
use ai_lab_os.UserTasks.Table.{
  TaskRow, row_key, task_values, is_in, is_default_workspace, has_legacy, clashes, selects,
  update_guard, lacks_json, has_malformed_metadata, row_task, read, get_task,
}
use ai_lab_os.UserTasks.Spec.{is_unreadable, Updated}
use ai_lab_os.UserTasks.Refines.{
  book, count_selected, count_unselected, malformed-some, malformed-none, clash-HasLegacy,
  no_clash-IsFree,
}

module _ (table : List TaskRow) (keyed : IsKeyed row_key table) where
  update_refused :
      (key : WorkspaceKey) (task : UserTask) (revision : ℕ) (row : TaskRow)
      → book table task.id ≡ some row
      → is_unreadable key row ≡ false
      → update_guard key revision row ≡ false
      → Repository.update key task revision table
        ≡ (err (if is_in key row then UserTaskError.conflict else UserTaskError.not_found), table)
  unfolding Repository.update
  update_refused key task revision row e good miss =
      rw
        (
          malformed-some table keyed key task.id row e,
          good,
          count_selected table keyed task.id (update_guard key revision) row e,
          miss,
          count_selected table keyed task.id (is_in key) row e,
        )
        (elim (Bool-cases (is_in key row)) [ inl there ↦ rw there | inr other ↦ rw other ])

  update_accepted :
      (key : WorkspaceKey) (task : UserTask) (revision : ℕ) (row : TaskRow)
      → book table task.id ≡ some row
      → is_unreadable key row ≡ false
      → update_guard key revision row ≡ true
      → Repository.update key task revision table ≡ (
          if count_where (clashes task) table == 0
          then (
            ok (record task { revision = revision + 1 }),
            put row_key (task_values (record task { revision = revision + 1 })) table,
          )
          else (err UserTaskError.persistence, table))
  unfolding Repository.update selects task_values
  update_accepted key task revision row e good hit =
      rw
        (
          malformed-some table keyed key task.id row e,
          good,
          count_selected table keyed task.id (update_guard key revision) row e,
          hit,
          put_guarded row_key (task_values (record task { revision = revision + 1 }))
              (update_guard key revision) table row keyed e hit,
        )
        refl

  update_unreadable :
      (key : WorkspaceKey) (task : UserTask) (revision : ℕ) (row : TaskRow)
      → book table task.id ≡ some row
      → is_unreadable key row ≡ true
      → Repository.update key task revision table ≡ (err UserTaskError.persistence, table)
  unfolding Repository.update
  update_unreadable key task revision row e bad =
      rw (malformed-some table keyed key task.id row e, bad)

  update_missing :
      (key : WorkspaceKey) (task : UserTask) (revision : ℕ)
      → book table task.id ≡ none
      → Repository.update key task revision table ≡ (err UserTaskError.not_found, table)
  unfolding Repository.update
  update_missing key task revision e =
      rw
        (
          malformed-none table keyed key task.id e,
          count_unselected table keyed task.id (update_guard key revision) e,
          count_unselected table keyed task.id (is_in key) e,
        )
        refl

  -- An update of a row that the caller sees at the revision that it expects.
  update_current :
      (key : WorkspaceKey) (task : UserTask) (revision : ℕ) (row : TaskRow)
      → book table task.id ≡ some row
      → is_unreadable key row ≡ false
      → is_in key row ≡ true
      → (row.revision == revision) ≡ true
      → Updated key task revision
          (some row)
          (book table)
          (Repository.update key task revision table).0
          (book (Repository.update key task revision table).1)
  unfolding update_guard task_values
  update_current key task revision row e good there same =
      rw (update_accepted key task revision row e good (rw (same, there)))
        (elim (Bool-cases (count_where (clashes task) table == 0)) [
          | inl unique ↦ rw unique (
              inr (
                inr (
                  inr (
                    inr (
                      good,
                      there,
                      same,
                      no_clash-IsFree table keyed task unique,
                      refl,
                      λ k.
                          find_key-put row_key
                            (task_values (record task { revision = revision + 1 })) k table row e,
                    )))))
          | inr taken ↦ rw taken (
              inr (
                inr (
                  inr (
                    inl (
                      good,
                      there,
                      same,
                      clash-HasLegacy table keyed task taken,
                      refl,
                      λ k. refl,
                    )))))
        ])

  update_found :
      (key : WorkspaceKey) (task : UserTask) (revision : ℕ) (row : TaskRow)
      → book table task.id ≡ some row
      → Updated key task revision
          (some row)
          (book table)
          (Repository.update key task revision table).0
          (book (Repository.update key task revision table).1)
  unfolding update_guard
  update_found key task revision row e = elim (Bool-cases (is_unreadable key row)) [
    | inl bad ↦ rw (update_unreadable key task revision row e bad) (inl (bad, refl, λ k. refl))
    | inr good ↦ elim (Bool-cases (is_in key row)) [
      | inr other ↦
          rw (update_refused key task revision row e good (rw other (ground arith)), other)
            (inr (inl (good, refl, refl, λ k. refl)))
      | inl there ↦ elim (Bool-cases (row.revision == revision)) [
        | inl same ↦ update_current key task revision row e good there same
        | inr stale ↦
            rw (update_refused key task revision row e good (rw stale), there)
              (inr (inr (inl (good, refl, stale, refl, λ k. refl))))
      ]
    ]
  ]

  pub update-Updated :
      (key : WorkspaceKey) (task : UserTask) (revision : ℕ)
      → Updated key task revision
          (book table task.id)
          (book table)
          (Repository.update key task revision table).0
          (book (Repository.update key task revision table).1)
  update-Updated key task revision = elim (Option-cases (book table task.id)) [
    | inl e ↦ rw e (rw (update_missing key task revision e) (refl, λ k. refl))
    | inr (row, e) ↦ rw e (update_found key task revision row e)
  ]
