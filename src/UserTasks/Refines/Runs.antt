-- ===== src/UserTasks/Refines/Runs.antt =====
-- The refinement along any sequence of calls, and what follows of it for the ids and legacy ids.
use ai_lab_os.Prelude.{
  ℕ, ◌+◌, Bool, refl, inl, inr, List, [], ◌∷◌, String, Bool-cases, Option-cases, ◌==◌,
}
use ai_lab_os.Sql.{count_where, IsKeyed}
use ai_lab_os.Sql.Laws.{IsKeyed-append}
use ai_lab_os.Sql.Put.{IsKeyed-put_guarded}
use ai_lab_os.UserTasks.Models.{UserTask}
use ai_lab_os.UserTasks.Spaces.{WorkspaceKey}
use ai_lab_os.UserTasks.Table as Repository
use ai_lab_os.UserTasks.Table.{
  TaskRow, row_key, task_values, has_legacy, clashes, selects, update_guard, is_in,
  has_malformed_metadata,
}
use ai_lab_os.UserTasks.Spec.{Call, create, get, update, Answers, AnswersAll}
use ai_lab_os.UserTasks.Calls.{run_call, run_calls}
use ai_lab_os.UserTasks.Refines.{book, create-Created, get_task-Seen}
use ai_lab_os.UserTasks.Refines.Updates.{update-Updated}

pub create-IsKeyed :
    (task : UserTask) (table : List TaskRow)
    → IsKeyed row_key table
    → IsKeyed row_key (Repository.create task table).1
unfolding Repository.create task_values
create-IsKeyed task table keyed = elim (Option-cases (book table task.id)) [
  | inr (row, e) ↦ rw e keyed
  | inl free ↦ elim (Bool-cases (count_where (has_legacy task.legacy_source_id) table == 0)) [
    | inl unique ↦ rw (free, unique) (IsKeyed-append row_key table (task_values task) free keyed)
    | inr taken ↦ rw (free, taken) keyed
  ]
]

update-IsKeyed :
    (key : WorkspaceKey) (task : UserTask) (revision : ℕ) (table : List TaskRow)
    → IsKeyed row_key table
    → IsKeyed row_key (Repository.update key task revision table).1
unfolding Repository.update selects task_values
update-IsKeyed key task revision table keyed =
    let after =
      IsKeyed-put_guarded row_key (task_values (record task { revision = revision + 1 }))
        (update_guard key revision) table keyed in
    elim (Bool-cases (has_malformed_metadata key task.id table)) [
      | inl bad ↦ rw bad keyed
      | inr good ↦
          elim (Bool-cases (count_where (selects task.id (update_guard key revision)) table == 1)) [
            | inl hit ↦ elim (Bool-cases (count_where (clashes task) table == 0)) [
              | inl unique ↦ rw (good, hit, unique) after
              | inr taken ↦ rw (good, hit, taken) keyed
            ]
            | inr miss ↦ elim (Bool-cases (count_where (selects task.id (is_in key)) table == 0)) [
              | inl absent ↦ rw (good, miss, absent) keyed
              | inr stale ↦ rw (good, miss, stale) keyed
            ]
          ]
    ]

module _ (is_zone : String → Bool) where
  pub run_call-IsKeyed :
      (call : Call) (table : List TaskRow)
      → IsKeyed row_key table
      → IsKeyed row_key (run_call is_zone call table).1
  unfolding run_call
  run_call-IsKeyed (create task) table keyed = create-IsKeyed task table keyed
  run_call-IsKeyed (get key id) table keyed = keyed
  run_call-IsKeyed (update key task revision) table keyed =
      update-IsKeyed key task revision table keyed

  pub run_call-Answers :
      (call : Call) (table : List TaskRow)
      → IsKeyed row_key table
      → Answers is_zone call
          (book table)
          (run_call is_zone call table).0
          (book (run_call is_zone call table).1)
  unfolding run_call
  run_call-Answers (create task) table keyed = create-Created table keyed task
  run_call-Answers (get key id) table keyed = (get_task-Seen table keyed is_zone key id, λ k. refl)
  run_call-Answers (update key task revision) table keyed =
      update-Updated table keyed key task revision

  -- Any sequence of create, get and update calls on a table whose ids differ gives each caller the
  -- answer that the book of tasks promises, in its own workspace, and the ids of the table that it
  -- leaves differ again.
  pub run_calls-refines :
      (calls : List Call) (table : List TaskRow)
      → IsKeyed row_key table
      → AnswersAll is_zone calls
          (book table)
          (run_calls is_zone calls table).0
          (book (run_calls is_zone calls table).1)
        × IsKeyed row_key (run_calls is_zone calls table).1
  unfolding run_calls
  run_calls-refines [] table keyed = (λ k. refl, keyed)
  run_calls-refines (call ∷ calls) table keyed =
      let next = (run_call is_zone call table).1 in
      let (rest, last) = run_calls-refines calls next (run_call-IsKeyed call table keyed) in
      ((book next, run_call-Answers call table keyed, rest), last)
