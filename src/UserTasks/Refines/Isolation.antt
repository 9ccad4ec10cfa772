-- ===== src/UserTasks/Refines/Isolation.antt =====
-- Callers in one workspace neither see nor change the tasks of another.
use mathlib.Core.Path.{subst}
use ai_lab_os.Prelude.{
  ℕ, ◌+◌, Bool, true, false, ◌≡◌, refl, sym, ap, ◌∙◌, inl, inr, Option, none, some, List, [], ◌∷◌,
  String, str_eq, eq_iff, if◌then◌else◌, err, Bool-cases, arith, All, is_none,
}
use ai_lab_os.Sql.{IsKeyed}
use ai_lab_os.Json.{Json}
use ai_lab_os.Scheduler.Models.{Instant}
use ai_lab_os.UserTasks.Models.{UserTask, UserTaskQuery, UserTaskError}
use ai_lab_os.UserTasks.Spaces.{WorkspaceKey, same_workspace}
use ai_lab_os.UserTasks.Table.{
  TaskRow, row_key, task_values, is_in, get_task, workspace_of, is_owner,
}
use ai_lab_os.UserTasks.Spec.{
  Book, Call, create, get, update, Answer, Answers, Created, Updated, is_unreadable, Seen,
}
use ai_lab_os.UserTasks.Calls.{run_call, run_calls}
use ai_lab_os.UserTasks.Refines.{book, get_task-Seen}
use ai_lab_os.UserTasks.Listing.{list_tasks}
use ai_lab_os.UserTasks.Listing.Hidden.{Hides, list_tasks-Hides}
use ai_lab_os.UserTasks.Refines.Runs.{run_call-IsKeyed, run_call-Answers}
use ai_lab_os.UserTasks.Refines.Revisions.{run_calls-IsKeyed}

-- The call is made in another workspace, or it creates a task.
abbrev pub IsForeign : WorkspaceKey → Call → Type 0
IsForeign space (create task) = Unit
IsForeign space (get key id) = same_workspace key space ≡ false
IsForeign space (update key task revision) = same_workspace key space ≡ false

-- Nothing has two owners.
one_owner :
    (space key : WorkspaceKey) (owner : Option WorkspaceKey)
    → is_owner space owner ≡ true
    → same_workspace key space ≡ false
    → is_owner key owner ≡ false
one_owner space key none here other = refl
one_owner space key (some owner) here other = ground (
  arith,
  eq_iff owner.tenant_id space.tenant_id,
  eq_iff owner.workspace_id space.workspace_id,
  eq_iff owner.namespace space.namespace,
  eq_iff owner.tenant_id key.tenant_id,
  eq_iff owner.workspace_id key.workspace_id,
  eq_iff owner.namespace key.namespace,
  eq_iff key.tenant_id space.tenant_id,
  eq_iff key.workspace_id space.workspace_id,
  eq_iff key.namespace space.namespace,
)

owned-is_some :
    (space : WorkspaceKey) (metadata : Option Json)
    → is_owner space (workspace_of metadata) ≡ true
    → is_none metadata ≡ false
unfolding workspace_of
owned-is_some space none owned = cc
owned-is_some space (some _) owned = refl

module _ (space key : WorkspaceKey) (row : TaskRow) (here : is_in space row ≡ true) where
  -- A row is in one workspace at most.
  other_workspace : same_workspace key space ≡ false → is_in key row ≡ false
  unfolding is_in
  other_workspace other = one_owner space key (workspace_of row.metadata) here other

  -- A row in a workspace has valid metadata.
  in_workspace-readable : is_unreadable key row ≡ false
  unfolding is_in
  in_workspace-readable = let valid = owned-is_some space row.metadata here in ground arith

module _ (space : WorkspaceKey) (k : String) (row : TaskRow) (here : is_in space row ≡ true) where
  Seen-foreign :
      (is_zone : String → Bool) (key : WorkspaceKey) (answer : Answer)
      → same_workspace key space ≡ false
      → Seen is_zone key (some row) answer
      → answer ≡ err UserTaskError.not_found
  Seen-foreign is_zone key answer other (inl (bad, _)) =
      let good = in_workspace-readable space key row here in cc
  Seen-foreign is_zone key answer other (inr (inl (_, _, e))) = e
  Seen-foreign is_zone key answer other (inr (inr (_, mine, _))) =
      let miss = other_workspace space key row here other in cc

  module _ (old after : Book) (there : old k ≡ some row) where
    Created-foreign :
        (task : UserTask) (answer : Answer) → Created task old answer after → after k ≡ some row
    unfolding task_values
    Created-foreign task answer (inl (_, _, _, same)) = same k ∙ there
    Created-foreign task answer (inr (inl (_, _, _, same))) = same k ∙ there
    Created-foreign task answer (inr (inr (free, _, _, put))) =
        ground (arith, put k, eq_iff task.id k, there, free)

    put_foreign :
        (key : WorkspaceKey) (new found : TaskRow)
        → same_workspace key space ≡ false
        → old new.id ≡ some found
        → is_in key found ≡ true
        → after k ≡ (if str_eq new.id k then some new else old k)
        → after k ≡ some row
    put_foreign key new found other e mine put = elim (Bool-cases (str_eq new.id k)) [
      | inr miss ↦ put ∙ rw miss there
      | inl hit ↦
          let same : found ≡ row = ground (arith, eq_iff new.id k, there, e) in
          let clash : is_in key row ≡ true = ap (is_in key) (sym same) ∙ mine in
          let miss = other_workspace space key row here other in cc
    ]

    Updated-foreign :
        (key : WorkspaceKey) (task : UserTask) (revision : ℕ) (found : Option TaskRow)
        (answer : Answer)
        → same_workspace key space ≡ false
        → old task.id ≡ found
        → Updated key task revision found old answer after
        → after k ≡ some row
    unfolding task_values
    Updated-foreign key task revision none answer other e (_, same) = same k ∙ there
    Updated-foreign key task revision (some r) answer other e (inl (_, _, same)) = same k ∙ there
    Updated-foreign key task revision (some r) answer other e (inr (inl (_, _, _, same))) =
        same k ∙ there
    Updated-foreign key task revision (some r) answer other e (inr (inr (inl (_, _, _, _, same)))) =
        same k ∙ there
    Updated-foreign key task revision (some r) answer other e
          (inr (inr (inr (inl (_, _, _, _, _, same))))) =
        same k ∙ there
    Updated-foreign key task revision (some r) answer other e
          (inr (inr (inr (inr (_, mine, _, _, _, put))))) =
        put_foreign key (task_values (record task { revision = revision + 1 })) r other e mine
          (put k)

    Answers-foreign :
        (is_zone : String → Bool) (call : Call) (answer : Answer)
        → IsForeign space call
        → Answers is_zone call old answer after
        → after k ≡ some row
    Answers-foreign is_zone (create task) answer other created = Created-foreign task answer created
    Answers-foreign is_zone (get key id) answer other (_, same) = same k ∙ there
    Answers-foreign is_zone (update key task revision) answer other updated =
        Updated-foreign key task revision (old task.id) answer other refl updated

  run_calls-keeps :
      (is_zone : String → Bool) (calls : List Call) (table : List TaskRow)
      → IsKeyed row_key table
      → All (IsForeign space) calls
      → book table k ≡ some row
      → book (run_calls is_zone calls table).1 k ≡ some row
  unfolding run_calls
  run_calls-keeps is_zone [] table keyed other there = there
  run_calls-keeps is_zone (call ∷ calls) table keyed other there =
      let next = (run_call is_zone call table).1 in
      run_calls-keeps is_zone calls next (run_call-IsKeyed is_zone call table keyed) other.1 (
        Answers-foreign (book table) (book next) there is_zone call (run_call is_zone call table).0
          other.0 (run_call-Answers is_zone call table keyed))

-- Calls in other workspaces, and insertions, leave a task of the workspace `space` as it is, and in
-- every workspace but `space` a read of its id answers that there is none, and no list, whatever its
-- query, has a task with that id.
pub run_calls-isolates :
    (is_zone : String → Bool) (calls : List Call) (table : List TaskRow) (space : WorkspaceKey)
    (k : String) (row : TaskRow)
    → IsKeyed row_key table
    → All (IsForeign space) calls
    → book table k ≡ some row
    → is_in space row ≡ true
    → (book (run_calls is_zone calls table).1 k ≡ some row)
      × ((key : WorkspaceKey)
          → same_workspace key space ≡ false
          → (get_task is_zone key k (run_calls is_zone calls table).1 ≡ err UserTaskError.not_found)
            × ((json_tail : ℕ → List ℕ) (query : UserTaskQuery) (as_of : Option Instant)
                → Hides k (
                    list_tasks json_tail is_zone key query as_of
                      (run_calls is_zone calls table).1)))
run_calls-isolates is_zone calls table space k row keyed other there here =
    let after = (run_calls is_zone calls table).1 in
    let kept = run_calls-keeps space k row here is_zone calls table keyed other there in
    let still_keyed = run_calls-IsKeyed is_zone calls table keyed in
    (
      kept,
      λ key foreign. (
        Seen-foreign space k row here is_zone key (get_task is_zone key k after) foreign (
            subst (λ found. Seen is_zone key found (get_task is_zone key k after)) kept
              (get_task-Seen after still_keyed is_zone key k)),
        λ json_tail query as_of.
            list_tasks-Hides json_tail is_zone key query after still_keyed k row kept
              (other_workspace space key row here foreign) as_of,
      ),
    )
