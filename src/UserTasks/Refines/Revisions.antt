-- ===== src/UserTasks/Refines/Revisions.antt =====
-- A change of a task gives it the next revision, so a revision stands for one version of the task.
use ai_lab_os.Prelude.{
  ℕ, ◌+◌, ◌<◌, Bool, ◌≡◌, ◌⊎◌, refl, ◌∙◌, inl, inr, Option, none, some, List, [], ◌∷◌, String,
  str_eq, eq_iff, Bool-cases, arith,
}
use ai_lab_os.Sql.{IsKeyed}
use ai_lab_os.UserTasks.Models.{UserTask}
use ai_lab_os.UserTasks.Spaces.{WorkspaceKey}
use ai_lab_os.UserTasks.Table.{TaskRow, row_key, task_values}
use ai_lab_os.UserTasks.Spec.{Book, Call, create, get, update, Answer, Answers, Created, Updated}
use ai_lab_os.UserTasks.Calls.{run_call, run_calls}
use ai_lab_os.UserTasks.Refines.{book}
use ai_lab_os.UserTasks.Refines.Runs.{run_call-IsKeyed, run_call-Answers}

-- What becomes of the row of an id: it stays, or a row with a higher revision takes its place.
abbrev pub Grown : TaskRow → Option TaskRow → Type 0
Grown row new =
    (new ≡ some row) ⊎ ((row' : TaskRow) × (new ≡ some row') × (row.revision < row'.revision))

module _ (k : String) (row : TaskRow) (old after : Book) (there : old k ≡ some row) where
  Created-Grown :
      (task : UserTask) (answer : Answer) → Created task old answer after → Grown row (after k)
  unfolding task_values
  Created-Grown task answer (inl (_, _, _, same)) = inl (same k ∙ there)
  Created-Grown task answer (inr (inl (_, _, _, same))) = inl (same k ∙ there)
  Created-Grown task answer (inr (inr (free, _, _, put))) =
      inl (ground (arith, put k, eq_iff task.id k, there, free))

  Updated-Grown :
      (key : WorkspaceKey) (task : UserTask) (revision : ℕ) (found : Option TaskRow)
      (answer : Answer)
      → old task.id ≡ found
      → Updated key task revision found old answer after
      → Grown row (after k)
  unfolding task_values
  Updated-Grown key task revision none answer e (_, same) = inl (same k ∙ there)
  Updated-Grown key task revision (some r) answer e (inl (_, _, same)) = inl (same k ∙ there)
  Updated-Grown key task revision (some r) answer e (inr (inl (_, _, _, same))) =
      inl (same k ∙ there)
  Updated-Grown key task revision (some r) answer e (inr (inr (inl (_, _, _, _, same)))) =
      inl (same k ∙ there)
  Updated-Grown key task revision (some r) answer e (inr (inr (inr (inl (_, _, _, _, _, same))))) =
      inl (same k ∙ there)
  Updated-Grown key task revision (some r) answer e (inr (inr (inr (inr (_, _, now, _, _, put))))) =
      elim (Bool-cases (str_eq task.id k)) [
        | inl hit ↦ inr (
          task_values (record task { revision = revision + 1 }),
          put k ∙ rw hit,
          ground (arith, eq_iff task.id k, there, e),
        )
        | inr miss ↦ inl (put k ∙ rw miss there)
      ]

module _ (is_zone : String → Bool) where
  Answers-Grown :
      (call : Call) (k : String) (row : TaskRow) (old after : Book) (answer : Answer)
      → old k ≡ some row
      → Answers is_zone call old answer after
      → Grown row (after k)
  Answers-Grown (create task) k row old after answer there created =
      Created-Grown k row old after there task answer created
  Answers-Grown (get key id) k row old after answer there (_, same) = inl (same k ∙ there)
  Answers-Grown (update key task revision) k row old after answer there updated =
      Updated-Grown k row old after there key task revision (old task.id) answer refl updated

  Grown-trans :
      (row : TaskRow) (middle new : Option TaskRow)
      → Grown row middle
      → ((r : TaskRow) → middle ≡ some r → Grown r new)
      → Grown row new
  Grown-trans row middle new (inl same) next = next row same
  Grown-trans row middle new (inr (r, e, lt)) next = elim (next r e) [
    | inl same ↦ inr (r, same, lt)
    | inr (r', e', lt') ↦ inr (r', e', omega arith)
  ]

  -- Whatever calls of any callers there are, a task stays as it was or has a higher revision.
  pub run_calls-Grown :
      (calls : List Call) (table : List TaskRow) (k : String) (row : TaskRow)
      → IsKeyed row_key table
      → book table k ≡ some row
      → Grown row (book (run_calls is_zone calls table).1 k)
  unfolding run_calls
  run_calls-Grown [] table k row keyed there = inl there
  run_calls-Grown (call ∷ calls) table k row keyed there =
      let next = (run_call is_zone call table).1 in
      Grown-trans row (book next k) (book (run_calls is_zone calls next).1 k)
        (Answers-Grown call k row (book table) (book next) (run_call is_zone call table).0 there
          (run_call-Answers is_zone call table keyed))
        (λ r e. run_calls-Grown calls next k r (run_call-IsKeyed is_zone call table keyed) e)

  pub run_calls-IsKeyed :
      (calls : List Call) (table : List TaskRow)
      → IsKeyed row_key table
      → IsKeyed row_key (run_calls is_zone calls table).1
  unfolding run_calls
  run_calls-IsKeyed [] table keyed = keyed
  run_calls-IsKeyed (call ∷ calls) table keyed =
      run_calls-IsKeyed calls (run_call is_zone call table).1
        (run_call-IsKeyed is_zone call table keyed)
