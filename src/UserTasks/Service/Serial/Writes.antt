-- ===== src/UserTasks/Service/Serial/Writes.antt =====
-- A write of a method, and what its answer tells.
use mathlib.Core.Path.{subst}
use ai_lab_os.Prelude.{
  ℕ, ◌+◌, Bool, true, false, ◌≡◌, refl, ap, ◌∙◌, inl, inr, Option, none, some, List, String, str_eq,
  if◌then◌else◌, or_default, ok, err, arith,
}
use ai_lab_os.Sql.{IsKeyed}
use ai_lab_os.Sql.Laws.{key-find_key}
use ai_lab_os.Scheduler.Models.{Instant}
use ai_lab_os.UserTasks.Models.{UserTask, UserTaskStatus, status_eq}
use ai_lab_os.UserTasks.Spaces.{WorkspaceKey}
use ai_lab_os.UserTasks.Table as Repository
use ai_lab_os.UserTasks.Table.{TaskRow, row_key, task_values, is_in, get_task}
use ai_lab_os.UserTasks.Spec.{Call, Answer}
use ai_lab_os.UserTasks.Refines.{book}
use ai_lab_os.UserTasks.Refines.Revisions.{run_calls-Grown, run_calls-IsKeyed}
use ai_lab_os.UserTasks.Service.{Service, Outcome, publish, fail}
use ai_lab_os.UserTasks.Service.Answers.{IsVersion, update_ok, publish-table, coordinate_ok}
use ai_lab_os.UserTasks.Service.Transition.{
  Coordinator, after_interim, transitioned, is_stale, after_transition, status_event, after_write,
}

-- The method has changed the task `id` from the version that was read, which no one had changed
-- meanwhile, to `result`, at the next revision; it has changed no other task.
abbrev pub Changed : String → Service → List TaskRow → List TaskRow → TaskRow → UserTask → Type 0
Changed id service written after row result =
    (book service.table id ≡ some row)
    × (book written id ≡ some row)
    × (result.id ≡ id)
    × (result.revision ≡ row.revision + 1)
    × ((k : String)
        → book after k ≡ (if str_eq id k then some (task_values result) else book written k))

module _ (is_zone : String → Bool) (interim : List Call) (service : Service) where
  -- A revision stands for one version of a task.
  same_version :
      (id : String) (row found : TaskRow)
      → IsKeyed row_key service.table
      → book service.table id ≡ some row
      → book (after_interim is_zone interim service).table id ≡ some found
      → found.revision ≡ row.revision
      → found ≡ row
  unfolding after_interim
  same_version id row found keyed e e' same =
      elim (run_calls-Grown is_zone interim service.table id row keyed e) [
        | inl kept ↦ ground arith
        | inr (next, later, lt) ↦
            let there : found ≡ next = ground arith in
            let revisions : found.revision ≡ next.revision =
              ap (λ (r : TaskRow). r.revision) there in
            absurd (omega arith)
      ]

  -- A candidate made of a task that was read, and written at its revision.
  pub written-Changed :
      (key : WorkspaceKey) (id : String) (current candidate result : UserTask) (row : TaskRow)
      (after : List TaskRow)
      → IsKeyed row_key service.table
      → book service.table id ≡ some row
      → IsVersion current row
      → candidate.id ≡ current.id
      → Repository.update key candidate current.revision
          (after_interim is_zone interim service).table
        ≡ (ok result, after)
      → Changed id service (after_interim is_zone interim service).table after row result
        × (result ≡ record candidate { revision = current.revision + 1 })
  unfolding after_interim task_values
  written-Changed key id current candidate result row after keyed e version same_id written =
      let (found, there, mine, at, given, put) =
        update_ok key candidate result current.revision
          (after_interim is_zone interim service).table after
          (run_calls-IsKeyed is_zone interim service.table keyed) written in
      let row_id : row.id ≡ id = key-find_key row_key id service.table row e in
      let candidate_id : candidate.id ≡ id = same_id ∙ version.0 ∙ row_id in
      let there' =
        subst (λ k. book (after_interim is_zone interim service).table k ≡ some found) candidate_id
          there in
      let kept : found ≡ row = same_version id row found keyed e there' (at ∙ version.1) in
      let result_id : result.id ≡ id = ap (λ (t : UserTask). t.id) given ∙ candidate_id in
      (
        (
          e,
          there' ∙ ap some kept,
          result_id,
          ap (λ (t : UserTask). t.revision) given ∙ ap (λ n. n + 1) version.1,
          λ k.
              put k
              ∙ ap
                  (λ i.
                    if str_eq i k
                    then some (task_values result)
                    else book (after_interim is_zone interim service).table k)
                  result_id,
        ),
        given,
      )

-- What a method that answers with a task leaves: the table as it was, with the task that it read, or
-- the task changed.
module _ (is_zone : String → Bool) (bus_is_running : Bool) (interim : List Call)
    (service : Service) where
  -- The write of `after_transition` answered.
  pub after_transition_ok :
      (coordinator : Coordinator) (id : String) (target : UserTaskStatus) (trace_id : String)
      (outcome : Answer × List TaskRow) (s last : Service) (result : UserTask)
      → after_transition is_zone bus_is_running coordinator id target trace_id outcome s
        ≡ (ok result, last)
      → outcome ≡ (ok result, last.table)
  unfolding after_transition fail
  after_transition_ok coordinator id target trace_id (ok task, table) s last result e =
      let (same, kept) =
        coordinate_ok coordinator task result trace_id
          (publish bus_is_running (status_event target) task.id trace_id "ok"
            (record s { table = table }))
          last e in
      let tables : last.table ≡ table =
        kept
        ∙ publish-table bus_is_running (status_event target) task.id trace_id "ok"
            (record s { table = table }) in
      cc
  after_transition_ok coordinator id target trace_id (err exc, table) s last result e = ground arith

  pub after_write_ok :
      (event operation id trace_id : String) (outcome : Answer × List TaskRow) (s last : Service)
      (result : UserTask)
      → after_write is_zone bus_is_running event operation id trace_id outcome s ≡ (ok result, last)
      → outcome ≡ (ok result, last.table)
  unfolding after_write fail
  after_write_ok event operation id trace_id (ok task, table) s last result e =
      let tables : (publish bus_is_running event task.id trace_id "ok"
            (record s { table = table })).table
          ≡ last.table =
        ap (λ (o : Outcome). o.1.table) e in
      let named =
        publish-table bus_is_running event task.id trace_id "ok" (record s { table = table }) in
      ground arith
  after_write_ok event operation id trace_id (err exc, table) s last result e = ground arith

pub transitioned-fields :
    (target : UserTaskStatus) (now : Instant) (trace_id : String) (task : UserTask)
    → ((transitioned target now trace_id task).id ≡ task.id)
      × ((transitioned target now trace_id task).status ≡ target)
unfolding transitioned
transitioned-fields UserTaskStatus.active now trace_id task = (refl, refl)
transitioned-fields UserTaskStatus.completed now trace_id task = (refl, refl)
transitioned-fields UserTaskStatus.cancelled now trace_id task = (refl, refl)

pub current_revision :
    (expected : Option ℕ) (revision : ℕ)
    → is_stale expected revision ≡ false
    → or_default revision expected ≡ revision
current_revision none revision e = refl
current_revision (some n) revision e = ground arith

pub status_eq→≡ : (a b : UserTaskStatus) → status_eq a b ≡ true → a ≡ b
status_eq→≡ UserTaskStatus.active UserTaskStatus.active e = refl
status_eq→≡ UserTaskStatus.completed UserTaskStatus.completed e = refl
status_eq→≡ UserTaskStatus.cancelled UserTaskStatus.cancelled e = refl
status_eq→≡ UserTaskStatus.active UserTaskStatus.completed e = cc
status_eq→≡ UserTaskStatus.active UserTaskStatus.cancelled e = cc
status_eq→≡ UserTaskStatus.completed UserTaskStatus.active e = cc
status_eq→≡ UserTaskStatus.completed UserTaskStatus.cancelled e = cc
status_eq→≡ UserTaskStatus.cancelled UserTaskStatus.active e = cc
status_eq→≡ UserTaskStatus.cancelled UserTaskStatus.completed e = cc
