-- ===== src/UserTasks/Service/Serial.antt =====
-- A method that reads a task and then writes it writes over nothing that it has not read, whatever
-- other callers do in between.
pub mod Writes
use mathlib.Core.Path.{subst}
use ai_lab_os.Prelude.{
  ℕ, ◌+◌, Bool, true, false, ◌≡◌, ◌⊎◌, refl, sym, ap, ◌∙◌, inl, inr, Option, none, some, List,
  String, str_eq, if◌then◌else◌, or_default, ok, err, Bool-cases, arith,
}
use ai_lab_os.Sql.{IsKeyed}
use ai_lab_os.Sql.Laws.{key-find_key}
use ai_lab_os.Scheduler.Models.{Instant}
use ai_lab_os.UserTasks.Models.{UserTask, UserTaskStatus, status_eq, is_active}
use ai_lab_os.UserTasks.Spaces.{WorkspaceKey, normalize_workspace_key}
use ai_lab_os.UserTasks.Table as Repository
use ai_lab_os.UserTasks.Table.{TaskRow, row_key, task_values, is_in, get_task}
use ai_lab_os.UserTasks.Spec.{Call, Answer}
use ai_lab_os.UserTasks.Refines.{book}
use ai_lab_os.UserTasks.Refines.Revisions.{run_calls-Grown, run_calls-IsKeyed}
use ai_lab_os.UserTasks.Service.{Service, Outcome, publish, get, fail}
use ai_lab_os.UserTasks.Service.Answers.{
  IsVersion, get_task_ok, get_ok, update_ok, publish-table, coordinate_ok,
}
use ai_lab_os.UserTasks.Service.Transition.{
  Coordinator, after_interim, transitioned, is_stale, after_transition, transition_from, transition,
  status_event, after_write,
}
use ai_lab_os.UserTasks.Service.Serial.Writes.{
  Changed, written-Changed, after_transition_ok, transitioned-fields, current_revision, status_eq→≡,
}

-- The task had the status already and nothing is written, or it was active and is changed.
abbrev pub Transitioned :
    (String → Bool)
    → WorkspaceKey
    → String
    → UserTaskStatus
    → List Call
    → Service
    → UserTask
    → Service
    → Type 0
Transitioned is_zone key id target interim service result last =
    ((get_task is_zone (normalize_workspace_key (normalize_workspace_key key)) id service.table
        ≡ ok result)
      × (result.status ≡ target)
      × (last.table ≡ service.table))
    ⊎ ((row : TaskRow) × Changed id service (after_interim is_zone interim service).table last.table
          row result
        × (row.status ≡ UserTaskStatus.active)
        × (result.status ≡ target))

module _ (is_zone : String → Bool) (bus_is_running : Bool) (interim : List Call) (service : Service)
    (keyed : IsKeyed row_key service.table) (coordinator : Coordinator) (key : WorkspaceKey)
    (id : String) (target : UserTaskStatus) (expected : Option ℕ) (trace_id : String)
    (now : Instant) where
  written-Transitioned :
      (current result : UserTask) (last : Service)
      → get_task is_zone (normalize_workspace_key (normalize_workspace_key key)) id service.table
        ≡ ok current
      → is_active current.status ≡ true
      → is_stale expected current.revision ≡ false
      → Repository.update
          (normalize_workspace_key key)
          (transitioned target now trace_id current)
          (or_default current.revision expected)
          (after_interim is_zone interim service).table
        ≡ (ok result, last.table)
      → Transitioned is_zone key id target interim service result last
  written-Transitioned current result last got active fresh written =
      let (row, e, mine, version) = get_task_ok is_zone _ id service.table current got in
      let (same_id, status) = transitioned-fields target now trace_id current in
      let revision : or_default current.revision expected ≡ current.revision =
        current_revision expected current.revision fresh in
      let (changed, given) =
        written-Changed is_zone interim service (normalize_workspace_key key) id current
          (transitioned target now trace_id current) result row last.table keyed e version same_id
          (subst
            (λ n.
              Repository.update (normalize_workspace_key key)
                (transitioned target now trace_id current) n
                (after_interim is_zone interim service).table
              ≡ (ok result, last.table))
            revision written) in
      inr (
        row,
        changed,
        sym version.2 ∙ status_eq→≡ current.status UserTaskStatus.active active,
        ap (λ (t : UserTask). t.status) given ∙ status,
      )

  transition_from-Transitioned :
      (outcome : Outcome) (result : UserTask) (last : Service)
      → get is_zone bus_is_running (normalize_workspace_key key) id trace_id service ≡ outcome
      → transition_from is_zone bus_is_running coordinator
          (normalize_workspace_key key)
          id
          target
          expected
          trace_id
          now
          interim
          outcome
        ≡ (ok result, last)
      → Transitioned is_zone key id target interim service result last
  unfolding transition_from fail
  transition_from-Transitioned (err e, s) result last got done = ground arith
  transition_from-Transitioned (ok current, s) result last got done =
      let (found, same) = get_ok is_zone bus_is_running _ id trace_id service s current got in
      elim (Bool-cases (is_stale expected current.revision)) [
        | inl stale ↦ ground arith
        | inr fresh ↦ elim (Bool-cases (status_eq current.status target)) [
          | inl already ↦
              let (given, kept) =
                coordinate_ok coordinator current result trace_id s last (ground arith) in
              let status = status_eq→≡ current.status target already in
              inl (
                found ∙ ap ok given,
                ap (λ (t : UserTask). t.status) (sym given) ∙ status,
                kept ∙ ap (λ (x : Service). x.table) same,
              )
          | inr other ↦ elim (Bool-cases (is_active current.status)) [
            | inr over ↦ ground arith
            | inl active ↦ written-Transitioned current result last found active fresh (
                after_transition_ok is_zone bus_is_running interim service coordinator id target
                  trace_id
                  (Repository.update (normalize_workspace_key key)
                    (transitioned target now trace_id current)
                    (or_default current.revision expected)
                    (after_interim is_zone interim service).table)
                  (after_interim is_zone interim service) last result (ground arith))
          ]
        ]
      ]

  -- `complete` and `cancel` that return a task leave the table as it was, if the task had the status
  -- already. Otherwise the task was active, no caller changed it between the read and the write, and
  -- the table has it at the next revision with the new status; all other tasks are as the other
  -- callers have left them.
  pub transition-serial :
      (result : UserTask) (last : Service)
      → transition is_zone bus_is_running coordinator key id target expected trace_id now interim
          service
        ≡ (ok result, last)
      → Transitioned is_zone key id target interim service result last
  unfolding transition
  transition-serial result last done =
      transition_from-Transitioned
        (get is_zone bus_is_running (normalize_workspace_key key) id trace_id service) result last
        refl done
