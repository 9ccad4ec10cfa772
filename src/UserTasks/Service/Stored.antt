-- ===== src/UserTasks/Service/Stored.antt =====
-- A task that is created can be read in its workspace as it was returned.
use mathlib.Core.Path.{subst}
use ai_lab_os.Prelude.{
  Bool, true, false, ◌≡◌, refl, sym, ap, ◌∙◌, inl, inr, Option, some, List, String, str_eq,
  str_eq_refl, or_default, Result, ok, err, Bool-cases, arith, is_space, is_blank, strip,
  is_blank-strip, strip-strip,
}
use ai_lab_os.Json.{Json, Fields, nothing, field, object, get, set}
use ai_lab_os.Sql.{IsKeyed}
use ai_lab_os.UserTasks.Models.{UserTask, UserTaskError, accepts, model_validate}
use ai_lab_os.UserTasks.Spaces.{
  WorkspaceKey, normalize_workspace_key, normal_part, same_workspace, canonical_workspace_metadata,
}
use ai_lab_os.UserTasks.Table as Repository
use ai_lab_os.UserTasks.Table.{
  TaskRow, row_key, task_values, is_in, get_task, row_task, task_with, loaded, workspace_of,
  workspace_of_fields, workspace_of_parts, is_owner, part_of, is_trimmed_empty,
}
use ai_lab_os.Scheduler.Models.{Instant}
use ai_lab_os.UserTasks.Spec.{Answer, Seen, IsPut, Created}
use ai_lab_os.UserTasks.Refines.{book, get_task-Seen, create-Created}
use ai_lab_os.UserTasks.Refines.Runs.{create-IsKeyed}
use ai_lab_os.UserTasks.Service.{Service, Outcome, publish, fail}
use ai_lab_os.UserTasks.Service.Answers.{publish-table}
use ai_lab_os.UserTasks.Service.Create.{
  NewTask, with_workspace, new_task, create, after_insert, create_failed, after_validation,
}

get-set : (key : String) (value : Json) (fs : Fields) → get key (set key value fs) ≡ some value
unfolding get set
get-set key value nothing = rw (str_eq_refl key) refl
get-set key value (field k v fs) = elim (Bool-cases (str_eq k key)) [
  | inl hit ↦ rw (hit, hit) refl
  | inr miss ↦ rw (miss, miss) (get-set key value fs)
]

-- What is only spaces is blank.
is_trimmed_empty→is_blank : (s : String) → is_blank s ≡ false → is_trimmed_empty s ≡ false
unfolding is_blank is_trimmed_empty is_space
is_trimmed_empty→is_blank String.[] e = e
is_trimmed_empty→is_blank (String.◌∷◌ c s) e = ground (arith, is_trimmed_empty→is_blank s)

normal_part-full : (part : String) → is_trimmed_empty (normal_part part) ≡ false
unfolding normal_part is_trimmed_empty
normal_part-full part = elim (Bool-cases (is_blank part)) [
  | inl blank ↦ rw blank refl
  | inr word ↦ rw word (is_trimmed_empty→is_blank (strip part) (is_blank-strip part ∙ word))
]

-- The workspace that is read from the metadata that `create` and `update` write.
pub workspace_of-with_workspace :
    (key : WorkspaceKey) (metadata : Option Fields)
    → workspace_of (some (object (with_workspace (normalize_workspace_key key) metadata)))
      ≡ some (normalize_workspace_key key)
unfolding workspace_of workspace_of_fields workspace_of_parts part_of with_workspace
    canonical_workspace_metadata get normalize_workspace_key
workspace_of-with_workspace key metadata =
    rw
      (
        get-set "workspace" (canonical_workspace_metadata (normalize_workspace_key key))
            (or_default nothing metadata),
        normal_part-full key.tenant_id,
        normal_part-full key.workspace_id,
        normal_part-full key.namespace,
      )
      refl

same_workspace_refl : (key : WorkspaceKey) → same_workspace key key ≡ true
same_workspace_refl key =
    rw (str_eq_refl key.tenant_id, str_eq_refl key.workspace_id, str_eq_refl key.namespace) refl

module _ (is_zone : String → Bool) where
  -- A task that a validation has made passes it again.
  validated_again :
      (task result : UserTask)
      → model_validate is_zone task ≡ ok result
      → model_validate is_zone result ≡ ok result
  unfolding model_validate accepts
  validated_again task result e = elim (Bool-cases (accepts is_zone task)) [
    | inr no_case ↦ ground arith
    | inl yes_case ↦
        let stripped : UserTask = record task {
          title = strip task.title;
          timezone = strip task.timezone;
        } in
        let same : stripped ≡ result = ground arith in
        subst (λ t. model_validate is_zone t ≡ ok t) same
          (rw
            (
              is_blank-strip task.title,
              is_blank-strip task.timezone,
              strip-strip task.timezone,
              strip-strip task.title,
              yes_case,
            )
            refl)
  ]

  -- What a validated task is read as.
  stored-row_task :
      (task result : UserTask)
      → model_validate is_zone task ≡ ok result
      → row_task is_zone (task_values result) ≡ ok result
  unfolding row_task task_values task_with loaded
  stored-row_task task result e = ap loaded (validated_again task result e)

  validated-metadata :
      (task result : UserTask)
      → model_validate is_zone task ≡ ok result
      → result.metadata ≡ task.metadata
  unfolding model_validate
  validated-metadata task result e = elim (Bool-cases (accepts is_zone task)) [
    | inl yes_case ↦ ground arith
    | inr no_case ↦ ground arith
  ]

  -- A row that is in the workspace of a reader who sees its id.
  get_task-stored :
      (key : WorkspaceKey) (task result : UserTask) (table : List TaskRow)
      → IsKeyed row_key table
      → model_validate is_zone task ≡ ok result
      → workspace_of (some (object task.metadata)) ≡ some key
      → book table result.id ≡ some (task_values result)
      → get_task is_zone key result.id table ≡ ok result
  unfolding task_values is_in
  get_task-stored key task result table keyed valid owner there =
      let here : is_in key (task_values result) ≡ true =
        subst (λ m. is_owner key (workspace_of (some (object m))) ≡ true)
          (sym (validated-metadata task result valid))
          (subst (λ o. is_owner key o ≡ true) (sym owner) (same_workspace_refl key)) in
      elim (subst (λ found. Seen is_zone key found (get_task is_zone key result.id table)) there
        (get_task-Seen table keyed is_zone key result.id)) [
          | inl (bad, _) ↦ ground arith
          | inr (inl (_, other, _)) ↦ cc
          | inr (inr (_, _, answer)) ↦ answer ∙ stored-row_task task result valid
        ]

module _ (is_zone : String → Bool) (bus_is_running : Bool) (args : NewTask)
    (service last : Service) where
  after_insert_ok :
      (outcome : Result UserTaskError UserTask × List TaskRow) (result : UserTask)
      → after_insert is_zone bus_is_running outcome args service ≡ (ok result, last)
      → outcome ≡ (ok result, last.table)
  unfolding after_insert create_failed fail
  after_insert_ok (ok task, table) result e =
      let tables : (publish bus_is_running "user_task.created" task.id args.trace_id "ok"
            (record service { table = table })).table
          ≡ last.table =
        ap (λ (o : Outcome). o.1.table) e in
      let named =
        publish-table bus_is_running "user_task.created" task.id args.trace_id "ok"
          (record service { table = table }) in
      ground arith
  after_insert_ok (err exc, table) result e = ground arith

  inserted :
      (task result : UserTask)
      → IsKeyed row_key service.table
      → Repository.create task service.table ≡ (ok result, last.table)
      → (task ≡ result) × IsPut (task_values result) (book service.table) (book last.table)
  inserted task result keyed e =
      elim (subst (λ (o : Answer × List TaskRow). Created task (book service.table) o.0 (book o.1))
        e (create-Created service.table keyed task)) [
          | inl (_, _, no_answer, _) ↦ cc
          | inr (inl (_, _, no_answer, _)) ↦ cc
          | inr (inr (_, _, answer, put)) ↦
              let same : task ≡ result = ground arith in
              (
                same,
                subst (λ t. IsPut (task_values t) (book service.table) (book last.table)) same put,
              )
        ]

  after_validation-get :
      (key : WorkspaceKey) (task result : UserTask) (valid : Result UserTaskError UserTask)
      → IsKeyed row_key service.table
      → model_validate is_zone task ≡ valid
      → workspace_of (some (object task.metadata)) ≡ some key
      → after_validation is_zone bus_is_running valid args service ≡ (ok result, last)
      → get_task is_zone key result.id last.table ≡ ok result
  unfolding after_validation create_failed fail task_values
  after_validation-get key task result (err exc) keyed valid owner e = ground arith
  after_validation-get key task result (ok made) keyed valid owner e =
      let written = after_insert_ok (Repository.create made service.table) result e in
      let (same, put) = inserted made result keyed written in
      let keyed' : IsKeyed row_key last.table =
        subst (λ (o : Answer × List TaskRow). IsKeyed row_key o.1) written
          (create-IsKeyed made service.table keyed) in
      get_task-stored is_zone key task result last.table keyed' (valid ∙ ap ok same) owner
        (put result.id ∙ rw (str_eq_refl result.id) refl)

-- A task that `create` returns can be read, as it was returned, in the workspace of the call.
pub create-get :
    (is_zone : String → Bool) (bus_is_running : Bool) (key : WorkspaceKey) (args : NewTask)
    (now : Instant) (fresh_id : String) (service last : Service) (result : UserTask)
    → IsKeyed row_key service.table
    → create is_zone bus_is_running key args now fresh_id service ≡ (ok result, last)
    → get_task is_zone (normalize_workspace_key key) result.id last.table ≡ ok result
unfolding create new_task
create-get is_zone bus_is_running key args now fresh_id service last result keyed e =
    after_validation-get is_zone bus_is_running args service last (normalize_workspace_key key)
      (new_task (normalize_workspace_key key) args now fresh_id) result
      (model_validate is_zone (new_task (normalize_workspace_key key) args now fresh_id)) keyed refl
      (workspace_of-with_workspace key args.metadata) e
