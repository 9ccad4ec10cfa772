-- ===== src/UserTasks/Examples.antt =====
-- The theorems on user tasks at concrete inputs.
use ai_lab_os.Prelude.{
  Option, ℕ, ◌+◌, ◌≡◌, refl, Bool, true, false, ◌||◌, none, some, List, [], ◌∷◌, String, str_eq,
  codes, ok, err, ◌==◌, if◌then◌else◌, is_blank, strip,
}
use ai_lab_os.Json.{Json, text, nothing, field, get, fields_contain_sensitive_key}
use ai_lab_os.Sql.{IsKeyed, count_where, find_key}
use ai_lab_os.Scheduler.Models.{Instant}
use ai_lab_os.UserTasks.Models.{
  UserTask, UserTaskStatus, UserTaskPriority, UserTaskQuery, UserTaskError, is_overdue,
  model_validate,
}
use ai_lab_os.UserTasks.Spaces.{
  WorkspaceKey, default_workspace, normalize_workspace_key, same_workspace,
}
use ai_lab_os.UserTasks.Table.{TaskRow, row_key, get_task, is_in, task_values}
use ai_lab_os.UserTasks.Spec as Spec
use ai_lab_os.UserTasks.Spec.{Call, AnswersAll}
use ai_lab_os.UserTasks.Calls.{run_calls}
use ai_lab_os.UserTasks.Refines.{book}
use ai_lab_os.UserTasks.Refines.Runs.{run_calls-refines}
use ai_lab_os.UserTasks.Refines.Isolation.{run_calls-isolates}
use ai_lab_os.TimeText.{iso_tail}
use ai_lab_os.UserTasks.Listing.{list_tasks, overdue_where}
use ai_lab_os.UserTasks.Listing.Hidden.{Hides}
use ai_lab_os.UserTasks.Listing.Overdue.{overdue_where-is_overdue}
use ai_lab_os.UserTasks.Listing.Pages.{Listed, list_tasks-Listed}
use ai_lab_os.UserTasks.Service.{Service}
use ai_lab_os.UserTasks.Service.Create.{NewTask, create, with_workspace}
use ai_lab_os.UserTasks.Service.Transition.{transition}
use ai_lab_os.UserTasks.Service.Serial.{Transitioned, transition-serial}
use ai_lab_os.UserTasks.Service.Stored.{create-get}
use ai_lab_os.UserTasks.Legacy.{Memory}
use ai_lab_os.UserTasks.Legacy.Import.{LegacyImportResult, import_items}
use ai_lab_os.UserTasks.Legacy.Settled.{IsIdle}
use ai_lab_os.UserTasks.Legacy.Again.{import_items-again}

abbrev any_zone : String → Bool
any_zone name = str_eq name "UTC" || str_eq name "Asia/Shanghai"

abbrev team : WorkspaceKey
team = record { tenant_id = "acme"; workspace_id = "team"; namespace = "main" }

abbrev other_team : WorkspaceKey
other_team = record { tenant_id = "acme"; workspace_id = "other"; namespace = "main" }

abbrev report : UserTask
report = record {
  id = "ut_1";
  title = "Report";
  description = "";
  status = UserTaskStatus.active;
  priority = UserTaskPriority.high;
  due_at = some 5000000;
  timezone = "UTC";
  created_at = 1000000;
  updated_at = 1000000;
  completed_at = none;
  cancelled_at = none;
  source = "api";
  session_id = "";
  agent_id = "";
  trace_id = "t0";
  metadata =
      field "workspace"
        (Json.object (
          field "tenant_id" (text "acme")
            (field "workspace_id" (text "team") (field "namespace" (text "main") nothing))))
        nothing;
  legacy_source_id = none;
  revision = 1;
}

abbrev table : List TaskRow
unfolding task_values
table = task_values report ∷ []

table-IsKeyed : IsKeyed row_key table
unfolding table find_key
table-IsKeyed = (refl, tt)

abbrev calls : List Call
calls =
    Spec.get other_team "ut_1"
    ∷ Spec.update other_team report 1
    ∷ Spec.create (record report { id = "ut_2" })
    ∷ []

run_calls-refines_example :
    AnswersAll any_zone calls
      (book table)
      (run_calls any_zone calls table).0
      (book (run_calls any_zone calls table).1)
    × IsKeyed row_key (run_calls any_zone calls table).1
run_calls-refines_example = run_calls-refines any_zone calls table table-IsKeyed

run_calls-isolates_example :
    (book (run_calls any_zone calls table).1 "ut_1" ≡ some (task_values report))
    × ((key : WorkspaceKey)
        → same_workspace key team ≡ false
        → (get_task any_zone key "ut_1" (run_calls any_zone calls table).1
            ≡ err UserTaskError.not_found)
          × ((json_tail : ℕ → List ℕ) (query : UserTaskQuery) (as_of : Option Instant)
              → Hides "ut_1" (
                  list_tasks json_tail any_zone key query as_of
                    (run_calls any_zone calls table).1)))
unfolding table find_key is_in get
run_calls-isolates_example =
    run_calls-isolates any_zone calls table team "ut_1" (task_values report) table-IsKeyed
      (refl, (refl, (tt, tt))) refl refl

abbrev service : Service
service = record { table = table; events = []; degraded = false; lifecycle_degraded = false }

abbrev completed_report : UserTask
completed_report = record report {
  status = UserTaskStatus.completed;
  updated_at = 7;
  completed_at = some 7;
  trace_id = "t1";
  revision = 2;
}

-- Another workspace tries to change the task between the read and the write.
transition-serial_example :
    Transitioned any_zone team "ut_1" UserTaskStatus.completed calls service completed_report
      (transition any_zone true none team "ut_1" UserTaskStatus.completed
        (some 1)
        "t1"
        7
        calls
        service).1
unfolding transition run_calls table find_key is_blank strip get model_validate
    fields_contain_sensitive_key count_where
transition-serial_example =
    transition-serial any_zone true calls service table-IsKeyed none team "ut_1"
      UserTaskStatus.completed (some 1) "t1" 7 completed_report _ refl

abbrev note : NewTask
note = record {
  title = "  Note ";
  description = "";
  priority = UserTaskPriority.medium;
  due_at = none;
  timezone = "UTC";
  status = UserTaskStatus.active;
  created_at = none;
  completed_at = none;
  cancelled_at = none;
  source = "api";
  session_id = "";
  agent_id = "";
  trace_id = "t2";
  metadata = none;
  task_id = none;
  legacy_source_id = none;
}

abbrev noted : UserTask
unfolding with_workspace
noted = record report {
  id = "ut_3";
  title = "Note";
  priority = UserTaskPriority.medium;
  due_at = none;
  created_at = 9;
  updated_at = 9;
  trace_id = "t2";
  metadata = with_workspace team none;
}

create-get_example :
    get_task any_zone
      (normalize_workspace_key team)
      "ut_3"
      (create any_zone true team note 9 "ut_3" service).1.table
    ≡ ok noted
unfolding create table find_key with_workspace noted is_blank strip fields_contain_sensitive_key
    count_where
create-get_example = create-get any_zone true team note 9 "ut_3" service _ noted table-IsKeyed refl

abbrev everything : UserTaskQuery
everything = record {
  status = none;
  priority = none;
  due_from = none;
  due_to = none;
  completed_from = none;
  completed_to = none;
  cancelled_from = none;
  cancelled_to = none;
  overdue = some true;
  limit = 100;
  offset = 0;
}

list_tasks-Listed_example :
    Listed iso_tail any_zone team everything 9000000 table
      (list_tasks iso_tail any_zone team everything (some 9000000) table)
unfolding default_workspace count_where table
list_tasks-Listed_example = list_tasks-Listed iso_tail any_zone team everything 9000000 table refl

overdue_where-is_overdue_example :
    overdue_where iso_tail 9000000 true (task_values report) ≡ is_overdue report 9000000
overdue_where-is_overdue_example = overdue_where-is_overdue iso_tail report 9000000 refl

-- A column with the `Z` of a JSON text.
abbrev zulu : ℕ → List ℕ
zulu n = if n == 0 then codes "Z" else iso_tail n

-- Half a second after the deadline the task is overdue, and the query does not have it.
overdue_in_the_same_second :
    (is_overdue report 5500000 ≡ true)
    × (overdue_where zulu 5500000 true (task_values report) ≡ false)
unfolding is_overdue overdue_where task_values
overdue_in_the_same_second = (refl, refl)

abbrev old_task : Memory
old_task = record {
  id = some "m1";
  content = some (field "type" (text "task") (field "title" (text "Old") nothing));
  metadata = none;
  timestamp = none;
}

abbrev no_result : LegacyImportResult
no_result = record { imported = 0; skipped = 0; failed = 0 }

abbrev import_old :
    List (Memory × Instant) → LegacyImportResult → Service → LegacyImportResult × Service
import_old = import_items any_zone true (λ value. "") (λ value zone date_end. none) (λ id. id) "t3"

import_items-again_example :
    IsIdle (import_old ((old_task, 11) ∷ []) no_result service).1 no_result (
      import_old
        ((old_task, 12) ∷ [])
        no_result
        (import_old ((old_task, 11) ∷ []) no_result service).1)
import_items-again_example =
    import_items-again any_zone true (λ value. "") (λ value zone date_end. none) (λ id. id) "t3"
      (λ now. now + 1) ((old_task, 11) ∷ []) no_result no_result service table-IsKeyed

-- The first import has the task.
import_imports : (import_old ((old_task, 11) ∷ []) no_result service).0.imported ≡ 1
unfolding import_items table find_key get fields_contain_sensitive_key count_where
import_imports = refl
