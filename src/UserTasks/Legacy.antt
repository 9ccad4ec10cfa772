-- ===== src/UserTasks/Legacy.antt =====
-- UserTaskService.import_legacy of core/user_tasks/service.py: the tasks of an older version, which
-- kept them as memories. The pages that the memory gives are an argument, in their order, and so are
-- what Python's library does: the text of a value that is no text, the parsing of a datetime, and
-- the hash of an id.
pub mod Import
pub mod Settled
pub mod Steps
pub mod Again
use mathlib.Core.Option
use ai_lab_os.Prelude.{
  ℕ, suc, ◌+◌, Bool, true, false, not, ◌&&◌, ◌||◌, Option, none, some, List, [], ◌∷◌, ◌++◌, String,
  str_eq, codes, codes_eq, lower, leb, ltb, ◌==◌, is_blank, strip, if◌then◌else◌, or_default,
  Result, ok, err,
}
use ai_lab_os.Json.{
  Json, Fields, null, boolean, number, text, array, object, nil, nothing, field, get,
}
use ai_lab_os.Scheduler.Models.{Instant}
use ai_lab_os.UserTasks.Models.{UserTask, UserTaskStatus, UserTaskPriority, status_eq}
use ai_lab_os.UserTasks.Spaces.{WorkspaceKey, workspace_key_from_evidence}
use ai_lab_os.UserTasks.Service.Create.{NewTask}

-- A memory: content and metadata are `none` where they are no dict.
pub record Memory : Type 0 where
  pub id : Option String
  pub content : Option Fields
  pub metadata : Option Fields
  pub timestamp : Option Json

-- A number is zero if no digit but 0 stands before its exponent.
unfoldable pub is_zero : List ℕ → Bool
is_zero [] = true
is_zero (c ∷ s) =
    if c == b'e' || c == b'E' then true else not (leb b'1' c && leb c b'9') && is_zero s

-- bool(value)
unfoldable pub is_truthy : Json → Bool
unfolding is_zero
is_truthy null = false
is_truthy (boolean b) = b
is_truthy (number n) = not (is_zero (codes n))
is_truthy (text s) = not (str_eq s "")
is_truthy (array nil) = false
is_truthy (array _) = true
is_truthy (object nothing) = false
is_truthy (object _) = true

-- `a or b`, where a missing value is None
unfoldable pub first_truthy : Option Json → Option Json → Option Json
unfolding is_truthy
first_truthy none b = b
first_truthy (some a) b = if is_truthy a then some a else b

-- str(value or "").strip().lower(), as far as it may be one of the words
unfoldable pub lower_codes : List ℕ → List ℕ
unfolding lower
lower_codes [] = []
lower_codes (c ∷ s) = lower c ∷ lower_codes s

unfoldable pub among : List ℕ → List String → Bool
unfolding codes_eq
among s [] = false
among s (word ∷ words) = codes_eq s (codes word) || among s words

-- _legacy_priority, of the normalized text
unfoldable pub legacy_priority : List ℕ → Option UserTaskPriority
unfolding among
legacy_priority s =
    if among s ("" ∷ "中" ∷ "medium" ∷ "normal" ∷ [])
    then some UserTaskPriority.medium
    else if among s ("高" ∷ "high" ∷ [])
    then some UserTaskPriority.high
    else if among s ("urgent" ∷ "紧急" ∷ [])
    then some UserTaskPriority.urgent
    else if among s ("低" ∷ "low" ∷ [])
    then some UserTaskPriority.low
    else none

-- _legacy_status, of the normalized text
unfoldable pub legacy_status : List ℕ → Option UserTaskStatus
unfolding among
legacy_status s =
    if among s ("" ∷ "待办" ∷ "进行中" ∷ "active" ∷ "pending" ∷ [])
    then some UserTaskStatus.active
    else if among s ("完成" ∷ "已完成" ∷ "complete" ∷ "completed" ∷ [])
    then some UserTaskStatus.completed
    else if among s ("取消" ∷ "已取消" ∷ "cancel" ∷ "cancelled" ∷ "canceled" ∷ [])
    then some UserTaskStatus.cancelled
    else none

-- What an item comes to before `create`: it is no task, it raises, or it is a task to create, with
-- the time of its creation if it has one.
pub data Judgement : Type 0 where
  skipped broken : Judgement
  entry : WorkspaceKey → NewTask → Judgement

-- `… or self._now()`
unfoldable pub timed : Instant → NewTask → NewTask
timed now args = record args { created_at = some (or_default now args.created_at) }

-- The steps that may refuse a value.
infixl 5 ◌>>=◌
abbrev ◌>>=◌ : {A B : Type 0} → Option A → (A → Option B) → Option B
none >>= f = none
some a >>= f = f a

module _ (render : Json → String) (parse_datetime : Json → String → Bool → Option Instant)
    (digest : String → String) where
  -- str(value), and the empty text for a missing one
  unfoldable pub str : Option Json → String
  str none = ""
  str (some (text s)) = s
  str (some value) = render value

  unfoldable pub normalized : Option Json → List ℕ
  unfolding first_truthy str lower_codes strip
  normalized value = lower_codes (codes (strip (str (first_truthy value none))))

  -- _legacy_datetime: nothing for None and "", and nothing at all if the value is refused.
  unfoldable pub legacy_datetime : Option Json → String → Bool → Option (Option Instant)
  legacy_datetime none timezone date_end = some none
  legacy_datetime (some null) timezone date_end = some none
  legacy_datetime (some (text s)) timezone date_end =
      if str_eq s "" then some none else Option.map some (parse_datetime (text s) timezone date_end)
  legacy_datetime (some value) timezone date_end =
      Option.map some (parse_datetime value timezone date_end)

  -- content.get("workspace") if that is a dict, else that of the metadata
  unfoldable pub workspace_evidence : Option Json → Option Json → Option Json
  workspace_evidence (some (object fields)) other = some (object fields)
  workspace_evidence _ other = other

  -- A time that belongs to one status.
  abbrev pub only_for : UserTaskStatus → UserTaskStatus → Option Instant → Option Instant
  only_for status target time = if status_eq status target then time else none

  -- The calls that may refuse a value come before `create`, which has what follows of them.
  unfoldable pub legacy_entry :
      Memory → Fields → Fields → String → String → String → Option Judgement
  unfolding str first_truthy normalized legacy_priority legacy_status legacy_datetime
      workspace_evidence workspace_key_from_evidence
  legacy_entry item content metadata id title trace_id = do
    let timezone = str (
        first_truthy (first_truthy (get "timezone" content) (get "timezone" metadata))
          (some (text "Asia/Shanghai")))
    priority ← legacy_priority (normalized (get "priority" content))
    status ← legacy_status (normalized (get "status" content))
    due_at ← legacy_datetime (get "deadline" content) timezone true
    created_at ← legacy_datetime item.timestamp timezone false
    completed_at ←
        legacy_datetime (first_truthy (get "completed_at" content) (get "completed_at" metadata))
          timezone false
    cancelled_at ←
        legacy_datetime (first_truthy (get "cancelled_at" content) (get "cancelled_at" metadata))
          timezone false
    some (
        entry
          (workspace_key_from_evidence
            (workspace_evidence (get "workspace" content) (get "workspace" metadata)))
          (record {
            title = title;
            description = str (get "raw_text" content);
            priority = priority;
            due_at = due_at;
            timezone = timezone;
            status = status;
            created_at = created_at;
            completed_at = only_for status UserTaskStatus.completed completed_at;
            cancelled_at = only_for status UserTaskStatus.cancelled cancelled_at;
            source = str (
                first_truthy (first_truthy (get "source" content) (get "source" metadata))
                  (some (text "legacy_decision_memory")));
            session_id = str (
                first_truthy (first_truthy (get "session_id" content) (get "session_id" metadata))
                  none);
            agent_id = str (
                first_truthy (first_truthy (get "agent_id" content) (get "agent_id" metadata))
                  none);
            trace_id = trace_id;
            metadata = some (field "legacy_imported" (boolean true) nothing);
            task_id = some (Prim.Native.String.◌++◌ "ut_legacy_" (digest id));
            legacy_source_id = some id;
          }))

  -- content.get("type") != "task"
  unfoldable pub is_task : Option Json → Bool
  is_task (some (text s)) = str_eq s "task"
  is_task _ = false

  unfoldable pub judge_task : Memory → Fields → Fields → String → Judgement
  unfolding legacy_entry str first_truthy
  judge_task item content metadata trace_id =
      let title =
        strip
          (str (first_truthy (first_truthy (get "title" content) (get "subject" content)) none)) in
      let id = or_default "" item.id in
      if str_eq id "" || str_eq title ""
      then broken
      else or_default broken (legacy_entry item content metadata id title trace_id)

  unfoldable pub judge_content : Memory → Option Fields → String → Judgement
  unfolding judge_task is_task
  judge_content item none trace_id = broken
  judge_content item (some content) trace_id =
      if is_task (get "type" content)
      then judge_task item content (or_default nothing item.metadata) trace_id
      else skipped

  unfoldable pub judge : Memory → String → Judgement
  unfolding judge_content
  judge item trace_id = judge_content item item.content trace_id
