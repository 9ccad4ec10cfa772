-- ===== src/WaitingFor/Examples.antt =====
-- The theorems on waiting-for items at concrete inputs.
use ai_lab_os.Prelude.{
  ℕ, ◌≡◌, refl, Bool, true, false, none, some, List, [], ◌∷◌, String, str_eq, codes, ◌==◌,
  if◌then◌else◌, is_blank, strip, length,
}
use ai_lab_os.Json.{nothing, fields_contain_sensitive_key}
use ai_lab_os.Sql.{IsKeyed, count_where, find_key, update_where}
use ai_lab_os.UserTasks.Spaces.{WorkspaceKey}
use ai_lab_os.TimeText.{iso_tail}
use ai_lab_os.WaitingFor.Models.{
  WaitingFor, WaitingForEvent, WaitingForEventType, WaitingForStatus, WaitingForView, review_due,
  expected_overdue, attention_due,
}
use ai_lab_os.WaitingFor.Store.{item_key}
use ai_lab_os.WaitingFor.Calls as Calls
use ai_lab_os.WaitingFor.Calls.{Call, run_calls}
use ai_lab_os.WaitingFor.History.{HasHistory, events_of}
use ai_lab_os.WaitingFor.Service.{BusState, Service, NewItem}
use ai_lab_os.WaitingFor.Service.Changes.{Request}
use ai_lab_os.WaitingFor.Service.Operations.{Operation, Step, perform, perform_all}
use ai_lab_os.WaitingFor.Service.Told.{perform_all-HasHistory}
use ai_lab_os.WaitingFor.Service.Serial.{Changed}
use ai_lab_os.WaitingFor.Service.Failed.{IsAtomic, perform-IsAtomic}
use ai_lab_os.WaitingFor.Service.Versions.{perform-Changed}
use ai_lab_os.WaitingFor.Listing.{view_where, list}
use ai_lab_os.WaitingFor.Listing.Views.{Paged, view_where-attention_due, list-Paged}

abbrev any_zone : String → Bool
any_zone name = str_eq name "UTC"

abbrev iso_text : ℕ → String
iso_text t = "2025-01-01T00:00:00+00:00"

abbrev team : WorkspaceKey
team = record { tenant_id = "acme"; workspace_id = "team"; namespace = "" }

abbrev nobody : Service
nobody = record {
  tables = record { items = []; events = [] };
  notices = [];
  has_bus_failure = false;
}

nobody-HasHistory : HasHistory nobody.tables
unfolding find_key events_of
nobody-HasHistory = record { keyed = tt; told = λ id. refl }

abbrev contract : NewItem
contract = record {
  subject = " Contract ";
  waiting_on = "Legal";
  context = "";
  expected_by = some 5000000;
  next_review_at = some 3000000;
  timezone = "UTC";
  linked_user_task_id = none;
  linked_reminder_id = none;
  source = "api";
  metadata = none;
  waiting_for_id = none;
}

abbrev request : String → ℕ → Request
request event_id revision = record {
  waiting_for_id = "wf_1";
  expected_revision = revision;
  source = "api";
  trace_id = "t1";
  workspace_trace_id = "t0";
  now = 1000000;
  later = 1000001;
  event_id = event_id;
}

abbrev step : Request → Operation → Step
step asked operation = record {
  bus = BusState.delivers;
  key = team;
  interim = [];
  request = asked;
  operation = operation;
}

-- Created, followed up, resolved and opened again.
abbrev steps : List Step
steps =
    step (request "wfe_1" 0) (Operation.do_create contract "wf_1")
    ∷ step (request "wfe_2" 1) (Operation.do_follow_up "called" (some 4000000))
    ∷ step (request "wfe_3" 2) (Operation.do_resolve "signed")
    ∷ step (request "wfe_4" 3) (Operation.do_reopen "not by us" none)
    ∷ []

perform_all-HasHistory_example : HasHistory (perform_all any_zone iso_text steps nobody).tables
perform_all-HasHistory_example =
    perform_all-HasHistory any_zone iso_text steps nobody nobody-HasHistory
      (tt, (tt, (tt, (tt, tt))))

abbrev map_revision : List WaitingFor → List ℕ
map_revision [] = []
map_revision (item ∷ items) = item.revision ∷ map_revision items

-- The item has come to its fourth version, with four events.
steps_answer :
    (map_revision (perform_all any_zone iso_text steps nobody).tables.items ≡ 4 ∷ [])
    × (length (perform_all any_zone iso_text steps nobody).tables.events ≡ 4)
unfolding perform_all find_key is_blank strip count_where fields_contain_sensitive_key update_where
steps_answer = (refl, refl)

abbrev item : WaitingFor
item = record {
  id = "wf_1";
  workspace_key = record { tenant_id = "acme"; workspace_id = "team"; namespace = "default" };
  subject = "Contract";
  waiting_on = "Legal";
  context = "";
  status = WaitingForStatus.opened;
  expected_by = some 5000000;
  next_review_at = some 3000000;
  timezone = "UTC";
  linked_user_task_id = none;
  linked_reminder_id = none;
  source = "api";
  created_at = 1000000;
  updated_at = 1000000;
  resolved_at = none;
  cancelled_at = none;
  resolution_note = "";
  metadata = nothing;
  revision = 1;
}

abbrev started : Service
started = record nobody { tables = record { items = item ∷ []; events = [] } }

started-IsKeyed : IsKeyed item_key started.tables.items
unfolding find_key
started-IsKeyed = (refl, tt)

abbrev snoozed : WaitingForEvent
snoozed = record {
  id = "wfe_2";
  waiting_for_id = "wf_1";
  workspace_key = item.workspace_key;
  sequence = 2;
  event_type = WaitingForEventType.event_snoozed;
  occurred_at = 1000001;
  note = "later";
  source = "api";
  trace_id = "t1";
  metadata = nothing;
}

-- Another caller tries to write a stale version meanwhile.
abbrev stale : List Call
stale = Calls.mutate team (record item { revision = 8 }) snoozed 7 ∷ []

abbrev followed : Operation
followed = Operation.do_follow_up " later" none

perform-Changed_example :
    Changed "wf_1" started.tables
      (run_calls any_zone stale started.tables)
      (perform any_zone iso_text BusState.no_bus team stale
        (request "wfe_2" 1)
        followed
        started).1.tables
      (record item { updated_at = 1000001; revision = 2 })
      (record snoozed { event_type = WaitingForEventType.event_followed_up })
unfolding perform run_calls find_key is_blank strip count_where fields_contain_sensitive_key
perform-Changed_example =
    perform-Changed any_zone iso_text BusState.no_bus team stale (request "wfe_2" 1) started
      (record item { updated_at = 1000001; revision = 2 })
      (record snoozed { event_type = WaitingForEventType.event_followed_up }) _ followed tt
      started-IsKeyed refl

-- A method with a stale revision, after the calls of another.
perform-IsAtomic_example :
    IsAtomic started
      (run_calls any_zone stale started.tables)
      (perform any_zone iso_text BusState.delivers team stale (request "wfe_2" 7) followed started)
perform-IsAtomic_example =
    perform-IsAtomic any_zone iso_text BusState.delivers team stale (request "wfe_2" 7) followed
      started

view_where-attention_due_example :
    (view_where iso_tail WaitingForView.view_attention 4500000 item ≡ attention_due item 4500000)
    × (view_where iso_tail WaitingForView.view_due 4500000 item ≡ review_due item 4500000)
    × (view_where iso_tail WaitingForView.view_overdue 4500000 item ≡ expected_overdue item 4500000)
view_where-attention_due_example = view_where-attention_due iso_tail item 4500000 refl refl

-- A column with the `Z` of a JSON text.
abbrev zulu : ℕ → List ℕ
zulu n = if n == 0 then codes "Z" else iso_tail n

-- At the very instant of the review it is due, and the view does not have it.
due_at_the_instant :
    (review_due item 3000000 ≡ true)
    × (view_where zulu WaitingForView.view_due 3000000 item ≡ false)
unfolding review_due view_where
due_at_the_instant = (refl, refl)

list-Paged_example :
    Paged iso_tail any_zone team WaitingForView.view_attention 4500000 1 0 started.tables.items
      (list iso_tail any_zone team WaitingForView.view_attention 4500000 1 0 started.tables)
list-Paged_example =
    list-Paged iso_tail any_zone team WaitingForView.view_attention 4500000 1 0 started.tables
