-- ===== src/WaitingFor/Listing.antt =====
-- SQLiteWaitingForRepository.list and list_events. Datetimes are compared as texts (TimeText.antt).
pub mod Views
use ai_lab_os.Prelude.{
  ℕ, ◌+◌, ◌-◌, Bool, true, false, not, ◌&&◌, ◌||◌, ◌≡◌, refl, ap, ◌∙◌, Option, none, some, List, [],
  ◌∷◌, String, str_eq, codes, ltb, ◌==◌, is_none, if◌then◌else◌, Result, ok, err, length, All,
  arith,
}
use ai_lab_os.Sql.{select_where, find_key}
use ai_lab_os.Sql.Order.{order_by}
use ai_lab_os.Sql.Sorted.{
  All-order_by, All-select_where, length-order_by-select_where, IsOrdered, IsOrdered-order_by,
}
use ai_lab_os.Sql.Pages.{
  take, drop, at_most, All-take, All-drop, length-take, length-drop, IsOrdered-take, IsOrdered-drop,
}
use ai_lab_os.Scheduler.Models.{Instant}
use ai_lab_os.TimeText.{text_before, codes_ltb, stored, is_before, is_up_to, text_first}
use ai_lab_os.TimeText.Laws.{codes_ltb-asym, text_before-asym, text_first-asym}
use ai_lab_os.UserTasks.Spaces.{WorkspaceKey, same_workspace}
use ai_lab_os.WaitingFor.Models.{
  WaitingFor, WaitingForEvent, WaitingForStatus, WaitingForView, WaitingForError,
  canonical_workspace, status_eq, is_open, validate_item, validate_event,
}
use ai_lab_os.WaitingFor.Store.{Tables, item_key}

module _ (json_tail : ℕ → List ℕ) where
  -- The clauses of a view.
  unfoldable pub view_where : WaitingForView → Instant → WaitingFor → Bool
  unfolding is_before is_up_to
  view_where WaitingForView.view_open now row = is_open row.status
  view_where WaitingForView.view_due now row =
      is_open row.status && is_up_to json_tail row.next_review_at now
  view_where WaitingForView.view_overdue now row =
      is_open row.status && is_before json_tail row.expected_by now
  view_where WaitingForView.view_attention now row =
      is_open row.status
      && (is_up_to json_tail row.next_review_at now || is_before json_tail row.expected_by now)
  view_where WaitingForView.view_resolved now row = status_eq row.status WaitingForStatus.resolved
  view_where WaitingForView.view_cancelled now row = status_eq row.status WaitingForStatus.cancelled
  view_where WaitingForView.view_all now row = true

  unfoldable pub list_where : WorkspaceKey → WaitingForView → Instant → WaitingFor → Bool
  unfolding view_where canonical_workspace
  list_where key view now row =
      same_workspace row.workspace_key (canonical_workspace key) && view_where view now row

  -- ORDER BY next_review_at and expected_by, those without behind the others, created_at, id
  unfoldable pub list_precedes : WaitingFor → WaitingFor → Bool
  unfolding text_first text_before codes_ltb
  list_precedes a b =
      text_first json_tail a.next_review_at b.next_review_at
      || not (text_first json_tail b.next_review_at a.next_review_at)
        && (text_first json_tail a.expected_by b.expected_by
            || not (text_first json_tail b.expected_by a.expected_by)
              && (text_before (stored json_tail a.created_at) (stored json_tail b.created_at)
                  || not
                      (text_before (stored json_tail b.created_at) (stored json_tail a.created_at))
                    && codes_ltb (codes a.id) (codes b.id)))

  pub list_precedes-asym : (a b : WaitingFor) → list_precedes a b ≡ true → list_precedes b a ≡ false
  unfolding list_precedes
  list_precedes-asym a b e = ground (
    arith,
    text_first-asym json_tail a.next_review_at b.next_review_at,
    text_first-asym json_tail a.expected_by b.expected_by,
    text_before-asym (stored json_tail a.created_at) (stored json_tail b.created_at),
    codes_ltb-asym (codes a.id) (codes b.id),
  )

unfoldable pub cons_item :
    {A : Type 0}
    → Result WaitingForError A
    → Result WaitingForError (List A)
    → Result WaitingForError (List A)
cons_item (ok item) (ok items) = ok (item ∷ items)
cons_item (ok item) (err e) = err WaitingForError.persistence
cons_item (err e) rest = err WaitingForError.persistence

module _ (is_zone : String → Bool) where
  -- The items of the rows; a row that is not valid is a failure of the repository.
  unfoldable pub row_items : List WaitingFor → Result WaitingForError (List WaitingFor)
  unfolding cons_item validate_item
  row_items [] = ok []
  row_items (row ∷ rows) = cons_item (validate_item is_zone row) (row_items rows)

unfoldable pub row_events : List WaitingForEvent → Result WaitingForError (List WaitingForEvent)
unfolding cons_item validate_event
row_events [] = ok []
row_events (row ∷ rows) = cons_item (validate_event row) (row_events rows)

-- A page, out of the rows that are asked for, of which there is one more than the limit.
abbrev pub Page : Type 0 → Type 0
Page A = Result WaitingForError (List A) × Bool

module _ (json_tail : ℕ → List ℕ) where
  -- LIMIT limit + 1 OFFSET offset
  unfoldable pub page_rows :
      WorkspaceKey → WaitingForView → Instant → ℕ → ℕ → List WaitingFor → List WaitingFor
  unfolding list_where list_precedes take drop
  page_rows key view now limit offset items = take (limit + 1) (
      drop offset (
        order_by (list_precedes json_tail)
          (select_where (list_where json_tail key view now) items)))

module _ (json_tail : ℕ → List ℕ) (is_zone : String → Bool) where
  -- The items, and `has_more`.
  unfoldable pub list : WorkspaceKey → WaitingForView → Instant → ℕ → ℕ → Tables → Page WaitingFor
  unfolding page_rows row_items take
  list key view now limit offset tables =
      let rows = page_rows json_tail key view now limit offset tables.items in
      (row_items is_zone (take limit rows), ltb limit (length rows))

-- WHERE waiting_for_id=? AND tenant_id=? AND workspace_id=? AND namespace=?
unfoldable pub event_where : WorkspaceKey → String → WaitingForEvent → Bool
event_where workspace waiting_for_id row =
    str_eq row.waiting_for_id waiting_for_id && same_workspace row.workspace_key workspace

-- ORDER BY sequence
unfoldable pub event_precedes : WaitingForEvent → WaitingForEvent → Bool
event_precedes a b = ltb a.sequence b.sequence

-- _scoped_row
unfoldable pub scoped_row : WorkspaceKey → Option WaitingFor → Result WaitingForError WaitingFor
scoped_row workspace none = err WaitingForError.not_found
scoped_row workspace (some row) =
    if same_workspace row.workspace_key workspace
    then ok row
    else err WaitingForError.workspace_mismatch

unfoldable pub event_page :
    Result WaitingForError WaitingFor
    → WorkspaceKey
    → String
    → ℕ
    → ℕ
    → Tables
    → Page WaitingForEvent
unfolding event_where event_precedes row_events take drop
event_page (err exc) workspace waiting_for_id limit offset tables = (err exc, false)
event_page (ok row) workspace waiting_for_id limit offset tables =
    let rows = take (limit + 1) (
      drop offset (
        order_by event_precedes
          (select_where (event_where workspace waiting_for_id) tables.events))) in
    (row_events (take limit rows), ltb limit (length rows))

unfoldable pub list_events : WorkspaceKey → String → ℕ → ℕ → Tables → Page WaitingForEvent
unfolding event_page scoped_row canonical_workspace
list_events key waiting_for_id limit offset tables =
    let workspace = canonical_workspace key in
    event_page (scoped_row workspace (find_key item_key waiting_for_id tables.items)) workspace
      waiting_for_id limit offset tables
