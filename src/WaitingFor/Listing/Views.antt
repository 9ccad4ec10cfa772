-- ===== src/WaitingFor/Listing/Views.antt =====
-- The views of the list against the properties of the item, and what a page of a view holds.
use mathlib.Core.Path.{subst, fun_ext}
use ai_lab_os.Prelude.{
  ℕ, Bool, true, false, ◌&&◌, ◌||◌, ◌≡◌, refl, ap, ◌∙◌, ◌↔◌, ◌⊎◌, inl, inr, String, codes, eq_iff,
  List, [], ◌∷◌, ltb, length, arith,
}
use ai_lab_os.Sql.{select_where}
use ai_lab_os.Sql.Order.{order_by}
use ai_lab_os.Sql.Listed.{lexicographic, Selected, order_by-Selected, take-take, ltb-length-take}
use ai_lab_os.Sql.Pages.{take, drop}
use ai_lab_os.Scheduler.Models.{Instant}
use ai_lab_os.TimeText.{is_before, is_up_to, text_first, text_before, stored, codes_ltb}
use ai_lab_os.TimeText.Laws.{IsOtherSecond, is_before-before, is_up_to-up_to}
use ai_lab_os.UserTasks.Spaces.{WorkspaceKey, same_workspace}
use ai_lab_os.WaitingFor.Models.{
  WaitingFor, WaitingForStatus, WaitingForView, canonical_workspace, status_eq, is_open, review_due,
  expected_overdue, attention_due,
}
use ai_lab_os.WaitingFor.Store.{Tables}
use ai_lab_os.WaitingFor.Listing.{
  Page, view_where, list_where, list_precedes, list_precedes-asym, page_rows, row_items, list,
}

both : (a b c : Bool) → (a && (b || c)) ≡ (a && b || a && c)
both a b c = ground arith

module _ (json_tail : ℕ → List ℕ) where
  -- The views for attention, for due reviews and for overdue items select exactly the items of which
  -- `attention_due`, `review_due` and `expected_overdue` hold, unless a time of the item is in the very
  -- second of the instant, whatever text the columns have behind the seconds.
  pub view_where-attention_due :
      (item : WaitingFor) (now : Instant)
      → IsOtherSecond item.next_review_at now
      → IsOtherSecond item.expected_by now
      → (view_where json_tail WaitingForView.view_attention now item ≡ attention_due item now)
        × (view_where json_tail WaitingForView.view_due now item ≡ review_due item now)
        × (view_where json_tail WaitingForView.view_overdue now item ≡ expected_overdue item now)
  unfolding view_where attention_due review_due expected_overdue
  view_where-attention_due item now review expected =
      let reviewed = is_up_to-up_to json_tail item.next_review_at now review in
      let overdue = is_before-before json_tail item.expected_by now expected in
      (
        both (is_open item.status) (is_up_to json_tail item.next_review_at now)
              (is_before json_tail item.expected_by now)
            ∙ rw reviewed (rw overdue refl),
        ap (λ due. is_open item.status && due) reviewed,
        ap (λ due. is_open item.status && due) overdue,
      )

-- The items of a view; the texts of the times are compared.
abbrev pub InView : (ℕ → List ℕ) → WaitingForView → Instant → WaitingFor → Type 0
InView json_tail WaitingForView.view_open now row = row.status ≡ WaitingForStatus.opened
InView json_tail WaitingForView.view_due now row =
    (row.status ≡ WaitingForStatus.opened) × (is_up_to json_tail row.next_review_at now ≡ true)
InView json_tail WaitingForView.view_overdue now row =
    (row.status ≡ WaitingForStatus.opened) × (is_before json_tail row.expected_by now ≡ true)
InView json_tail WaitingForView.view_attention now row =
    (row.status ≡ WaitingForStatus.opened)
    × ((is_up_to json_tail row.next_review_at now ≡ true)
        ⊎ (is_before json_tail row.expected_by now ≡ true))
InView json_tail WaitingForView.view_resolved now row = row.status ≡ WaitingForStatus.resolved
InView json_tail WaitingForView.view_cancelled now row = row.status ≡ WaitingForStatus.cancelled
InView json_tail WaitingForView.view_all now row = Unit

status_eq_iff : (a b : WaitingForStatus) → (status_eq a b ≡ true) ↔ (a ≡ b)
status_eq_iff a b = ((λ e. ground arith), (λ e. ground arith))

and_iff : (a b : Bool) → ((a && b) ≡ true) ↔ ((a ≡ true) × (b ≡ true))
and_iff a b = ((λ e. (ground arith, ground arith)), (λ (p, q). rw (p, q) refl))

or_iff : (a b : Bool) → ((a || b) ≡ true) ↔ ((a ≡ true) ⊎ (b ≡ true))
or_iff true b = ((λ e. inl refl), (λ e. refl))
or_iff false true = ((λ e. inr refl), (λ e. refl))
or_iff false false = ((λ e. inl e), (λ e. ground arith))

same_workspace_iff : (a b : WorkspaceKey) → (same_workspace a b ≡ true) ↔ (a ≡ b)
same_workspace_iff a b = (
  (λ e. ground (
    arith,
    eq_iff a.tenant_id b.tenant_id,
    eq_iff a.workspace_id b.workspace_id,
    eq_iff a.namespace b.namespace,
  )),
  (λ e. ground (
    arith,
    eq_iff a.tenant_id b.tenant_id,
    eq_iff a.workspace_id b.workspace_id,
    eq_iff a.namespace b.namespace,
  )),
)

module _ (json_tail : ℕ → List ℕ) where
  -- An open item of which a test holds.
  open_and :
      (row : WaitingFor) (test : Bool)
      → ((is_open row.status && test) ≡ true)
        ↔ ((row.status ≡ WaitingForStatus.opened) × (test ≡ true))
  open_and row test =
      let opened_iff = status_eq_iff row.status WaitingForStatus.opened in
      let both_iff = and_iff (is_open row.status) test in
      (
        λ e. (opened_iff.0 (both_iff.0 e).0, (both_iff.0 e).1),
        λ (o, t). both_iff.1 (opened_iff.1 o, t),
      )

  view_where-InView :
      (view : WaitingForView) (now : Instant) (row : WaitingFor)
      → (view_where json_tail view now row ≡ true) ↔ InView json_tail view now row
  unfolding view_where
  view_where-InView WaitingForView.view_open now row =
      status_eq_iff row.status WaitingForStatus.opened
  view_where-InView WaitingForView.view_due now row =
      open_and row (is_up_to json_tail row.next_review_at now)
  view_where-InView WaitingForView.view_overdue now row =
      open_and row (is_before json_tail row.expected_by now)
  view_where-InView WaitingForView.view_attention now row =
      let review = is_up_to json_tail row.next_review_at now in
      let expected = is_before json_tail row.expected_by now in
      let opens = open_and row (review || expected) in
      (
        λ e. ((opens.0 e).0, (or_iff review expected).0 (opens.0 e).1),
        λ (o, t). opens.1 (o, (or_iff review expected).1 t),
      )
  view_where-InView WaitingForView.view_resolved now row =
      status_eq_iff row.status WaitingForStatus.resolved
  view_where-InView WaitingForView.view_cancelled now row =
      status_eq_iff row.status WaitingForStatus.cancelled
  view_where-InView WaitingForView.view_all now row = ((λ e. tt), (λ t. refl))

  list_where-InView :
      (key : WorkspaceKey) (view : WaitingForView) (now : Instant) (row : WaitingFor)
      → (list_where json_tail key view now row ≡ true)
        ↔ ((row.workspace_key ≡ canonical_workspace key) × InView json_tail view now row)
  unfolding list_where
  list_where-InView key view now row =
      let here = same_workspace_iff row.workspace_key (canonical_workspace key) in
      let seen = view_where-InView view now row in
      let both_iff =
        and_iff (same_workspace row.workspace_key (canonical_workspace key))
          (view_where json_tail view now row) in
      (
        λ e. (here.0 (both_iff.0 e).0, seen.0 (both_iff.0 e).1),
        λ (w, v). both_iff.1 (here.1 w, seen.1 v),
      )

  -- By the next review and by the expectation, those without behind the others, then by the creation,
  -- then by the id.
  abbrev pub item_order : WaitingFor → WaitingFor → Bool
  item_order = lexicographic (
      (λ a b. text_first json_tail a.next_review_at b.next_review_at)
      ∷ (λ a b. text_first json_tail a.expected_by b.expected_by)
      ∷ (λ a b. text_before (stored json_tail a.created_at) (stored json_tail b.created_at))
      ∷ (λ a b. codes_ltb (codes a.id) (codes b.id))
      ∷ [])

  list_precedes-order : (a b : WaitingFor) → list_precedes json_tail a b ≡ item_order a b
  unfolding list_precedes
  list_precedes-order a b = ground arith

-- What a caller learns of a page: `rows` are the items of the workspace that are in the view, each as
-- often as the table has it, in the order of the list; the page has the items of the slice of them that
-- limit and offset name, and `has_more` says whether rows follow it.
abbrev pub Paged :
    (ℕ → List ℕ)
    → (String → Bool)
    → WorkspaceKey
    → WaitingForView
    → Instant
    → ℕ
    → ℕ
    → List WaitingFor
    → Page WaitingFor
    → Type 0
Paged json_tail is_zone key view now limit offset items (answer, has_more) =
    (rows : List WaitingFor) × (asked : WaitingFor → Bool) × ((row : WaitingFor)
      → (asked row ≡ true)
        ↔ ((row.workspace_key ≡ canonical_workspace key) × InView json_tail view now row))
    × Selected asked (item_order json_tail) items rows
    × (answer ≡ row_items is_zone (take limit (drop offset rows)))
    × (has_more ≡ ltb limit (length (drop offset rows)))

-- `list` takes the items of the workspace that are in the view, and no others, each as often as the table
-- has it, in the order of review, expectation, creation and id. The page has the `limit` ones behind the
-- first `offset`, and `has_more` is true exactly if items follow them.
pub list-Paged :
    (json_tail : ℕ → List ℕ) (is_zone : String → Bool) (key : WorkspaceKey) (view : WaitingForView)
    (now : Instant) (limit offset : ℕ) (tables : Tables)
    → Paged json_tail is_zone key view now limit offset tables.items
        (list json_tail is_zone key view now limit offset tables)
unfolding list page_rows
list-Paged json_tail is_zone key view now limit offset tables =
    let meets = list_where json_tail key view now in
    let precedes = list_precedes json_tail in
    let by_order : precedes ≡ item_order json_tail =
      fun_ext (λ a. fun_ext (λ b. list_precedes-order json_tail a b)) in
    let rows = order_by precedes (select_where meets tables.items) in
    (
      rows,
      meets,
      list_where-InView json_tail key view now,
      subst (λ order. Selected meets order tables.items rows) by_order
          (order_by-Selected meets precedes tables.items (list_precedes-asym json_tail)),
      ap (row_items is_zone) (take-take limit (drop offset rows)),
      ltb-length-take limit (drop offset rows),
    )
