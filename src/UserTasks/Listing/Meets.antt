-- ===== src/UserTasks/Listing/Meets.antt =====
-- What a query for user tasks asks of a row, and in what order, in terms of the model.
use ai_lab_os.Prelude.{
  ℕ, Bool, true, false, ◌&&◌, ◌≡◌, refl, ◌↔◌, Option, none, some, List, [], ◌∷◌, codes, eq_iff, ltb,
  arith,
}
use ai_lab_os.Sql.Listed.{lexicographic, Asked}
use ai_lab_os.TimeText.{stored, text_before, text_first, codes_ltb, is_from, is_up_to, is_before}
use ai_lab_os.TimeText.Laws.{codes_ltb-asym, text_before-asym, text_first-asym}
use ai_lab_os.Scheduler.Models.{Instant}
use ai_lab_os.UserTasks.Models.{UserTaskQuery, UserTaskStatus, UserTaskPriority, status_eq}
use ai_lab_os.UserTasks.Spaces.{WorkspaceKey}
use ai_lab_os.UserTasks.Table.{TaskRow, workspace_of, is_owner, is_in}
use ai_lab_os.UserTasks.Listing.{
  priority_eq, priority_rank, clause, overdue_where, list_where, list_precedes,
}

-- The order of the priorities.
abbrev pub is_more_urgent : UserTaskPriority → UserTaskPriority → Bool
is_more_urgent UserTaskPriority.urgent UserTaskPriority.urgent = false
is_more_urgent UserTaskPriority.urgent _ = true
is_more_urgent UserTaskPriority.high UserTaskPriority.medium = true
is_more_urgent UserTaskPriority.high UserTaskPriority.low = true
is_more_urgent UserTaskPriority.medium UserTaskPriority.low = true
is_more_urgent _ _ = false

is_more_urgent-rank :
    (a b : UserTaskPriority) → ltb (priority_rank a) (priority_rank b) ≡ is_more_urgent a b
unfolding priority_rank
is_more_urgent-rank UserTaskPriority.low UserTaskPriority.low = refl
is_more_urgent-rank UserTaskPriority.low UserTaskPriority.medium = refl
is_more_urgent-rank UserTaskPriority.low UserTaskPriority.high = refl
is_more_urgent-rank UserTaskPriority.low UserTaskPriority.urgent = refl
is_more_urgent-rank UserTaskPriority.medium UserTaskPriority.low = refl
is_more_urgent-rank UserTaskPriority.medium UserTaskPriority.medium = refl
is_more_urgent-rank UserTaskPriority.medium UserTaskPriority.high = refl
is_more_urgent-rank UserTaskPriority.medium UserTaskPriority.urgent = refl
is_more_urgent-rank UserTaskPriority.high UserTaskPriority.low = refl
is_more_urgent-rank UserTaskPriority.high UserTaskPriority.medium = refl
is_more_urgent-rank UserTaskPriority.high UserTaskPriority.high = refl
is_more_urgent-rank UserTaskPriority.high UserTaskPriority.urgent = refl
is_more_urgent-rank UserTaskPriority.urgent UserTaskPriority.low = refl
is_more_urgent-rank UserTaskPriority.urgent UserTaskPriority.medium = refl
is_more_urgent-rank UserTaskPriority.urgent UserTaskPriority.high = refl
is_more_urgent-rank UserTaskPriority.urgent UserTaskPriority.urgent = refl

module _ (json_tail : ℕ → List ℕ) where
  pub list_precedes-asym :
      (a b : TaskRow) → list_precedes json_tail a b ≡ true → list_precedes json_tail b a ≡ false
  unfolding list_precedes
  list_precedes-asym a b e = ground (
    arith,
    text_first-asym json_tail a.due_at b.due_at,
    text_before-asym (stored json_tail a.created_at) (stored json_tail b.created_at),
    codes_ltb-asym (codes a.id) (codes b.id),
  )

  -- The more urgent ones first, then by the deadline, those without behind the others, then by the
  -- creation, then by the id.
  abbrev pub task_order : TaskRow → TaskRow → Bool
  task_order = lexicographic (
      (λ a b. is_more_urgent a.priority b.priority)
      ∷ (λ a b. text_first json_tail a.due_at b.due_at)
      ∷ (λ a b. text_before (stored json_tail a.created_at) (stored json_tail b.created_at))
      ∷ (λ a b. codes_ltb (codes a.id) (codes b.id))
      ∷ [])

  pub list_precedes-order : (a b : TaskRow) → list_precedes json_tail a b ≡ task_order a b
  unfolding list_precedes
  list_precedes-order a b =
      ground (
        arith,
        is_more_urgent-rank a.priority b.priority,
        is_more_urgent-rank b.priority a.priority,
      )

  -- What a query asks of a row: it belongs to the workspace, and fits each value that is given.
  pub record Meets (key : WorkspaceKey) (query : UserTaskQuery) (as_of : Instant) (row : TaskRow)
      : Type 0 where
    pub here : workspace_of row.metadata ≡ some key
    pub status : Asked query.status (λ s. row.status ≡ s)
    pub priority : Asked query.priority (λ p. row.priority ≡ p)
    pub due_from : Asked query.due_from (λ t. is_from json_tail row.due_at t ≡ true)
    pub due_to : Asked query.due_to (λ t. is_up_to json_tail row.due_at t ≡ true)
    pub completed_from :
        Asked query.completed_from (λ t. is_from json_tail row.completed_at t ≡ true)
    pub completed_to : Asked query.completed_to (λ t. is_before json_tail row.completed_at t ≡ true)
    pub cancelled_from :
        Asked query.cancelled_from (λ t. is_from json_tail row.cancelled_at t ≡ true)
    pub cancelled_to : Asked query.cancelled_to (λ t. is_before json_tail row.cancelled_at t ≡ true)
    pub overdue : Asked query.overdue (λ o. overdue_where json_tail as_of o row ≡ true)

status_eq_iff : (a b : UserTaskStatus) → (status_eq a b ≡ true) ↔ (a ≡ b)
status_eq_iff a b = ((λ e. ground arith), (λ e. ground arith))

priority_eq_iff : (a b : UserTaskPriority) → (priority_eq a b ≡ true) ↔ (a ≡ b)
unfolding priority_eq
priority_eq_iff a b = ((λ e. ground arith), (λ e. ground arith))

clause-Asked :
    {A : Type 0} (o : Option A) (holds : A → Bool) (Fits : A → Type 0)
    → ((a : A) → (holds a ≡ true) ↔ Fits a)
    → (clause o holds ≡ true) ↔ Asked o Fits
clause-Asked none holds Fits fits = ((λ e. tt), (λ f. refl))
clause-Asked (some a) holds Fits fits = fits a

owner_iff :
    (key : WorkspaceKey) (owner : Option WorkspaceKey)
    → (is_owner key owner ≡ true) ↔ (owner ≡ some key)
owner_iff key none = ((λ e. cc), (λ e. cc))
owner_iff key (some owner) = (
  (λ e. ground (
    arith,
    eq_iff owner.tenant_id key.tenant_id,
    eq_iff owner.workspace_id key.workspace_id,
    eq_iff owner.namespace key.namespace,
  )),
  (λ e. ground (
    arith,
    eq_iff owner.tenant_id key.tenant_id,
    eq_iff owner.workspace_id key.workspace_id,
    eq_iff owner.namespace key.namespace,
  )),
)

-- The ten clauses of the WHERE.
conjuncts :
    (a b c d e f g h i j : Bool)
    → ((a && b && c && d && e && f && g && h && i && j) ≡ true) ↔ (
        (a ≡ true)
        × (b ≡ true)
        × (c ≡ true)
        × (d ≡ true)
        × (e ≡ true)
        × (f ≡ true)
        × (g ≡ true)
        × (h ≡ true)
        × (i ≡ true)
        × (j ≡ true))
conjuncts false b c d e f g h i j = ((λ p. cc), (λ t. let no_way = t.0 in cc))
conjuncts true b c d e f g h i j = (
  λ p. (
    refl,
    ground arith,
    ground arith,
    ground arith,
    ground arith,
    ground arith,
    ground arith,
    ground arith,
    ground arith,
    ground arith,
  ),
  λ (p, q, r, s, t, u, v, w, x, y). rw (q, r, s, t, u, v, w, x, y) refl,
)

module _ (json_tail : ℕ → List ℕ) (key : WorkspaceKey) (query : UserTaskQuery) (as_of : Instant)
    (row : TaskRow) where
  same : (b : Bool) → (b ≡ true) ↔ (b ≡ true)
  same b = ((λ e. e), (λ e. e))

  status_clause :
      (clause query.status (status_eq row.status) ≡ true) ↔ Asked query.status (λ s. row.status ≡ s)
  status_clause =
      clause-Asked query.status (status_eq row.status) (λ s. row.status ≡ s)
        (status_eq_iff row.status)

  priority_clause :
      (clause query.priority (priority_eq row.priority) ≡ true)
      ↔ Asked query.priority (λ p. row.priority ≡ p)
  priority_clause =
      clause-Asked query.priority (priority_eq row.priority) (λ p. row.priority ≡ p)
        (priority_eq_iff row.priority)

  -- A clause whose test is what is asked.
  plain_clause :
      {A : Type 0} (o : Option A) (holds : A → Bool)
      → (clause o holds ≡ true) ↔ Asked o (λ a. holds a ≡ true)
  plain_clause o holds = clause-Asked o holds (λ a. holds a ≡ true) (λ a. same (holds a))

  pub list_where-Meets :
      (list_where json_tail key query as_of row ≡ true) ↔ Meets json_tail key query as_of row
  unfolding list_where is_in
  list_where-Meets =
      let owner = owner_iff key (workspace_of row.metadata) in
      let due_from = plain_clause query.due_from (is_from json_tail row.due_at) in
      let due_to = plain_clause query.due_to (is_up_to json_tail row.due_at) in
      let completed_from = plain_clause query.completed_from (is_from json_tail row.completed_at) in
      let completed_to = plain_clause query.completed_to (is_before json_tail row.completed_at) in
      let cancelled_from = plain_clause query.cancelled_from (is_from json_tail row.cancelled_at) in
      let cancelled_to = plain_clause query.cancelled_to (is_before json_tail row.cancelled_at) in
      let overdue = plain_clause query.overdue (λ o. overdue_where json_tail as_of o row) in
      let all =
        conjuncts (is_owner key (workspace_of row.metadata))
          (clause query.status (status_eq row.status))
          (clause query.priority (priority_eq row.priority))
          (clause query.due_from (is_from json_tail row.due_at))
          (clause query.due_to (is_up_to json_tail row.due_at))
          (clause query.completed_from (is_from json_tail row.completed_at))
          (clause query.completed_to (is_before json_tail row.completed_at))
          (clause query.cancelled_from (is_from json_tail row.cancelled_at))
          (clause query.cancelled_to (is_before json_tail row.cancelled_at))
          (clause query.overdue (λ o. overdue_where json_tail as_of o row)) in
      (
        λ e.
            let (h, s, p, df, dt, cf, ct, xf, xt, o) = all.0 e in
            record {
              here = owner.0 h;
              status = status_clause.0 s;
              priority = priority_clause.0 p;
              due_from = due_from.0 df;
              due_to = due_to.0 dt;
              completed_from = completed_from.0 cf;
              completed_to = completed_to.0 ct;
              cancelled_from = cancelled_from.0 xf;
              cancelled_to = cancelled_to.0 xt;
              overdue = overdue.0 o;
            },
        λ m. all.1 (
          owner.1 m.here,
          status_clause.1 m.status,
          priority_clause.1 m.priority,
          due_from.1 m.due_from,
          due_to.1 m.due_to,
          completed_from.1 m.completed_from,
          completed_to.1 m.completed_to,
          cancelled_from.1 m.cancelled_from,
          cancelled_to.1 m.cancelled_to,
          overdue.1 m.overdue,
        ),
      )
