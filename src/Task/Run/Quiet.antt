-- ===== src/Task/Run/Quiet.antt =====
-- A run that nobody disturbs.
use mathlib.Core.Path.{subst}
use ai_lab_os.Prelude.{
  ℕ, suc, zero, ◌+◌, ◌≤◌, ◌<◌, ◌≡◌, ◌≢◌, ◌↔◌, refl, sym, ap, ◌∙◌, true, false, Bool-cases, inl, inr,
  none, List, [], ◌∷◌, ◌==◌, String, length, arith, Result, ok,
}
use ai_lab_os.Task.State.{
  TaskStatus, created, running, completed, TaskError, can_transition, transition,
}
use ai_lab_os.Task.Run.{
  Task, WorkflowEnd, workflow_completed, workflow_timed_out, workflow_failed, Plan, TaskResult,
  moved, move, call_all, Attempts, finished, gave_up, run_workflow, ended, end_with, with_output,
  checkpointed, after_attempts, run_from, is_empty, run_plan, and_then, run,
}
use ai_lab_os.Task.Run.Once.{WorkflowEnd-cases}

module _ (plan : Plan) (quiet : (index attempt : ℕ) → plan.meanwhile index attempt ≡ []) where
  -- One of the attempts from `attempt` on completes the workflow, with `left` retries.
  abbrev pub Completes : ℕ → ℕ → ℕ → Type 0
  Completes index attempt left =
      (b : ℕ) × (attempt ≤ b) × (b ≤ attempt + left) × (plan.end_of index b ≡ workflow_completed)

  abbrev Tried : ℕ → ℕ → ℕ → Task → Attempts × Task → Type 0
  Tried index attempt left task (finished retries, after) =
      (after ≡ task) × Completes index attempt left
  Tried index attempt left task (gave_up status retries, after) =
      (after ≡ task)
      × (can_transition running status ≡ true)
      × (status ≢ completed)
      × (Completes index attempt left → ⊥)

  undisturbed :
      (index attempt : ℕ) (task : Task) → call_all (plan.meanwhile index attempt) task ≡ task
  unfolding call_all
  undisturbed index attempt task = rw (quiet index attempt)

  only_attempt :
      (index attempt : ℕ) (e : WorkflowEnd)
      → plan.end_of index attempt ≡ e
      → e ≢ workflow_completed
      → Completes index attempt 0
      → ⊥
  only_attempt index attempt e end other (b, lo, hi, done) =
      let same : b ≡ attempt = omega arith in
      other (sym end ∙ ap (plan.end_of index) (sym same) ∙ done)

  next_attempt :
      (index attempt left : ℕ) (e : WorkflowEnd)
      → plan.end_of index attempt ≡ e
      → e ≢ workflow_completed
      → Completes index attempt (suc left)
      → Completes index (attempt + 1) left
  next_attempt index attempt left e end other (b, lo, hi, done) = elim (Bool-cases (attempt == b)) [
    | inl at ↦
        let same : b ≡ attempt = ground arith in
        absurd (other (sym end ∙ ap (plan.end_of index) (sym same) ∙ done))
    | inr later ↦ (b, ground arith, omega arith, done)
  ]

  retried :
      (index attempt left : ℕ) (task again : Task) (e : WorkflowEnd) (outcome : Attempts × Task)
      → plan.end_of index attempt ≡ e
      → e ≢ workflow_completed
      → again ≡ task
      → Tried index (attempt + 1) left again outcome
      → Tried index attempt (suc left) task outcome
  retried index attempt left task again e (finished retries, after) end other same
        (kept, (b, lo, hi, done)) =
      (kept ∙ same, (b, omega arith, omega arith, done))
  retried index attempt left task again e (gave_up status retries, after) end other same
        (kept, legal, away, none_left) =
      (kept ∙ same, legal, away, λ c. none_left (next_attempt index attempt left e end other c))

  timed_out-other : workflow_timed_out ≢ workflow_completed
  timed_out-other = λ e. cc

  failed-other : workflow_failed ≢ workflow_completed
  failed-other = λ e. cc

  run_workflow-Tried :
      (index attempt left retries : ℕ) (task : Task)
      → Tried index attempt left task (run_workflow plan index attempt left retries task)
  unfolding run_workflow can_transition
  run_workflow-Tried index attempt zero retries task =
      elim (WorkflowEnd-cases (plan.end_of index attempt)) [
        | inl e ↦
            rw (e, run_workflow)
              (undisturbed index attempt task, (attempt, omega arith, omega arith, e))
        | inr (inl e) ↦
            rw (e, run_workflow)
              (
                undisturbed index attempt task,
                refl,
                (λ clash. cc),
                only_attempt index attempt workflow_timed_out e timed_out-other,
              )
        | inr (inr e) ↦
            rw (e, run_workflow)
              (
                undisturbed index attempt task,
                refl,
                (λ clash. cc),
                only_attempt index attempt workflow_failed e failed-other,
              )
      ]
  run_workflow-Tried index attempt (suc left) retries task =
      let after = call_all (plan.meanwhile index attempt) task in
      let again = run_workflow-Tried index (attempt + 1) left (retries + 1) after in
      elim (WorkflowEnd-cases (plan.end_of index attempt)) [
        | inl e ↦
            rw (e, run_workflow)
              (undisturbed index attempt task, (attempt, omega arith, omega arith, e))
        | inr (inl e) ↦
            rw (e, run_workflow)
              (retried index attempt left task after workflow_timed_out _ e timed_out-other
                (undisturbed index attempt task) again)
        | inr (inr e) ↦
            rw (e, run_workflow)
              (retried index attempt left task after workflow_failed _ e failed-other
                (undisturbed index attempt task) again)
      ]

  -- The `count` workflows from `index` on are all completed by one of the allowed attempts.
  abbrev pub AllComplete : ℕ → ℕ → Type 0
  AllComplete index count = (i : ℕ) → index ≤ i → i < index + count → Completes i 1 plan.max_retries

  -- The run returns a result, with the status COMPLETED exactly if the workflows are completed.
  abbrev pub Judged : ℕ → ℕ → Result TaskError TaskResult × Task → Type 0
  Judged index count outcome =
      (result : TaskResult) × (outcome.0 ≡ ok result)
      × ((result.status ≡ completed) ↔ AllComplete index count)

  abbrev IsGoing : Task → Type 0
  IsGoing task = (task.machine ≡ running) × (task.cancel_flag ≡ false)

  ends :
      (status : TaskStatus) (outputs : List String) (retries : ℕ) (task : Task)
      → task.machine ≡ running
      → can_transition running status ≡ true
      → (end_with status outputs retries task).0
        ≡ ok (record { status = status; workflow_results = outputs; retry_count = retries })
  unfolding end_with move transition moved ended
  ends status outputs retries task e legal = rw (e, legal)

  one_more :
      (index count : ℕ)
      → Completes index 1 plan.max_retries
      → AllComplete (index + 1) count
      → AllComplete index (suc count)
  one_more index count first rest i lo hi = elim (Bool-cases (index == i)) [
    | inl at ↦
        let same : index ≡ i = ground arith in
        subst (λ k. Completes k 1 plan.max_retries) same first
    | inr later ↦ rest i (ground arith) (omega arith)
  ]

  after_attempts-Judged :
      (rest : List String → ℕ → Task → Result TaskError TaskResult × Task) (index count : ℕ)
      (outputs : List String) (name : String) (task : Task) (attempts : Attempts × Task)
      → IsGoing task
      → Tried index 1 plan.max_retries task attempts
      → ((more : List String) (retries : ℕ) (next : Task)
          → IsGoing next
          → Judged (index + 1) count (rest more retries next))
      → Judged index (suc count) (after_attempts rest index outputs name attempts)
  unfolding after_attempts checkpointed
  after_attempts-Judged rest index count outputs name task (gave_up status retries, after) going
        (same, legal, away, none_left) later =
      (
        record { status = status; workflow_results = outputs; retry_count = retries },
        ends status outputs retries after (ap (λ t. t.machine) same ∙ going.0) legal,
        ((λ e. absurd (away e)), λ all. absurd (none_left (all index (omega arith) (omega arith)))),
      )
  after_attempts-Judged rest index count outputs name task (finished retries, after) going
        (same, done) later =
      let (result, returned, (only, if_all)) =
        later (with_output outputs name) retries
          (checkpointed index (with_output outputs name) retries after)
          (ap (λ t. t.machine) same ∙ going.0, ap (λ t. t.cancel_flag) same ∙ going.1) in
      (
        result,
        returned,
        (
          (λ e. one_more index count done (only e)),
          λ all. if_all (λ i lo hi. all i (omega arith) (omega arith)),
        ),
      )

  run_from-Judged :
      (index : ℕ) (names outputs : List String) (retries : ℕ) (task : Task)
      → IsGoing task
      → Judged index (length names) (run_from plan index names outputs retries task)
  unfolding run_from can_transition
  run_from-Judged index [] outputs retries task going = (
    record { status = completed; workflow_results = outputs; retry_count = retries },
    ends completed outputs retries task going.0 refl,
    ((λ e i lo hi. absurd (omega arith)), λ all. refl),
  )
  run_from-Judged index (name ∷ names) outputs retries task going =
      rw (going.1, run_from)
        (after_attempts-Judged (λ more count next. run_from plan (index + 1) names more count next)
          index (length names) outputs name task
          (run_workflow plan index 1 plan.max_retries retries task) going
          (run_workflow-Tried index 1 plan.max_retries retries task)
          (λ more count next next_going.
            run_from-Judged (index + 1) names more count next next_going))

  -- A run of a new task, of at least one workflow, with a workflow runtime and without other calls, returns
  -- a result; and its status is COMPLETED exactly if each workflow is completed by one of its first
  -- `max_retries + 1` attempts.
  pub quiet_run :
      (task : Task)
      → task.machine ≡ created
      → task.cancel_flag ≡ false
      → task.checkpoint ≡ none
      → is_empty plan.workflow_names ≡ false
      → plan.is_configured ≡ true
      → Judged 0 (length plan.workflow_names) (run plan task)
  unfolding run move transition moved can_transition and_then run_plan
  quiet_run task fresh clear unsaved planned configured =
      rw (fresh, unsaved, planned, configured)
        (run_from-Judged 0 plan.workflow_names [] 0 _ (refl, clear))
