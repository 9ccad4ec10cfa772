-- ===== src/Task/Run/Once.antt =====
-- A task runs at most once.
use ai_lab_os.Prelude.{
  ℕ, suc, zero, ◌+◌, ◌≡◌, refl, Bool, true, false, Bool-cases, ◌⊎◌, inl, inr, List, [], ◌∷◌, String,
  arith, Result, ok, err,
}
use ai_lab_os.Task.State.{
  TaskStatus, created, ready, running, paused, failed, retrying, cancelled, completed, TaskError,
  task_state, can_transition, transition,
}
use ai_lab_os.Task.Run.{
  Task, Call, call_pause, call_resume, call_cancel, call_retry, WorkflowEnd, workflow_completed,
  workflow_timed_out, workflow_failed, Plan, TaskResult, moved, move, is_paused, pause, resume,
  cancel, retry, call, call_all, Attempts, finished, gave_up, run_workflow, ended, end_with,
  checkpointed, after_attempts, run_from, dropped, start_index, start_retries, is_empty, run_plan,
  and_then, run,
}

abbrev is_created : TaskStatus → Bool
is_created created = true
is_created _ = false

-- The task has left its first state.
abbrev HasLeft : Task → Type 0
HasLeft task = is_created task.machine ≡ false

move-HasLeft :
    (target : TaskStatus) (task : Task)
    → is_created target ≡ false
    → HasLeft task
    → HasLeft (move target task).1
unfolding move transition moved
move-HasLeft target task away left = elim (Bool-cases (can_transition task.machine target)) [
  | inl legal ↦ rw legal away
  | inr illegal ↦ rw illegal left
]

call-HasLeft : (c : Call) (task : Task) → HasLeft task → HasLeft (call c task)
unfolding call pause resume cancel retry
call-HasLeft call_pause task left = elim (Bool-cases (can_transition task.machine paused)) [
  | inl legal ↦ rw legal refl
  | inr illegal ↦ rw illegal left
]
call-HasLeft call_resume task left = elim (Bool-cases (is_paused task.machine)) [
  | inl waiting ↦ rw waiting (move-HasLeft running task refl left)
  | inr other ↦ rw other left
]
call-HasLeft call_cancel task left =
    move-HasLeft cancelled (record task { cancel_flag = true }) refl left
call-HasLeft call_retry task left = elim (Bool-cases (can_transition task.machine retrying)) [
  | inl legal ↦ rw legal refl
  | inr illegal ↦ rw illegal left
]

call_all-HasLeft : (cs : List Call) (task : Task) → HasLeft task → HasLeft (call_all cs task)
unfolding call_all
call_all-HasLeft [] task left = left
call_all-HasLeft (c ∷ cs) task left = call_all-HasLeft cs (call c task) (call-HasLeft c task left)

pub WorkflowEnd-cases :
    (e : WorkflowEnd) → (e ≡ workflow_completed) ⊎ (e ≡ workflow_timed_out) ⊎ (e ≡ workflow_failed)
WorkflowEnd-cases workflow_completed = inl refl
WorkflowEnd-cases workflow_timed_out = inr (inl refl)
WorkflowEnd-cases workflow_failed = inr (inr refl)

run_workflow-HasLeft :
    (plan : Plan) (index attempt left retries : ℕ) (task : Task)
    → HasLeft task
    → HasLeft (run_workflow plan index attempt left retries task).1
unfolding run_workflow
run_workflow-HasLeft plan index attempt zero retries task h =
    let after = call_all-HasLeft (plan.meanwhile index attempt) task h in
    elim (WorkflowEnd-cases (plan.end_of index attempt)) [
      | inl e ↦ rw (e, run_workflow) after
      | inr (inl e) ↦ rw (e, run_workflow) after
      | inr (inr e) ↦ rw (e, run_workflow) after
    ]
run_workflow-HasLeft plan index attempt (suc left) retries task h =
    let after = call_all-HasLeft (plan.meanwhile index attempt) task h in
    let again =
      run_workflow-HasLeft plan index (attempt + 1) left (retries + 1)
        (call_all (plan.meanwhile index attempt) task) after in
    elim (WorkflowEnd-cases (plan.end_of index attempt)) [
      | inl e ↦ rw (e, run_workflow) after
      | inr (inl e) ↦ rw (e, run_workflow) again
      | inr (inr e) ↦ rw (e, run_workflow) again
    ]

end_with-HasLeft :
    (status : TaskStatus) (outputs : List String) (retries : ℕ) (task : Task)
    → is_created status ≡ false
    → HasLeft task
    → HasLeft (end_with status outputs retries task).1
unfolding end_with move transition moved ended
end_with-HasLeft status outputs retries task away left =
    elim (Bool-cases (can_transition task.machine status)) [
      | inl legal ↦ rw legal away
      | inr illegal ↦ rw illegal left
    ]

-- The attempts give up with the status FAILED or TIMEOUT.
abbrev EndsAway : Attempts → Type 0
EndsAway (finished retries) = Unit
EndsAway (gave_up status retries) = is_created status ≡ false

run_workflow-EndsAway :
    (plan : Plan) (index attempt left retries : ℕ) (task : Task)
    → EndsAway (run_workflow plan index attempt left retries task).0
unfolding run_workflow
run_workflow-EndsAway plan index attempt zero retries task =
    elim (WorkflowEnd-cases (plan.end_of index attempt)) [
      | inl e ↦ rw (e, run_workflow) tt
      | inr (inl e) ↦ rw (e, run_workflow) refl
      | inr (inr e) ↦ rw (e, run_workflow) refl
    ]
run_workflow-EndsAway plan index attempt (suc left) retries task =
    let again =
      run_workflow-EndsAway plan index (attempt + 1) left (retries + 1)
        (call_all (plan.meanwhile index attempt) task) in
    elim (WorkflowEnd-cases (plan.end_of index attempt)) [
      | inl e ↦ rw (e, run_workflow) tt
      | inr (inl e) ↦ rw (e, run_workflow) again
      | inr (inr e) ↦ rw (e, run_workflow) again
    ]

after_attempts-HasLeft :
    (rest : List String → ℕ → Task → Result TaskError TaskResult × Task) (index : ℕ)
    (outputs : List String) (name : String) (attempts : Attempts × Task)
    → EndsAway attempts.0
    → HasLeft attempts.1
    → ((more : List String) (count : ℕ) (next : Task)
        → HasLeft next
        → HasLeft (rest more count next).1)
    → HasLeft (after_attempts rest index outputs name attempts).1
unfolding after_attempts checkpointed
after_attempts-HasLeft rest index outputs name (gave_up status retries, task) away left later =
    end_with-HasLeft status outputs retries task away left
after_attempts-HasLeft rest index outputs name (finished retries, task) away left later =
    later _ retries _ left

run_from-HasLeft :
    (plan : Plan) (index : ℕ) (names outputs : List String) (retries : ℕ) (task : Task)
    → HasLeft task
    → HasLeft (run_from plan index names outputs retries task).1
unfolding run_from
run_from-HasLeft plan index [] outputs retries task left =
    end_with-HasLeft completed outputs retries task refl left
run_from-HasLeft plan index (name ∷ names) outputs retries task left =
    elim (Bool-cases task.cancel_flag) [
      | inl flagged ↦ rw (flagged, run_from) (end_with-HasLeft cancelled [] 0 task refl left)
      | inr clear ↦
          rw (clear, run_from)
            (after_attempts-HasLeft
              (λ more count next. run_from plan (index + 1) names more count next) index outputs
              name (run_workflow plan index 1 plan.max_retries retries task)
              (run_workflow-EndsAway plan index 1 plan.max_retries retries task)
              (run_workflow-HasLeft plan index 1 plan.max_retries retries task left)
              (λ more count next h. run_from-HasLeft plan (index + 1) names more count next h))
    ]

run_plan-HasLeft : (plan : Plan) (task : Task) → HasLeft task → HasLeft (run_plan plan task).1
unfolding run_plan
run_plan-HasLeft plan task left =
    let start = start_index task.checkpoint in
    let retries = start_retries task.checkpoint in
    elim (Bool-cases (is_empty plan.workflow_names)) [
      | inl empty ↦ rw empty (end_with-HasLeft failed [] retries task refl left)
      | inr planned ↦ elim (Bool-cases plan.is_configured) [
        | inl configured ↦
            rw (planned, configured)
              (run_from-HasLeft plan start (dropped start plan.workflow_names) [] retries task left)
        | inr missing ↦ rw (planned, missing) (end_with-HasLeft failed [] retries task refl left)
      ]
    ]

and_then-HasLeft :
    (rest : Task → Result TaskError TaskResult × Task) (outcome : Result TaskError Unit × Task)
    → HasLeft outcome.1
    → ((next : Task) → HasLeft next → HasLeft (rest next).1)
    → HasLeft (and_then rest outcome).1
unfolding and_then
and_then-HasLeft rest (err e, task) left later = left
and_then-HasLeft rest (ok done, task) left later = later task left

ready-HasLeft : (task : Task) → HasLeft (move ready task).1
unfolding move transition moved can_transition
ready-HasLeft task = elim (Bool-cases (can_transition task.machine ready)) [
  | inl legal ↦ rw legal refl
  | inr illegal ↦ rw illegal (ground arith)
]

run-HasLeft : (plan : Plan) (task : Task) → HasLeft (run plan task).1
unfolding run
run-HasLeft plan task =
    and_then-HasLeft (λ readied. and_then (λ started. run_plan plan started) (move running readied))
      (move ready task) (ready-HasLeft task)
      (λ readied left.
        and_then-HasLeft (λ started. run_plan plan started) (move running readied)
          (move-HasLeft running readied refl left) (λ started h. run_plan-HasLeft plan started h))

run_refused : (plan : Plan) (task : Task) → HasLeft task → run plan task ≡ (err task_state, task)
unfolding run move transition moved can_transition and_then
run_refused plan task left =
    let illegal : can_transition task.machine ready ≡ false = ground arith in rw illegal refl

-- After `run` has been called on a task, whatever came of it and whatever calls of `pause`, `resume`,
-- `cancel` and `retry` follow, another `run` of the task raises TaskStateError and changes nothing.
pub run_once :
    (plan : Plan) (task : Task) (calls : List Call) (again : Plan)
    → run again (call_all calls (run plan task).1)
      ≡ (err task_state, call_all calls (run plan task).1)
run_once plan task calls again =
    run_refused again (call_all calls (run plan task).1)
      (call_all-HasLeft calls (run plan task).1 (run-HasLeft plan task))
