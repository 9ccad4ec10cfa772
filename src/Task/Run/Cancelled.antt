-- ===== src/Task/Run/Cancelled.antt =====
-- A task that is cancelled while it runs.
use ai_lab_os.Prelude.{
  ℕ, suc, zero, ◌+◌, ◌≡◌, refl, false, Bool-cases, inl, inr, List, [], ◌∷◌, String, Result, err,
}
use ai_lab_os.Task.State.{
  TaskStatus, cancelled, completed, TaskError, task_state, can_transition, transition,
}
use ai_lab_os.Task.Run.{
  Task, Call, call_pause, call_resume, call_cancel, call_retry, Plan, TaskResult, moved, move,
  pause, resume, cancel, retry, call, call_all, Attempts, finished, gave_up, run_workflow, ended,
  end_with, checkpointed, after_attempts, run_from,
}
use ai_lab_os.Task.Run.Once.{WorkflowEnd-cases}

call-cancelled :
    (c : Call) (task : Task) → task.machine ≡ cancelled → (call c task).machine ≡ cancelled
unfolding call pause resume cancel retry move transition moved can_transition
call-cancelled call_pause task e = rw e refl
call-cancelled call_resume task e = rw e refl
call-cancelled call_cancel task e = rw e refl
call-cancelled call_retry task e = rw e refl

call_all-cancelled :
    (cs : List Call) (task : Task)
    → task.machine ≡ cancelled
    → (call_all cs task).machine ≡ cancelled
unfolding call_all
call_all-cancelled [] task e = e
call_all-cancelled (c ∷ cs) task e = call_all-cancelled cs (call c task) (call-cancelled c task e)

-- The ends of a loop over attempts: finished, or given up with a status that is not DESTROYED.
abbrev IsHopeless : Attempts × Task → Type 0
IsHopeless (finished retries, task) = task.machine ≡ cancelled
IsHopeless (gave_up status retries, task) =
    (task.machine ≡ cancelled) × (can_transition cancelled status ≡ false)

run_workflow-IsHopeless :
    (plan : Plan) (index attempt left retries : ℕ) (task : Task)
    → task.machine ≡ cancelled
    → IsHopeless (run_workflow plan index attempt left retries task)
unfolding run_workflow can_transition
run_workflow-IsHopeless plan index attempt zero retries task h =
    let after = call_all-cancelled (plan.meanwhile index attempt) task h in
    elim (WorkflowEnd-cases (plan.end_of index attempt)) [
      | inl e ↦ rw (e, run_workflow) after
      | inr (inl e) ↦ rw (e, run_workflow) (after, refl)
      | inr (inr e) ↦ rw (e, run_workflow) (after, refl)
    ]
run_workflow-IsHopeless plan index attempt (suc left) retries task h =
    let after = call_all-cancelled (plan.meanwhile index attempt) task h in
    let again =
      run_workflow-IsHopeless plan index (attempt + 1) left (retries + 1)
        (call_all (plan.meanwhile index attempt) task) after in
    elim (WorkflowEnd-cases (plan.end_of index attempt)) [
      | inl e ↦ rw (e, run_workflow) after
      | inr (inl e) ↦ rw (e, run_workflow) again
      | inr (inr e) ↦ rw (e, run_workflow) again
    ]

end_with_raises :
    (status : TaskStatus) (outputs : List String) (retries : ℕ) (task : Task)
    → task.machine ≡ cancelled
    → can_transition cancelled status ≡ false
    → (end_with status outputs retries task).0 ≡ err task_state
unfolding end_with move transition moved ended
end_with_raises status outputs retries task e illegal = rw (e, illegal)

after_attempts_raises :
    (rest : List String → ℕ → Task → Result TaskError TaskResult × Task) (index : ℕ)
    (outputs : List String) (name : String) (attempts : Attempts × Task)
    → IsHopeless attempts
    → ((more : List String) (count : ℕ) (next : Task)
        → next.machine ≡ cancelled
        → (rest more count next).0 ≡ err task_state)
    → (after_attempts rest index outputs name attempts).0 ≡ err task_state
unfolding after_attempts checkpointed
after_attempts_raises rest index outputs name (gave_up status retries, task) (e, illegal) later =
    end_with_raises status outputs retries task e illegal
after_attempts_raises rest index outputs name (finished retries, task) e later = later _ retries _ e

-- Once a task has been cancelled, the loop of `run` over its workflows ends with TaskStateError, and never
-- with a result, wherever it is, whatever the workflows do, and whatever calls follow.
pub cancelled_run_raises :
    (plan : Plan) (index : ℕ) (names outputs : List String) (retries : ℕ) (task : Task)
    → task.machine ≡ cancelled
    → (run_from plan index names outputs retries task).0 ≡ err task_state
unfolding run_from can_transition
cancelled_run_raises plan index [] outputs retries task e =
    end_with_raises completed outputs retries task e refl
cancelled_run_raises plan index (name ∷ names) outputs retries task e =
    elim (Bool-cases task.cancel_flag) [
      | inl flagged ↦ rw (flagged, run_from) (end_with_raises cancelled [] 0 task e refl)
      | inr clear ↦
          rw (clear, run_from)
            (after_attempts_raises
              (λ more count next. run_from plan (index + 1) names more count next) index outputs
              name (run_workflow plan index 1 plan.max_retries retries task)
              (run_workflow-IsHopeless plan index 1 plan.max_retries retries task e)
              (λ more count next h. cancelled_run_raises plan (index + 1) names more count next h))
    ]
