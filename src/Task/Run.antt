-- ===== src/Task/Run.antt =====
-- `run`, `pause`, `resume`, `cancel` and `retry` of core/task/runtime.py, for one task that is in the
-- registry and is not destroyed meanwhile. What the workflows do is an argument: the end of each
-- attempt, and the calls that other coroutines make while the attempt is awaited, whose results and
-- exceptions go to those coroutines. The context, the
-- outputs of the workflows, the latency and the events are left out.
pub mod Once
pub mod Quiet
pub mod Cancelled
use ai_lab_os.Prelude.{
  ℕ, suc, zero, ◌+◌, Bool, true, false, ◌||◌, Option, none, some, List, [], ◌∷◌, ◌++◌, String,
  str_eq, if◌then◌else◌, Result, ok, err,
}
use ai_lab_os.Task.State.{
  TaskStatus, created, ready, running, paused, failed, retrying, cancelled, completed, timeout,
  TaskError, can_transition, transition,
}

-- TaskCheckpoint
pub record Checkpoint : Type 0 where
  pub status : TaskStatus
  pub current_workflow_index : ℕ
  pub completed_workflows : List String
  pub retry_count : ℕ

-- `machine` is the state of the state machine, `status` the one in the registry.
pub record Task : Type 0 where
  pub machine : TaskStatus
  pub status : TaskStatus
  pub cancel_flag : Bool
  pub checkpoint : Option Checkpoint

pub data Call : Type 0 where
  call_pause call_resume call_cancel call_retry : Call

pub data WorkflowEnd : Type 0 where
  workflow_completed workflow_timed_out workflow_failed : WorkflowEnd

-- The variables of the context, and what happens in the attempts: each attempt is given by the index of
-- the workflow and its number.
pub record Plan : Type 0 where
  pub workflow_names : List String
  pub max_retries : ℕ
  pub is_configured : Bool
  pub end_of : ℕ → ℕ → WorkflowEnd
  pub meanwhile : ℕ → ℕ → List Call

pub record TaskResult : Type 0 where
  pub status : TaskStatus
  pub workflow_results : List String
  pub retry_count : ℕ

-- sm.transition(target) and set_status(target)
unfoldable pub moved :
    Task → TaskStatus → Result TaskError TaskStatus → Result TaskError Unit × Task
moved task target (err e) = (err e, task)
moved task target (ok machine) = (ok tt, record task { machine = machine; status = target })

unfoldable pub move : TaskStatus → Task → Result TaskError Unit × Task
unfolding moved transition
move target task = moved task target (transition task.machine target)

unfoldable pub pause : Task → Task
unfolding move can_transition
pause task = if can_transition task.machine paused then (move paused task).1 else task

-- sm.current != PAUSED
abbrev pub is_paused : TaskStatus → Bool
is_paused paused = true
is_paused _ = false

unfoldable pub resume : Task → Task
unfolding move
resume task = if is_paused task.machine then (move running task).1 else task

-- An illegal transition raises after the flag has been set.
unfoldable pub cancel : Task → Task
unfolding move
cancel task = (move cancelled (record task { cancel_flag = true })).1

-- The status in the registry is left as it is.
unfoldable pub retry : Task → Task
unfolding can_transition
retry task =
    if can_transition task.machine retrying then record task { machine = retrying } else task

unfoldable pub call : Call → Task → Task
unfolding pause resume cancel retry
call call_pause task = pause task
call call_resume task = resume task
call call_cancel task = cancel task
call call_retry task = retry task

unfoldable pub call_all : List Call → Task → Task
unfolding call
call_all [] task = task
call_all (c ∷ cs) task = call_all cs (call c task)

-- How the attempts of one workflow end, with the count of retries.
pub data Attempts : Type 0 where
  finished : ℕ → Attempts
  gave_up : TaskStatus → ℕ → Attempts

-- The loop over the attempts: `left` is how many retries are left.
unfoldable pub run_workflow : Plan → ℕ → ℕ → ℕ → ℕ → Task → Attempts × Task
unfolding call_all
run_workflow plan index attempt zero retries task =
    let after = call_all (plan.meanwhile index attempt) task in
    elim (plan.end_of index attempt) [
      | workflow_completed ↦ (finished retries, after)
      | workflow_timed_out ↦ (gave_up timeout retries, after)
      | workflow_failed ↦ (gave_up failed retries, after)
    ]
run_workflow plan index attempt (suc left) retries task =
    let after = call_all (plan.meanwhile index attempt) task in
    elim (plan.end_of index attempt) [
      | workflow_completed ↦ (finished retries, after)
      | workflow_timed_out ↦ run_workflow plan index (attempt + 1) left (retries + 1) after
      | workflow_failed ↦ run_workflow plan index (attempt + 1) left (retries + 1) after
    ]

-- A TaskResult after a last transition.
unfoldable pub ended :
    TaskResult → Result TaskError Unit × Task → Result TaskError TaskResult × Task
ended result (err e, task) = (err e, task)
ended result (ok done, task) = (ok result, task)

unfoldable pub end_with : TaskStatus → List String → ℕ → Task → Result TaskError TaskResult × Task
unfolding ended move
end_with status outputs retries task =
    ended (record { status = status; workflow_results = outputs; retry_count = retries })
      (move status task)

-- outputs[wf_name] = …
unfoldable pub with_output : List String → String → List String
with_output [] name = name ∷ []
with_output (known ∷ outputs) name =
    let rest = with_output outputs name in
    if str_eq known name then known ∷ outputs else known ∷ rest

unfoldable pub checkpointed : ℕ → List String → ℕ → Task → Task
checkpointed index outputs retries task = record task {
  status = task.machine;
  checkpoint = some (record {
    status = task.machine;
    current_workflow_index = index + 1;
    completed_workflows = outputs;
    retry_count = retries;
  });
}

-- The rest of the loop once the attempts of a workflow are over.
unfoldable pub after_attempts :
    (List String → ℕ → Task → Result TaskError TaskResult × Task)
    → ℕ
    → List String
    → String
    → Attempts × Task
    → Result TaskError TaskResult × Task
unfolding end_with with_output checkpointed
after_attempts rest index outputs name (gave_up status retries, task) =
    end_with status outputs retries task
after_attempts rest index outputs name (finished retries, task) =
    let more = with_output outputs name in rest more retries (checkpointed index more retries task)

-- The loop over the workflows that are left.
unfoldable pub run_from :
    Plan → ℕ → List String → List String → ℕ → Task → Result TaskError TaskResult × Task
unfolding end_with after_attempts run_workflow
run_from plan index [] outputs retries task = end_with completed outputs retries task
run_from plan index (name ∷ names) outputs retries task = elim task.cancel_flag [
  | true ↦ end_with cancelled [] 0 task
  | false ↦
      after_attempts (λ more count next. run_from plan (index + 1) names more count next) index
        outputs name (run_workflow plan index 1 plan.max_retries retries task)
]

abbrev pub dropped : ℕ → List String → List String
dropped zero names = names
dropped (suc n) [] = []
dropped (suc n) (name ∷ names) = dropped n names

abbrev pub start_index : Option Checkpoint → ℕ
start_index none = 0
start_index (some cp) = cp.current_workflow_index

abbrev pub start_retries : Option Checkpoint → ℕ
start_retries none = 0
start_retries (some cp) = cp.retry_count

abbrev pub is_empty : List String → Bool
is_empty [] = true
is_empty _ = false

unfoldable pub run_plan : Plan → Task → Result TaskError TaskResult × Task
unfolding end_with run_from
run_plan plan task =
    let start = start_index task.checkpoint in
    let retries = start_retries task.checkpoint in
    if is_empty plan.workflow_names
    then end_with failed [] retries task
    else if plan.is_configured
    then run_from plan start (dropped start plan.workflow_names) [] retries task
    else end_with failed [] retries task

-- The steps of `run` before and after a transition that may raise.
unfoldable pub and_then :
    (Task → Result TaskError TaskResult × Task)
    → Result TaskError Unit × Task
    → Result TaskError TaskResult × Task
and_then rest (err e, task) = (err e, task)
and_then rest (ok done, task) = rest task

unfoldable pub run : Plan → Task → Result TaskError TaskResult × Task
unfolding and_then move run_plan
run plan task =
    and_then (λ readied. and_then (λ started. run_plan plan started) (move running readied))
      (move ready task)
