-- ===== src/Task/Examples.antt =====
-- The theorems on tasks at concrete inputs.
use ai_lab_os.Prelude.{ℕ, zero, suc, ◌≡◌, refl, true, false, none, [], ◌∷◌, err}
use ai_lab_os.Task.State.{created, cancelled, task_state}
use ai_lab_os.Task.Run.{
  Task, call_retry, Plan, WorkflowEnd, workflow_completed, workflow_failed, call_all, run, run_from,
}
use ai_lab_os.Task.Run.Once.{run_once}
use ai_lab_os.Task.Run.Quiet.{Judged, quiet_run}
use ai_lab_os.Task.Run.Cancelled.{cancelled_run_raises}

abbrev fresh : Task
fresh = record { machine = created; status = created; cancel_flag = false; checkpoint = none }

-- The first attempt of each workflow fails.
abbrev second_try : ℕ → WorkflowEnd
second_try (suc zero) = workflow_failed
second_try _ = workflow_completed

abbrev two_workflows : Plan
two_workflows = record {
  workflow_names = "collect" ∷ "report" ∷ [];
  max_retries = 3;
  is_configured = true;
  end_of = λ index attempt. second_try attempt;
  meanwhile = λ index attempt. [];
}

run_once_example :
    run two_workflows (call_all (call_retry ∷ []) (run two_workflows fresh).1)
    ≡ (err task_state, call_all (call_retry ∷ []) (run two_workflows fresh).1)
run_once_example = run_once two_workflows fresh (call_retry ∷ []) two_workflows

quiet_run_example : Judged two_workflows (λ index attempt. refl) 0 2 (run two_workflows fresh)
quiet_run_example = quiet_run two_workflows (λ index attempt. refl) fresh refl refl refl refl refl

abbrev stopped : Task
stopped = record { machine = cancelled; status = cancelled; cancel_flag = true; checkpoint = none }

cancelled_run_raises_example :
    (run_from two_workflows 1 ("report" ∷ []) ("collect" ∷ []) 1 stopped).0 ≡ err task_state
cancelled_run_raises_example =
    cancelled_run_raises two_workflows 1 ("report" ∷ []) ("collect" ∷ []) 1 stopped refl
