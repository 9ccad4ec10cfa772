-- ===== src/Workflow.antt =====
-- core/workflow/state.py and `WorkflowStatus` of core/workflow/models.py: the state machine of a
-- workflow.
use ai_lab_os.Prelude.{◌≡◌, Bool, true, false, arith, if◌then◌else◌, Result, ok, err}

pub data WorkflowStatus : Type 0 where
  created ready planning running waiting retrying paused resumed : WorkflowStatus
  completed failed cancelled : WorkflowStatus

pub data WorkflowError : Type 0 where
  workflow_state : WorkflowError

-- target in _VALID_TRANSITIONS[current]
unfoldable pub can_transition : WorkflowStatus → WorkflowStatus → Bool
can_transition created ready = true
can_transition ready planning = true
can_transition ready cancelled = true
can_transition planning running = true
can_transition planning failed = true
can_transition planning cancelled = true
can_transition running waiting = true
can_transition running paused = true
can_transition running completed = true
can_transition running failed = true
can_transition running cancelled = true
can_transition waiting running = true
can_transition waiting retrying = true
can_transition waiting cancelled = true
can_transition retrying running = true
can_transition retrying failed = true
can_transition retrying cancelled = true
can_transition paused resumed = true
can_transition paused cancelled = true
can_transition resumed running = true
can_transition failed retrying = true
can_transition _ _ = false

unfoldable pub transition : WorkflowStatus → WorkflowStatus → Result WorkflowError WorkflowStatus
unfolding can_transition
transition current target = if can_transition current target then ok target else err workflow_state

abbrev pub is_terminal : WorkflowStatus → Bool
is_terminal completed = true
is_terminal failed = true
is_terminal cancelled = true
is_terminal _ = false

unfoldable pub is_runnable : WorkflowStatus → Bool
is_runnable ready = true
is_runnable resumed = true
is_runnable _ = false

-- A terminal status is left only by the manual retry of a failed workflow: every other transition from
-- a terminal status raises, and the retry leads to RETRYING.
pub transition-terminal :
    (current target next : WorkflowStatus)
    → is_terminal current ≡ true
    → transition current target ≡ ok next
    → (current ≡ failed) × (target ≡ retrying) × (next ≡ retrying)
unfolding transition can_transition
transition-terminal current target next e s = (ground arith, ground arith, ground arith)
