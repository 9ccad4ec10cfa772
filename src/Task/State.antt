-- ===== src/Task/State.antt =====
-- `TaskStatus` of core/task/models.py and `TaskStateMachine` of core/task/state.py.
pub mod Reach
use ai_lab_os.Prelude.{Bool, true, false, if◌then◌else◌, Result, ok, err}

pub data TaskStatus : Type 0 where
  created ready running waiting paused failed retrying cancelled completed timeout : TaskStatus
  destroyed : TaskStatus

-- TaskStateError; TaskNotFoundError stands with the registry, which is not modelled.
pub data TaskError : Type 0 where
  task_state : TaskError

-- target in _VALID_TRANSITIONS[current]
unfoldable pub can_transition : TaskStatus → TaskStatus → Bool
can_transition created ready = true
can_transition created cancelled = true
can_transition ready running = true
can_transition ready cancelled = true
can_transition running waiting = true
can_transition running paused = true
can_transition running completed = true
can_transition running failed = true
can_transition running timeout = true
can_transition running cancelled = true
can_transition waiting running = true
can_transition waiting cancelled = true
can_transition waiting timeout = true
can_transition paused running = true
can_transition paused cancelled = true
can_transition failed retrying = true
can_transition failed destroyed = true
can_transition retrying running = true
can_transition retrying failed = true
can_transition retrying cancelled = true
can_transition timeout retrying = true
can_transition timeout destroyed = true
can_transition cancelled destroyed = true
can_transition completed destroyed = true
can_transition _ _ = false

unfoldable pub transition : TaskStatus → TaskStatus → Result TaskError TaskStatus
unfolding can_transition
transition current target = if can_transition current target then ok target else err task_state

pub is_terminal : TaskStatus → Bool
is_terminal completed = true
is_terminal failed = true
is_terminal cancelled = true
is_terminal destroyed = true
is_terminal timeout = true
is_terminal _ = false

pub is_runnable : TaskStatus → Bool
is_runnable ready = true
is_runnable retrying = true
is_runnable _ = false
